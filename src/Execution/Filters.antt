-- ===== src/Execution/Filters.antt =====
-- The system call filters: `default_filtered_syscalls`, `is_veo_block`, `defaultFilter`,
-- `hookCloneFilter`, `exitFilter`, `_is_clone_request` and `_is_exit_request`.
use veoffload.Base.{
  ℕ, ◌-◌, ◌^◌, Bool, true, false, List, [], ◌∷◌, ◌==◌, if◌then◌else◌, ℤ, pos, negsuc,
}
use veoffload.Context.State.{contains, state_blocked}
use veoffload.Execution.Driver.{Numbers, Driver, World}

-- include/veo_private_defs.h.
abbrev pub nr_sysve : ℕ
nr_sysve = 316

abbrev pub sysve_veo_block : ℕ
sysve_veo_block = 0x14

-- `enum ExceptionHandlerStatus`.
abbrev pub status_exception : ℤ
status_exception = negsuc 0

abbrev pub status_terminated : ℤ
status_terminated = pos 0

abbrev pub block_requested : ℕ
block_requested = 1

-- `-ENOSYS` (38 on Linux) as a 64-bit number.
abbrev pub minus_enosys : ℕ
minus_enosys = 2 ^ 64 - 38

abbrev pub default_filtered_syscalls : Numbers → List ℕ
default_filtered_syscalls k =
    k.nr_rt_sigaction ∷ k.nr_rt_sigreturn ∷ k.nr_fork ∷ k.nr_vfork ∷ k.nr_execve ∷ k.nr_exit
    ∷ k.nr_wait4 ∷ k.nr_rt_sigpending ∷ k.nr_rt_sigtimedwait ∷ k.nr_rt_sigsuspend ∷ k.nr_sigaltstack
    ∷ k.nr_exit_group ∷ k.nr_signalfd ∷ k.nr_signalfd4 ∷ []

module _ {D : Type 0} (os : Driver D) where
  unfoldable pub is_veo_block : D → ℕ → Bool
  is_veo_block d sysnum =
      if sysnum == nr_sysve then os.syscall_arg 0 d == sysve_veo_block else false

  -- What a filter gives: whether the call is filtered, the break flag, and the state.
  pub record Filtered : Type 0 where
    pub filtered : Bool
    pub break_flag : ℕ
    pub world : World D

  abbrev pub Filter : Type 0
  Filter = ℕ → World D → Filtered

  unfoldable pub default_filter : Filter
  default_filter sysnum w =
      if contains sysnum (default_filtered_syscalls os.numbers)
      then record {
        filtered = true;
        break_flag = 0;
        world = record w { ve = os.un_block sysnum minus_enosys w.ve };
      }
      else (if is_veo_block w.ve sysnum
          then record {
            filtered = true;
            break_flag = block_requested;
            world = record w {
              ve = os.block_syscall w.ve;
              ctx = record w.ctx { state = state_blocked };
            };
          }
          else record { filtered = false; break_flag = 0; world = w })

  unfoldable pub hook_clone_filter : Filter
  hook_clone_filter sysnum w =
      if sysnum == os.numbers.nr_clone
      then record { filtered = true; break_flag = os.numbers.nr_clone; world = w }
      else default_filter sysnum w

  unfoldable pub exit_filter : Filter
  exit_filter sysnum w =
      if sysnum == os.numbers.nr_exit_group
      then record { filtered = true; break_flag = os.numbers.nr_exit_group; world = w }
      else default_filter sysnum w

  abbrev pub is_status : ℕ → ℤ → Bool
  is_status n (pos k) = k == n
  is_status n (negsuc k) = false

  unfoldable pub is_clone_request : ℤ → Bool
  is_clone_request rv = is_status os.numbers.nr_clone rv

  unfoldable pub is_exit_request : ℤ → Bool
  is_exit_request rv = is_status os.numbers.nr_exit_group rv
