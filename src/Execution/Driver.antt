-- ===== src/Execution/Driver.antt =====
-- The functions and numbers of libved, libvepseudo and the VEOS headers that libveo calls, and the
-- state of the pseudo thread over them.
use Prim.Native.Nat.{bit_and}
use veoffload.Base.{ℕ, Bool, List, ℤ, Memory, ◌==◌, not}
use veoffload.Args.Setup.{CallArgs}
use veoffload.Context.State.{Context}

-- What `vedl_wait_exception` gives: its status, errno, and the EXS register.
pub record Waited : Type 0 where
  pub ret : ℤ
  pub errno : ℕ
  pub exs : ℕ

-- The bits of the EXS register, the numbers of the system calls and the register numbers.
pub record Numbers : Type 0 where
  pub exs_monc : ℕ
  pub exs_mont : ℕ
  pub exs_rdbg : ℕ
  pub uncorrectable_error : ℕ
  pub correctable_error : ℕ
  pub nr_rt_sigaction : ℕ
  pub nr_rt_sigreturn : ℕ
  pub nr_fork : ℕ
  pub nr_vfork : ℕ
  pub nr_execve : ℕ
  pub nr_exit : ℕ
  pub nr_wait4 : ℕ
  pub nr_rt_sigpending : ℕ
  pub nr_rt_sigtimedwait : ℕ
  pub nr_rt_sigsuspend : ℕ
  pub nr_sigaltstack : ℕ
  pub nr_exit_group : ℕ
  pub nr_signalfd : ℕ
  pub nr_signalfd4 : ℕ
  pub nr_clone : ℕ
  pub sr00 : ℕ
  pub sr11 : ℕ
  pub sr12 : ℕ

-- `D` is the state of the VE and of VEOS. A status is an `int`, a value of a register a 64-bit number.
pub record Driver (D : Type 0) : Type 0 where
  pub numbers : Numbers
  pub wait_exception : D → Waited × D
  pub syscall_num : D → ℕ
  pub syscall_arg : ℕ → D → ℕ
  -- `un_block_and_retval_req` for a system call, with its return value.
  pub un_block : ℕ → ℕ → D → D
  -- `block_syscall_req_ve_os`.
  pub block_syscall : D → D
  -- `ve_syscall_handler`.
  pub handle_syscall : ℕ → D → D
  pub set_user_reg : ℕ → ℕ → D → D
  -- `ve_recv_data` from an address, for a size: the status, and the bytes that it stores.
  pub recv_data : ℕ → ℕ → D → ℤ × List ℕ × D
  pub send_data : ℕ → List ℕ → D → ℤ × D
  -- `process_thread_cleanup`.
  pub cleanup : D → D
  -- The semaphore of `handleCloneRequest`, `sem_wait` with errno; and errno as the other calls leave it.
  pub sem_init : D → ℕ × D
  pub sem_wait : D → (ℕ × ℕ) × D
  pub sem_destroy : D → D
  pub errno : D → ℕ
  -- `sem_post` on the semaphore that the thread was started with.
  pub sem_post : D → ℤ × D
  -- `ve__do_clone`, and the address of the new `ThreadContext`.
  pub do_clone : D → ℤ × D
  pub context_address : D → ℕ
  -- The client's VH function, at an address, for an argument.
  pub vh_function : ℕ → ℕ → Memory → ℕ × Memory

-- `args` holds the argument objects by the names that `Task` uses.
pub record World (D : Type 0) : Type 0 where
  pub ctx : Context
  pub vh : Memory
  pub args : ℕ → CallArgs
  pub ve : D

-- `exs & mask` as a condition.
unfoldable pub has_bits : ℕ → ℕ → Bool
has_bits exs mask = not (bit_and exs mask == 0)
