-- ===== src/Execution/Exceptions.antt =====
-- `handleSingleException`, `exceptionHandler` and `_executeVE`.
use Prim.Native.Nat.{bit_and}
use veoffload.Base.{
  ℕ, zero, suc, ◌-◌, ◌^◌, Bool, true, false, ◌&&◌, ◌||◌, not, ◌==◌, if◌then◌else◌, ℤ, pos, negsuc,
  Result, ok, err, out_of_fuel, exception, ◌>>=◌,
}
use veoffload.Context.State.{
  ContextState, state_unknown, state_running, state_syscall, state_blocked, state_exit,
}
use veoffload.Execution.Driver.{Numbers, Driver, Waited, World, has_bits}
use veoffload.Execution.Filters.{
  Filter, Filtered, default_filter, status_exception, status_terminated, block_requested, is_status,
}

-- `~0xffUL`.
abbrev pub veo_exception_mask : ℕ
veo_exception_mask = 2 ^ 64 - 0x100

-- `EINTR` on Linux.
abbrev pub eintr : ℕ
eintr = 4

abbrev pub is_zero : ℤ → Bool
is_zero (pos n) = n == 0
is_zero (negsuc n) = false

abbrev pub is_minus_one : ℤ → Bool
is_minus_one (pos n) = false
is_minus_one (negsuc n) = n == 0

abbrev pub is_running : ContextState → Bool
is_running state_unknown = false
is_running state_running = true
is_running state_syscall = false
is_running state_blocked = false
is_running state_exit = false

abbrev pub is_blocked : ContextState → Bool
is_blocked state_unknown = false
is_blocked state_running = false
is_blocked state_syscall = false
is_blocked state_blocked = true
is_blocked state_exit = false

-- One round of the waiting loop: wait again, throw, or go on with the EXS value.
pub data Round : Type 0 where
  again : Round
  throws : ℕ → Round
  raised : ℕ → Round

unfoldable pub judge : Waited → Round
judge r =
    if is_zero r.ret
    then (if bit_and r.exs veo_exception_mask == 0 then again else raised r.exs)
    else (if is_minus_one r.ret && r.errno == eintr then again else throws r.errno)

-- `(exs & EXS_MONT) || (exs & UNCORRECTABLE_ERROR) || ...`.
unfoldable pub is_fatal : Numbers → ℕ → Bool
is_fatal k exs =
    has_bits exs k.exs_mont
    || has_bits exs k.uncorrectable_error
    || (has_bits exs k.correctable_error
        && not (has_bits exs k.exs_monc || has_bits exs k.exs_rdbg))

module _ {D : Type 0} (os : Driver D) where
  -- What a handler gives: its status, the EXS value, and the state.
  pub record Handled : Type 0 where
    pub status : ℤ
    pub exs : ℕ
    pub world : World D

  -- The loop around `vedl_wait_exception`, on fuel.
  unfoldable pub wait_for_exception : ℕ → D → Result (ℕ × D)
  wait_for_exception zero d = err out_of_fuel
  wait_for_exception (suc fuel) d = elim (judge (os.wait_exception d).0) [
    | again ↦ wait_for_exception fuel (os.wait_exception d).1
    | throws errno ↦ err (exception errno)
    | raised exs ↦ ok (exs, (os.wait_exception d).1)
  ]

  -- A system call of the VE: the filter, and the handler of VEOS if it is not filtered.
  unfoldable pub system_call : Filter os → World D → Filtered os
  system_call filter w =
      let sysnum = os.syscall_num w.ve in
      let f = filter sysnum w in
      if f.filtered then f else record f {
        world = record f.world {
          ve = os.handle_syscall sysnum f.world.ve;
          ctx = record f.world.ctx { state = state_running };
        };
      }

  -- The part after the wait: the system call, if there is one, then the fatal exceptions.
  unfoldable pub handle_raised : Filter os → ℕ → World D → Handled
  handle_raised filter exs w =
      let f =
        (if has_bits exs os.numbers.exs_monc
          then system_call filter w
          else record { filtered = false; break_flag = 0; world = w }) in
      if is_fatal os.numbers exs
      then record {
        status = status_exception;
        exs = exs;
        world = record f.world { ve = os.block_syscall f.world.ve };
      }
      else record { status = pos f.break_flag; exs = exs; world = f.world }

  unfoldable pub handle_single_exception : ℕ → Filter os → World D → Result Handled
  handle_single_exception fuel filter w = do
    waited ← wait_for_exception fuel w.ve
    ok (handle_raised filter (waited.0) (record w { ve = waited.1 }))

  -- `exceptionHandler`, on fuel for its rounds; each round has `patience` waits. `exs` is the EXS
  -- value before, which stays where no round is made.
  unfoldable pub exception_handler : ℕ → ℕ → Filter os → ℕ → World D → Result Handled
  exception_handler patience zero filter exs w = err out_of_fuel
  exception_handler patience (suc fuel) filter exs w = elim (is_running w.ctx.state) [
    | false ↦ ok (record { status = status_terminated; exs = exs; world = w })
    | true ↦ (do
      h ← handle_single_exception patience filter w
      elim (is_zero h.status) [
        | true ↦ exception_handler patience fuel filter h.exs h.world
        | false ↦ ok h
      ])
  ]

  -- `_executeVE` and `defaultExceptionHandler`; the call is successful if the status asks for a block.
  unfoldable pub execute_ve : ℕ → ℕ → ℕ → World D → Result Handled
  execute_ve patience fuel exs w = exception_handler patience fuel (default_filter os) exs w

  abbrev pub is_block_request : Handled → Bool
  is_block_request h = is_status os block_requested h.status
