-- ===== src/Proc/Exit.antt =====
-- `exitProc`, and the handler of the command that it pushes.
use veoffload.Base.{ℕ, true, false, pos, Result, ok, err, uninitialised, ◌>>=◌}
use veoffload.Args.Setup.{copyout}
use veoffload.Queues.Blocking.{Command, command_ok, set_result}
use veoffload.Context.State.{Task}
use veoffload.Execution.Driver.{Driver, World}
use veoffload.Execution.Filters.{exit_filter}
use veoffload.Execution.Exceptions.{Handled, exception_handler, is_zero}
use veoffload.Execution.Calls.{do_call, update_args, read_mem}
use veoffload.Execution.Handlers.{Outcome, finished}

module _ {D : Type 0} (os : Driver D) where
  -- The part after the exception handler gave a status other than 0, a fatal exception included:
  -- result, then copy-out.
  unfoldable pub report_exit : ℕ → Command Task → World D → Result (Outcome os)
  report_exit args cmd w = do
    o ← copyout (read_mem os) (w.args args) w.vh w.ve
    let w' = record w { args = update_args w.args args (o.0); vh = o.1; ve = o.2 }
    ok (finished (pos 0) (set_result 0 command_ok cmd) w')

  -- For the status 0 the code reads its local `status`, which it never sets.
  unfoldable pub end_exit : ℕ → Command Task → Handled os → Result (Outcome os)
  end_exit args cmd h = elim (is_zero h.status) [
    | true ↦ err uninitialised
    | false ↦ report_exit args cmd h.world
  ]

  -- The handler of the command. `addr` is the address of `exit` in veorun.
  unfoldable pub run_exit :
      (patience fuel exs addr args : ℕ) → Command Task → World D → Result (Outcome os)
  run_exit patience fuel exs addr args cmd w = do
    w₁ ← do_call os addr args w
    h ← exception_handler os patience fuel (exit_filter os) exs w₁
    end_exit args cmd h
