-- ===== src/Execution/Handlers.antt =====
-- The handlers of the commands: the lambdas of `callAsync`, `callVHAsync`, `_callOpenContext`,
-- `asyncReadMem` and `asyncWriteMem`, and `_closeCommandHandler`.
use veoffload.Base.{
  ℕ, ◌-◌, ◌^◌, true, false, if◌then◌else◌, ℤ, pos, negsuc, Result, ok, err, exception, ◌>>=◌, load,
  store,
}
use veoffload.Args.Setup.{copyout}
use veoffload.Queues.Blocking.{
  Command, new_command, set_result, CommandStatus, command_ok, command_error, command_exception,
}
use veoffload.Queues.Comm.{push_completion}
use veoffload.Context.State.{
  Task, call_task, vh_task, read_task, write_task, open_task, close_task, state_exit,
}
use veoffload.Execution.Driver.{Driver, World}
use veoffload.Execution.Filters.{is_clone_request, hook_clone_filter}
use veoffload.Execution.Exceptions.{
  Handled, exception_handler, execute_ve, is_block_request, is_minus_one, is_zero,
}
use veoffload.Execution.Clone.{is_negative, handle_clone_request}
use veoffload.Execution.Calls.{
  update_args, do_call, collect_return_value, unblock, read_mem, write_mem,
}

-- An `int` or an `int64_t` converted to `uint64_t`.
abbrev pub to_u64 : ℤ → ℕ
to_u64 (pos n) = n
to_u64 (negsuc n) = 2 ^ 64 - 1 - n

module _ {D : Type 0} (os : Driver D) where
  -- A handler gives its status and the command with the result that it set; or it never returns.
  pub data Outcome : Type 0 where
    finished : ℤ → Command Task → World D → Outcome
    exited : World D → Outcome

  -- The end of a call that was blocked as it should be: result, then copy-out.
  unfoldable pub finish_call : ℕ → Command Task → World D → Result Outcome
  finish_call args cmd w = do
    r ← collect_return_value os w
    o ← copyout (read_mem os) (w.args args) w.vh (r.1).ve
    let w' = record r.1 { args = update_args w.args args (o.0); vh = o.1; ve = o.2 }
    ok (finished (pos 0) (set_result (r.0) command_ok cmd) w')

  unfoldable pub fail_call : Handled os → Command Task → Outcome
  fail_call h cmd =
      let failed =
        (if is_minus_one h.status
          then set_result h.exs command_exception cmd
          else set_result (to_u64 h.status) command_error cmd) in
      finished (pos 1) failed h.world

  unfoldable pub end_call : ℕ → Command Task → Handled os → Result Outcome
  end_call args cmd h = elim (is_block_request os h) [
    | true ↦ finish_call args cmd h.world
    | false ↦ ok (fail_call h cmd)
  ]

  -- `patience` and `fuel` are for the exception handler. `exs` is not initialised in the source.
  unfoldable pub run_call :
      (patience fuel exs addr args : ℕ) → Command Task → World D → Result Outcome
  run_call patience fuel exs addr args cmd w = do
    w₁ ← do_call os addr args w
    h ← execute_ve os patience fuel exs w₁
    end_call args cmd h

  unfoldable pub run_vh : (func arg : ℕ) → Command Task → World D → Outcome
  run_vh func arg cmd w =
      let r = os.vh_function func arg w.vh in
      finished (pos 0) (set_result (r.0) command_ok cmd) (record w { vh = r.1 })

  abbrev pub transfer_status : ℤ → CommandStatus
  transfer_status rv = if is_zero rv then command_ok else command_error

  unfoldable pub run_read : (dst src size : ℕ) → Command Task → World D → Outcome
  run_read dst src size cmd w =
      let r = read_mem os src size (load w.vh dst size) w.ve in
      finished (r.0) (set_result (to_u64 (r.0)) (transfer_status (r.0)) cmd)
        (record w { vh = store w.vh dst (r.1); ve = r.2 })

  unfoldable pub run_write : (dst src size : ℕ) → Command Task → World D → Outcome
  run_write dst src size cmd w =
      let r = write_mem os dst (load w.vh src size) w.ve in
      finished (r.0) (set_result (to_u64 (r.0)) (transfer_status (r.0)) cmd) (record w { ve = r.1 })

  -- What `_callOpenContext` notes where the VE did not stop at `clone`; it goes on all the same.
  unfoldable pub note_unexpected : Handled os → Command Task → Command Task
  note_unexpected h cmd =
      if is_clone_request os h.status then cmd else set_result h.exs command_exception cmd

  -- The end of `_callOpenContext`, by the thread ID that `clone` gave.
  unfoldable pub end_open : ℤ → Command Task → Handled os → Result Outcome
  end_open tid cmd h = elim (is_block_request os h) [
    | false ↦ err (exception 0)
    | true ↦
        let value = (if is_negative tid then to_u64 tid else os.context_address h.world.ve) in
        ok (finished (pos 0) (set_result value command_ok cmd) h.world)
  ]

  -- `handleCloneRequest`, `_unBlock` and the run of the parent up to its next block request.
  unfoldable pub open_child : (patience fuel : ℕ) → Command Task → Handled os → Result Outcome
  open_child patience fuel cmd h = do
    let c = handle_clone_request os fuel h.world.ve
    tid ← c.0
    h₂ ← execute_ve os patience fuel h.exs (unblock os (to_u64 tid) (record h.world { ve = c.1 }))
    end_open tid (note_unexpected h cmd) h₂

  unfoldable pub run_open :
      (patience fuel exs addr args : ℕ) → Command Task → World D → Result Outcome
  run_open patience fuel exs addr args cmd w = do
    w₁ ← do_call os addr args w
    h ← exception_handler os patience fuel (hook_clone_filter os) exs w₁
    open_child patience fuel cmd h

  -- `_closeCommandHandler`: it pushes a completion of its own, since it never returns.
  unfoldable pub run_close : ℕ → World D → Outcome
  run_close id w =
      let reply = set_result 0 command_ok (new_command id (close_task id)) in
      exited (record w {
        ve = os.cleanup w.ve;
        ctx = record w.ctx { state = state_exit; comq = push_completion reply w.ctx.comq };
      })

  unfoldable pub run_handler :
      (patience fuel exs : ℕ) → Task → Command Task → World D → Result Outcome
  run_handler patience fuel exs (call_task addr args) cmd w =
      run_call patience fuel exs addr args cmd w
  run_handler patience fuel exs (vh_task func arg) cmd w = ok (run_vh func arg cmd w)
  run_handler patience fuel exs (read_task dst src size) cmd w = ok (run_read dst src size cmd w)
  run_handler patience fuel exs (write_task dst src size) cmd w = ok (run_write dst src size cmd w)
  run_handler patience fuel exs (open_task addr args) cmd w =
      run_open patience fuel exs addr args cmd w
  run_handler patience fuel exs (close_task id) cmd w = ok (run_close id w)

  -- `(*command)()`.
  unfoldable pub run_task : (patience fuel exs : ℕ) → Command Task → World D → Result Outcome
  run_task patience fuel exs cmd w = run_handler patience fuel exs cmd.handler cmd w
