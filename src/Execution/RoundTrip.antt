-- ===== src/Execution/RoundTrip.antt =====
-- A request from the client's call to its result: through the request queue, the handler, and the
-- completion queue.
use veoffload.Base.{
  ℕ, ◌^◌, ◌<◌, ◌≡◌, ◌≢◌, refl, ap, ◌∙◌, false, true, some, [], ◌∷◌, ◌++◌, arith, ◌==◌, pos, ok,
  eqb_refl,
}
use veoffload.Queues.Blocking.{Command, new_command, set_result, command_ok, queue_ready, push}
use veoffload.Queues.Comm.{push_request, push_completion}
use veoffload.Queues.Find.{Absent}
use veoffload.Context.State.{Context, Task, vh_task, state_blocked, is_exit, contains}
use veoffload.Context.Requests.{call_vh_async, push_anyway}
use veoffload.Context.Results.{answered, call_wait_result}
use veoffload.Context.Issue.{next_id, issued, issue_issued, requested, contains-insert}
use veoffload.Context.Answers.{claimed, wait-completed}
use veoffload.Execution.Driver.{Driver, World}
use veoffload.Execution.Handlers.{run_task, run_handler, run_vh}
use veoffload.Execution.Loop.{goes_on, event_turn}
use veoffload.Execution.Turns.{
  requests, completions, taken, succeeded, event_turn_run, conclude_success,
}

module _ {D : Type 0} (os : Driver D) where
  call_vh_async_open :
      (ctx : Context) (func arg : ℕ)
      → ctx.seq_no < 2 ^ 64
      → is_exit ctx.state ≡ false
      → func ≢ 0
      → ctx.comq.request.status ≡ queue_ready
      → call_vh_async func arg ctx ≡ some (next_id ctx.seq_no, requested (vh_task func arg) ctx)
  unfolding call_vh_async push_anyway push_request push
  call_vh_async_open ctx func arg h alive nonzero is_open =
      let test : (func == 0) ≡ false = ground arith in
      rw (test, alive, issue_issued ctx h, call_vh_async, is_open)

  -- The command that `callVHAsync` pushes.
  abbrev pub vh_command : World D → ℕ → ℕ → Command Task
  vh_command w func arg = new_command (next_id w.ctx.seq_no) (vh_task func arg)

  abbrev pub called : World D → ℕ → ℕ → World D
  called w func arg = record w { ctx = requested (vh_task func arg) w.ctx }

  -- The world after the function, before the completion.
  abbrev pub ran : World D → ℕ → ℕ → World D
  ran w func arg = record (taken os [] (called w func arg)) {
    vh = (os.vh_function func arg w.vh).1;
  }

  vh_turn :
      (p f exs : ℕ) (w : World D) (func arg : ℕ)
      → w.ctx.state ≡ state_blocked
      → requests os w ≡ []
      → event_turn os p f exs (called w func arg)
        ≡ ok (
            goes_on (
              succeeded os
                (set_result ((os.vh_function func arg w.vh).0) command_ok (vh_command w func arg))
                (ran w func arg)))
  unfolding run_task run_handler run_vh
  vh_turn p f exs w func arg blocked is_empty =
      event_turn_run os p f exs (called w func arg) (vh_command w func arg) [] blocked
        (ap (λ rs. rs ++ vh_command w func arg ∷ []) is_empty)
      ∙ conclude_success os (pos 0)
          (set_result ((os.vh_function func arg w.vh).0) command_ok (vh_command w func arg))
          (ran w func arg) refl

  -- On a BLOCKED context with an open, empty request queue and no completion under the next ID:
  -- `callVHAsync` returns that ID, the event loop then takes one round and goes on, and
  -- `callWaitResult` for the ID returns `VEO_COMMAND_OK` and stores what the VH function returned for
  -- the argument. The function has run once, on the memory of the time of the call.
  pub call_vh_async-wait :
      (p f exs : ℕ) (w : World D) (func arg : ℕ)
      → w.ctx.seq_no < 2 ^ 64
      → w.ctx.state ≡ state_blocked
      → func ≢ 0
      → w.ctx.comq.request.status ≡ queue_ready
      → requests os w ≡ []
      → Absent (next_id w.ctx.seq_no) (completions os w)
      → (id : ℕ) × (ctx : Context) × (w' : World D) × (ctx' : Context) × (call_vh_async func arg
            w.ctx
          ≡ some (id, ctx))
        × (event_turn os p f exs (record w { ctx = ctx }) ≡ ok (goes_on w'))
        × (w'.vh ≡ (os.vh_function func arg w.vh).1)
        × (call_wait_result id w'.ctx
            ≡ ok (answered command_ok (some ((os.vh_function func arg w.vh).0)) ctx'))
  unfolding push_completion push
  call_vh_async-wait p f exs w func arg h blocked nonzero is_open is_empty absent =
      let id = next_id w.ctx.seq_no in
      let value = (os.vh_function func arg w.vh).0 in
      let listed : contains id (issued w.ctx).rem_reqid ≡ true =
        contains-insert id id w.ctx.rem_reqid ∙ rw (eqb_refl id) in
      (
        id,
        requested (vh_task func arg) w.ctx,
        succeeded os (set_result value command_ok (vh_command w func arg)) (ran w func arg),
        claimed id (ran w func arg).ctx,
        call_vh_async_open w.ctx func arg h (ap is_exit blocked) nonzero is_open,
        vh_turn p f exs w func arg blocked is_empty,
        refl,
        (wait-completed (ran w func arg).ctx (vh_command w func arg) value command_ok listed
            absent).0,
      )
