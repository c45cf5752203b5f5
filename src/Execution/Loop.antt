-- ===== src/Execution/Loop.antt =====
-- `eventLoop`: how the pseudo thread takes the commands from the request queue.
use veoffload.Base.{ℕ, zero, suc, true, false, none, some, Result, ok, err, out_of_fuel, ◌>>=◌}
use veoffload.Queues.Blocking.{Command, queue_closed}
use veoffload.Queues.Comm.{
  CommQueue, pop_request, push_completion, set_request_status, set_completion,
}
use veoffload.Context.State.{Task, state_exit}
use veoffload.Execution.Driver.{Driver, World}
use veoffload.Execution.Exceptions.{is_zero, is_blocked}
use veoffload.Execution.Handlers.{Outcome, finished, exited, run_task}

module _ {D : Type 0} (os : Driver D) where
  -- How a round of the loop ends: it goes on; it waits for a request; it returns, since the state is
  -- not BLOCKED or since a command failed; or the thread ended in the command.
  pub data Turn : Type 0 where
    goes_on : World D → Turn
    waiting : World D → Turn
    returned : World D → Turn
    ended : World D → Turn

  abbrev pub with_comq : CommQueue Task → World D → World D
  with_comq q w = record w { ctx = record w.ctx { comq = q } }

  -- A command with a status other than 0.
  unfoldable pub stop : Command Task → World D → Result Turn
  stop cmd w =
      elim (set_completion (push_completion cmd (set_request_status queue_closed w.ctx.comq))) [
        | none ↦ err out_of_fuel
        | some q ↦ ok (returned (record w { ctx = record w.ctx { state = state_exit; comq = q } }))
      ]

  -- What follows a command.
  unfoldable pub conclude : Outcome os → Result Turn
  conclude (finished rv cmd w) = elim (is_zero rv) [
    | true ↦ ok (goes_on (with_comq (push_completion cmd w.ctx.comq) w))
    | false ↦ stop cmd w
  ]
  conclude (exited w) = ok (ended w)

  unfoldable pub event_turn : (patience fuel exs : ℕ) → World D → Result Turn
  event_turn patience fuel exs w = elim (is_blocked w.ctx.state) [
    | false ↦ ok (returned w)
    | true ↦ elim (pop_request w.ctx.comq) [
      | none ↦ ok (waiting w)
      | some (cmd, q) ↦ (do o ← run_task os patience fuel exs cmd (with_comq q w); conclude o)
    ]
  ]

  -- The loop, on fuel for its rounds, as long as no client pushes.
  unfoldable pub event_loop : (patience fuel exs rounds : ℕ) → World D → Result Turn
  event_loop patience fuel exs zero w = err out_of_fuel
  event_loop patience fuel exs (suc rounds) w = do
    t ← event_turn patience fuel exs w
    elim t [
      | goes_on w' ↦ event_loop patience fuel exs rounds w'
      | waiting w' ↦ ok (waiting w')
      | returned w' ↦ ok (returned w')
      | ended w' ↦ ok (ended w')
    ]
