-- ===== src/Execution/Progress.antt =====
-- The event loop comes to its end.
use veoffload.Base.{
  ℕ, zero, suc, ◌≡◌, refl, ◌∙◌, ap, subst, inl, inr, Bool, true, false, Bool-cases, List, [], ◌∷◌,
  ok, ◌<◌, arith, length,
}
use veoffload.Queues.Blocking.{Command}
use veoffload.Context.State.{
  Task, call_task, vh_task, read_task, write_task, open_task, close_task, state_blocked,
}
use veoffload.Execution.Driver.{Driver, World}
use veoffload.Execution.Exceptions.{is_zero, is_blocked}
use veoffload.Execution.Handlers.{Outcome, finished, exited, run_task, run_handler}
use veoffload.Execution.Loop.{
  Turn, goes_on, waiting, returned, ended, conclude, event_turn, event_loop,
}
use veoffload.Execution.Turns.{requests, taken, event_turn_run, conclude_success, conclude_failure}
use veoffload.Execution.Order.{event_turn_idle, event_turn_left, is_blocked_iff}
use veoffload.Execution.Rounds.{IsStep, event_turn-IsStep, event_loop_step, rest_of}

-- The command runs on the VE, under the exception handler.
abbrev pub runs_ve : Task → Bool
runs_ve (call_task addr args) = true
runs_ve (vh_task func arg) = false
runs_ve (read_task dst src size) = false
runs_ve (write_task dst src size) = false
runs_ve (open_task addr args) = true
runs_ve (close_task id) = false

module _ {D : Type 0} (os : Driver D) where
  -- The commands that run without the exception handler.
  abbrev pub IsDirect : List (Command Task) → Type 0
  IsDirect [] = Unit {0}
  IsDirect (c ∷ cs) = (runs_ve c.handler ≡ false) × IsDirect cs

  run_handler-direct :
      (p f exs : ℕ) (t : Task) (cmd : Command Task) (w : World D)
      → runs_ve t ≡ false
      → (o : Outcome os) × (run_handler os p f exs t cmd w ≡ ok o)
  unfolding run_handler
  run_handler-direct p f exs (call_task addr args) cmd w e = absurd cc
  run_handler-direct p f exs (vh_task func arg) cmd w e = (_, refl)
  run_handler-direct p f exs (read_task dst src size) cmd w e = (_, refl)
  run_handler-direct p f exs (write_task dst src size) cmd w e = (_, refl)
  run_handler-direct p f exs (open_task addr args) cmd w e = absurd cc
  run_handler-direct p f exs (close_task id) cmd w e = (_, refl)

  run_task-direct :
      (p f exs : ℕ) (cmd : Command Task) (w : World D)
      → runs_ve cmd.handler ≡ false
      → (o : Outcome os) × (run_task os p f exs cmd w ≡ ok o)
  unfolding run_task
  run_task-direct p f exs cmd w e = run_handler-direct p f exs cmd.handler cmd w e

  conclude-total : (o : Outcome os) → (t : Turn os) × (conclude os o ≡ ok t)
  unfolding conclude
  conclude-total (finished rv cmd v) = elim (Bool-cases (is_zero rv)) [
    | inl z ↦ (_, conclude_success os rv cmd v z)
    | inr z ↦ (_, conclude_failure os rv cmd v z)
  ]
  conclude-total (exited v) = (_, refl)

  blocked-total :
      (p f exs : ℕ) (w : World D) (rs : List (Command Task))
      → w.ctx.state ≡ state_blocked
      → requests os w ≡ rs
      → IsDirect rs
      → (t : Turn os) × (event_turn os p f exs w ≡ ok t)
  blocked-total p f exs w [] blocked q direct = (_, event_turn_idle os p f exs w blocked q)
  blocked-total p f exs w (cmd ∷ rest) blocked q direct =
      let (o, ran) = run_task-direct p f exs cmd (taken os rest w) direct.0 in
      let (t, last) = conclude-total o in
      (t, event_turn_run os p f exs w cmd rest blocked q ∙ rw ran last)

  event_turn-total :
      (p f exs : ℕ) (w : World D)
      → IsDirect (requests os w)
      → (t : Turn os) × (event_turn os p f exs w ≡ ok t)
  event_turn-total p f exs w direct = elim (Bool-cases (is_blocked w.ctx.state)) [
    | inl b ↦ blocked-total p f exs w (requests os w) (is_blocked_iff w.ctx.state b) refl direct
    | inr b ↦ (_, event_turn_left os p f exs w b)
  ]

  rest_of-total :
      (p f exs rounds : ℕ) (w : World D) (u : Turn os)
      → IsStep os w u
      → IsDirect (requests os w)
      → length (requests os w) < suc rounds
      → ((v : World D)
          → IsDirect (requests os v)
          → length (requests os v) < rounds
          → (t : Turn os) × (event_loop os p f exs rounds v ≡ ok t))
      → (t : Turn os) × (rest_of os p f exs rounds u ≡ ok t)
  unfolding rest_of
  rest_of-total p f exs rounds w (goes_on v) (blocked, (c, q)) direct le rec =
      rec v (subst IsDirect q direct).1
        (let l : length (requests os w) ≡ suc (length (requests os v)) = ap length q in omega arith)
  rest_of-total p f exs rounds w (waiting v) step direct le rec = (_, refl)
  rest_of-total p f exs rounds w (returned v) step direct le rec = (_, refl)
  rest_of-total p f exs rounds w (ended v) step direct le rec = (_, refl)

  -- Where no request needs the exception handler, which is so of VH calls, memory transfers and
  -- `close`, the event loop comes to its end: it needs at most a round for each request and one more.
  pub event_loop-total :
      (p f exs rounds : ℕ) (w : World D)
      → IsDirect (requests os w)
      → length (requests os w) < rounds
      → (t : Turn os) × (event_loop os p f exs rounds w ≡ ok t)
  event_loop-total p f exs zero w direct le = absurd (omega arith)
  event_loop-total p f exs (suc rounds) w direct le =
      let (u, turned) = event_turn-total p f exs w direct in
      let (t, last) =
        rest_of-total p f exs rounds w u (event_turn-IsStep os p f exs w u turned) direct le
          (event_loop-total p f exs rounds) in
      (t, event_loop_step os p f exs rounds w ∙ rw turned last)
