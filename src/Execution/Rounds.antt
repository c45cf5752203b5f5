-- ===== src/Execution/Rounds.antt =====
-- The rounds of the event loop put together: it completes the requests in their order, and loses none.
use veoffload.Base.{
  ℕ, zero, suc, ◌≡◌, refl, sym, ◌∙◌, ap, subst, inl, inr, true, false, Bool-cases, List, [], ◌∷◌,
  Result, ok, ok_inj, bind-ok, ◌>>=◌,
}
use veoffload.Queues.Blocking.{Command}
use veoffload.Context.State.{Task, state_blocked}
use veoffload.Execution.Driver.{Driver, World}
use veoffload.Execution.Exceptions.{is_zero, is_blocked}
use veoffload.Execution.Handlers.{Outcome, finished, exited, run_task}
use veoffload.Execution.Ends.{Done}
use veoffload.Execution.Tasks.{run_task-Done}
use veoffload.Execution.Loop.{
  Turn, goes_on, waiting, returned, ended, conclude, event_turn, event_loop,
}
use veoffload.Execution.Turns.{
  requests, taken, event_turn_run, failed, conclude_success, conclude_failure,
}
use veoffload.Execution.Order.{
  IsOwn, known, end_world, Conserved, event_turn-Conserved, event_turn_idle, event_turn_left,
  is_blocked_iff,
}

module _ {D : Type 0} (os : Driver D) where
  -- How a round leaves the loop, or shortens its request queue.
  abbrev pub IsStep : World D → Turn os → Type 0
  IsStep w (goes_on w') =
      (w'.ctx.state ≡ state_blocked) × ((c : Command Task) × (requests os w ≡ c ∷ requests os w'))
  IsStep w (waiting w') = requests os w' ≡ []
  IsStep w (returned w') = is_blocked w'.ctx.state ≡ false
  IsStep w (ended w') = is_blocked w'.ctx.state ≡ false

  -- The loop waits with no request left, or was left with a state other than BLOCKED.
  abbrev pub IsEnd : Turn os → Type 0
  IsEnd (goes_on w) = true ≡ false
  IsEnd (waiting w) = requests os w ≡ []
  IsEnd (returned w) = is_blocked w.ctx.state ≡ false
  IsEnd (ended w) = is_blocked w.ctx.state ≡ false

  conclude-IsStep :
      (w : World D) (cmd : Command Task) (rest : List (Command Task)) (o : Outcome os) (t : Turn os)
      → w.ctx.state ≡ state_blocked
      → requests os w ≡ cmd ∷ rest
      → Done os cmd (taken os rest w) o
      → conclude os o ≡ ok t
      → IsStep w t
  unfolding conclude
  conclude-IsStep w cmd rest (finished rv cmd' v) t blocked q (m, result, (c, r, n, main), state)
        e =
      elim (Bool-cases (is_zero rv)) [
        | inl z ↦ subst (IsStep w) (ok_inj (sym (conclude_success os rv cmd' v z) ∙ e)) (
          elim state [ inl failed ↦ absurd cc | inr still ↦ still ],
          (cmd, q ∙ ap (λ k. cmd ∷ k.request.queue) (sym c)),
        )
        | inr z ↦ subst (IsStep w) (ok_inj (sym (conclude_failure os rv cmd' v z) ∙ e)) refl
      ]
  conclude-IsStep w cmd rest (exited v) t blocked q (id, h, c) e =
      subst (IsStep w) (ok_inj e) (ap (λ k. is_blocked k.state) c)

  blocked-IsStep :
      (p f exs : ℕ) (w : World D) (t : Turn os) (rs : List (Command Task))
      → w.ctx.state ≡ state_blocked
      → requests os w ≡ rs
      → event_turn os p f exs w ≡ ok t
      → IsStep w t
  blocked-IsStep p f exs w t [] blocked q e =
      subst (IsStep w) (ok_inj (sym (event_turn_idle os p f exs w blocked q) ∙ e)) q
  blocked-IsStep p f exs w t (cmd ∷ rest) blocked q e =
      let (o, ran, last) =
        bind-ok (run_task os p f exs cmd (taken os rest w)) (conclude os) t
          (sym (event_turn_run os p f exs w cmd rest blocked q) ∙ e) in
      conclude-IsStep w cmd rest o t blocked q
        (run_task-Done os p f exs cmd (taken os rest w) o blocked ran) last

  pub event_turn-IsStep :
      (p f exs : ℕ) (w : World D) (t : Turn os) → event_turn os p f exs w ≡ ok t → IsStep w t
  event_turn-IsStep p f exs w t e = elim (Bool-cases (is_blocked w.ctx.state)) [
    | inl b ↦ blocked-IsStep p f exs w t (requests os w) (is_blocked_iff w.ctx.state b) refl e
    | inr b ↦ subst (IsStep w) (ok_inj (sym (event_turn_left os p f exs w b) ∙ e)) b
  ]

  -- The loop after its first round.
  unfoldable pub rest_of : (p f exs rounds : ℕ) → Turn os → Result (Turn os)
  rest_of p f exs rounds (goes_on w) = event_loop os p f exs rounds w
  rest_of p f exs rounds (waiting w) = ok (waiting w)
  rest_of p f exs rounds (returned w) = ok (returned w)
  rest_of p f exs rounds (ended w) = ok (ended w)

  pub event_loop_step :
      (p f exs rounds : ℕ) (w : World D)
      → event_loop os p f exs (suc rounds) w ≡ (event_turn os p f exs w >>= rest_of p f exs rounds)
  unfolding event_loop rest_of
  event_loop_step p f exs rounds w = refl

  -- The IDs of both queues, the completed ones first, are the same in the same order.
  abbrev IsRun : World D → Turn os → Type 0
  IsRun w t = (known os (end_world os t) ≡ known os w) × IsEnd t

  rest_of-IsRun :
      (p f exs rounds : ℕ) (w : World D) (u t : Turn os)
      → IsStep w u
      → Conserved os w (end_world os u)
      → rest_of p f exs rounds u ≡ ok t
      → ((v : World D) → IsOwn (requests os v) → event_loop os p f exs rounds v ≡ ok t → IsRun v t)
      → IsRun w t
  unfolding rest_of
  rest_of-IsRun p f exs rounds w (goes_on v) t step (k, own) e rec =
      let (k', finish) = rec v own e in (k' ∙ k, finish)
  rest_of-IsRun p f exs rounds w (waiting v) t step (k, own) e rec =
      subst (IsRun w) (ok_inj e) (k, step)
  rest_of-IsRun p f exs rounds w (returned v) t step (k, own) e rec =
      subst (IsRun w) (ok_inj e) (k, step)
  rest_of-IsRun p f exs rounds w (ended v) t step (k, own) e rec =
      subst (IsRun w) (ok_inj e) (k, step)

  -- Whatever the commands do, the event loop loses no request and changes no order: where it returns,
  -- waits or ends its thread, the message IDs of the completions followed by those of the requests left
  -- are what they were at its start, if every `close` handler was made for the ID of its command. It
  -- waits only where no request is left, and is left otherwise only with a state other than BLOCKED.
  pub event_loop-order :
      (p f exs rounds : ℕ) (w : World D) (t : Turn os)
      → IsOwn (requests os w)
      → event_loop os p f exs rounds w ≡ ok t
      → (known os (end_world os t) ≡ known os w) × IsEnd t
  unfolding event_loop
  event_loop-order p f exs zero w t own e = cc
  event_loop-order p f exs (suc rounds) w t own e =
      let (u, turned, last) =
        bind-ok (event_turn os p f exs w) (rest_of p f exs rounds) t
          (sym (event_loop_step p f exs rounds w) ∙ e) in
      rest_of-IsRun p f exs rounds w u t (event_turn-IsStep p f exs w u turned)
        (event_turn-Conserved os p f exs w u own turned) last
        (λ v own'. event_loop-order p f exs rounds v t own')
