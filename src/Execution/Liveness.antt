-- ===== src/Execution/Liveness.antt =====
-- A request that is outstanding is answered once the pseudo thread has taken the queue.
use veoffload.Base.{
  ℕ, zero, suc, ◌<◌, ◌≡◌, refl, sym, ◌∙◌, ap, subst, inl, inr, true, false, Bool-cases, List, [],
  ◌∷◌, ◌++◌, length, some, ok, ok_inj, bind-ok, ◌==◌, append-nil,
}
use veoffload.Queues.Blocking.{Command, CommandStatus, find, try_find}
use veoffload.Queues.Comm.{wait_completion}
use veoffload.Context.State.{Context, Task, state_blocked, contains, erase}
use veoffload.Context.Results.{answered, answer, call_wait_result, finish_wait}
use veoffload.Context.Answers.{erase-count}
use veoffload.Execution.Driver.{Driver, World}
use veoffload.Execution.Loop.{Turn, goes_on, waiting, returned, ended, event_turn, event_loop}
use veoffload.Execution.Turns.{requests, completions}
use veoffload.Execution.Order.{IsOwn, ids, end_world}
use veoffload.Execution.Rounds.{rest_of, event_loop_step, event_loop-order}
use veoffload.Execution.Progress.{IsDirect, event_loop-total}
use veoffload.Execution.Answered.{
  is_close, NoClose, HasResult, AllResults, Leaves, event_turn-Leaves,
}

NoClose-IsOwn : (cs : List (Command Task)) → NoClose cs → IsOwn cs
NoClose-IsOwn [] h = tt
NoClose-IsOwn (c ∷ cs) h =
    (λ id e. absurd (let b : true ≡ false = sym (ap is_close e) ∙ h.0 in cc), NoClose-IsOwn cs h.1)

-- A command that is in the list is found, with its result.
find-AllResults :
    (id : ℕ) (cs : List (Command Task))
    → AllResults cs
    → contains id (ids cs) ≡ true
    → (c : Command Task) × (others : List (Command Task)) × (find id cs ≡ some (c, others))
      × HasResult c
unfolding find contains
find-AllResults id [] all h = absurd cc
find-AllResults id (c ∷ cs) all h = elim (Bool-cases (c.msgid == id)) [
  | inl hit ↦ (c, cs, rw hit refl, all.0)
  | inr miss ↦
      let (d, others, found, result) = find-AllResults id cs all.1 (rw miss at h) in
      (d, c ∷ others, rw (miss, found) refl, result)
]

contains-append : (id : ℕ) (xs ys : List ℕ) → contains id ys ≡ true → contains id (xs ++ ys) ≡ true
unfolding contains
contains-append id [] ys h = h
contains-append id (x ∷ xs) ys h = elim (Bool-cases (x == id)) [
  | inl hit ↦ rw hit refl
  | inr miss ↦ rw miss (contains-append id xs ys h)
]

answer_lem :
    (c : Command Task) (ctx : Context) (r : ℕ) (s : CommandStatus)
    → c.result ≡ some (r, s)
    → answer c ctx ≡ ok (answered s (some r) ctx)
unfolding answer
answer_lem c ctx r s e = rw (e, answer) refl

-- An outstanding ID that is among the completions is answered.
wait-found :
    (id : ℕ) (ctx : Context)
    → contains id ctx.rem_reqid ≡ true
    → contains id (ids ctx.comq.completion.queue) ≡ true
    → AllResults ctx.comq.completion.queue
    → (s : CommandStatus) × (r : ℕ) × (ctx' : Context) × (call_wait_result id ctx
        ≡ ok (answered s (some r) ctx'))
unfolding call_wait_result finish_wait wait_completion try_find
wait-found id ctx out listed all =
    let (c, others, found, (r, s, result)) =
      find-AllResults id ctx.comq.completion.queue all listed in
    (
      s,
      r,
      record ctx {
        rem_reqid = (erase id ctx.rem_reqid).1;
        comq = record ctx.comq { completion = record ctx.comq.completion { queue = others } };
      },
      rw (out, erase-count id ctx.rem_reqid out, found, finish_wait, wait_completion, try_find)
          (answer_lem c _ r s result),
    )

module _ {D : Type 0} (os : Driver D) where
  -- The end of the loop: every request was taken.
  abbrev Emptied : List ℕ → World D → Type 0
  Emptied rem w = (requests os w ≡ []) × AllResults (completions os w) × (w.ctx.rem_reqid ≡ rem)

  rest_of-Emptied :
      (p f exs rounds : ℕ) (rem : List ℕ) (u t : Turn os)
      → Leaves os rem u
      → rest_of os p f exs rounds u ≡ ok t
      → ((v : World D)
          → v.ctx.state ≡ state_blocked
          → AllResults (completions os v)
          → NoClose (requests os v)
          → event_loop os p f exs rounds v ≡ ok t
          → Emptied v.ctx.rem_reqid (end_world os t))
      → Emptied rem (end_world os t)
  unfolding rest_of
  rest_of-Emptied p f exs rounds rem (goes_on v) t (blocked, all, opened, r) e rec =
      subst (λ rem. Emptied rem (end_world os t)) r (rec v blocked all opened e)
  rest_of-Emptied p f exs rounds rem (waiting v) t leaves e rec =
      subst (λ t. Emptied rem (end_world os t)) (ok_inj e) leaves
  rest_of-Emptied p f exs rounds rem (returned v) t leaves e rec =
      subst (λ t. Emptied rem (end_world os t)) (ok_inj e) leaves
  rest_of-Emptied p f exs rounds rem (ended v) t leaves e rec = absurd cc

  event_loop-Emptied :
      (p f exs rounds : ℕ) (w : World D) (t : Turn os)
      → w.ctx.state ≡ state_blocked
      → AllResults (completions os w)
      → NoClose (requests os w)
      → event_loop os p f exs rounds w ≡ ok t
      → Emptied w.ctx.rem_reqid (end_world os t)
  unfolding event_loop
  event_loop-Emptied p f exs zero w t blocked all opened e = absurd cc
  event_loop-Emptied p f exs (suc rounds) w t blocked all opened e =
      let (u, turned, last) =
        bind-ok (event_turn os p f exs w) (rest_of os p f exs rounds) t
          (sym (event_loop_step os p f exs rounds w) ∙ e) in
      rest_of-Emptied p f exs rounds w.ctx.rem_reqid u t
        (event_turn-Leaves os p f exs w u (requests os w) blocked refl all opened turned) last
        (λ v b a n. event_loop-Emptied p f exs rounds v t b a n)

  -- Where the pseudo thread is BLOCKED, every completion has a result, and no request is a call, the
  -- opening of a context or a `close`: the event loop comes to its end within a round for each request
  -- and one more, and `callWaitResult` then answers every outstanding ID that one of the requests had,
  -- with a status and a stored value. This holds too where a request fails on the way.
  pub requests_answered :
      (p f exs rounds : ℕ) (w : World D) (id : ℕ)
      → w.ctx.state ≡ state_blocked
      → AllResults (completions os w)
      → NoClose (requests os w)
      → IsDirect os (requests os w)
      → length (requests os w) < rounds
      → contains id w.ctx.rem_reqid ≡ true
      → contains id (ids (requests os w)) ≡ true
      → (t : Turn os) × (event_loop os p f exs rounds w ≡ ok t)
        × ((s : CommandStatus) × (r : ℕ) × (ctx : Context) × (call_wait_result id
                (end_world os t).ctx
              ≡ ok (answered s (some r) ctx)))
  requests_answered p f exs rounds w id blocked all opened direct le out pending =
      let (t, finished) = event_loop-total os p f exs rounds w direct le in
      let (q, all', rem) = event_loop-Emptied p f exs rounds w t blocked all opened finished in
      let (order, last) =
        event_loop-order os p f exs rounds w t (NoClose-IsOwn (requests os w) opened) finished in
      let listed : contains id (ids (completions os (end_world os t))) ≡ true =
        subst (λ is. contains id is ≡ true)
          (sym order
            ∙ ap (λ rs. ids (completions os (end_world os t)) ++ ids rs) q
            ∙ append-nil (ids (completions os (end_world os t))))
          (contains-append id (ids (completions os w)) (ids (requests os w)) pending) in
      (
        t,
        finished,
        wait-found id (end_world os t).ctx (subst (λ is. contains id is ≡ true) (sym rem) out)
            listed all',
      )
