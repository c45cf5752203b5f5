-- ===== src/Composed/Simulated.antt =====
-- The event loop of `Execution.Loop` as a run of the pseudo thread of `Threads` in which no client
-- moves.
use veoffload.Base.{
  ℕ, zero, suc, ◌≡◌, refl, sym, ◌∙◌, ap, subst, inl, inr, true, false, Bool-cases, List, [], ◌∷◌,
  ok, ok_inj, bind-ok,
}
use veoffload.Queues.Blocking.{Command}
use veoffload.Context.State.{Task, state_blocked}
use veoffload.Execution.Driver.{Driver, World}
use veoffload.Execution.Exceptions.{is_zero, is_blocked}
use veoffload.Execution.Handlers.{Outcome, finished, exited, run_task}
use veoffload.Execution.Ends.{Done}
use veoffload.Execution.Tasks.{run_task-Done}
use veoffload.Execution.Loop.{
  Turn, goes_on, waiting, returned, ended, conclude, event_turn, event_loop,
}
use veoffload.Execution.Turns.{requests, taken, event_turn_run, conclude_success, conclude_failure}
use veoffload.Execution.Order.{
  IsOwn, end_world, event_turn_idle, event_turn_left, is_blocked_iff, event_turn-Conserved,
}
use veoffload.Execution.Rounds.{event_loop_step, rest_of}
use veoffload.Threads.Moves.{Pseudo, at_test, popping, running, enter, leave}
use veoffload.Threads.System.{System, Reach, later, pseudo}
use veoffload.Composed.Interleaved.{
  moved, close_moves, take_moves, context_lem, success_moves, failure_moves,
}

module _ {D : Type 0} (os : Driver D) where
  -- Where the pseudo thread stands after a round: at the test, in `popRequest`, or at its end.
  abbrev pub place : Turn os → Pseudo
  place (goes_on w) = at_test
  place (waiting w) = popping
  place (returned w) = Pseudo.finished
  place (ended w) = Pseudo.finished

  module _ (n : ℕ) (s : System) where
    -- The system is reached in which the pseudo thread alone has moved, up to the end of the round.
    abbrev pub Ends : Turn os → Type 0
    Ends t = (ids : List ℕ) × Reach n (moved s (end_world os t).ctx ids (place t))

    conclude-Ends :
        (w : World D) (cmd : Command Task) (rest : List (Command Task)) (ids : List ℕ)
        (o : Outcome os) (t : Turn os)
        → IsOwn (cmd ∷ rest)
        → Done os cmd (taken os rest w) o
        → conclude os o ≡ ok t
        → Reach n (moved s (taken os rest w).ctx ids (running cmd))
        → Ends t
    unfolding conclude
    conclude-Ends w cmd rest ids (finished rv cmd' v) t own (m, (x, st, set), quiet, state) e r =
        let c = context_lem n s os (taken os rest w) v quiet in
        elim (Bool-cases (is_zero rv)) [
          | inl z ↦
              let still : v.ctx.state ≡ state_blocked = elim state [
                | inl bad ↦ absurd cc
                | inr still ↦ still
              ] in
              subst Ends (ok_inj (sym (conclude_success os rv cmd' v z) ∙ e))
                (ids, rw set (success_moves n s os (taken os rest w) v cmd x st ids c still r))
          | inr z ↦
              subst Ends (ok_inj (sym (conclude_failure os rv cmd' v z) ∙ e))
                (rw set (failure_moves n s os (taken os rest w) v cmd x st ids c r))
        ]
    conclude-Ends w cmd rest ids (exited v) t own (id, h, c) e r = subst Ends (ok_inj e) (
      ids,
      subst (λ k. Reach n (moved s k ids Pseudo.finished)) (sym c)
          (close_moves n s (taken os rest w).ctx cmd id v.ctx.ve_sp ids h (own.0 id h) r),
    )

    blocked-Ends :
        (p f exs : ℕ) (w : World D) (t : Turn os) (rs : List (Command Task)) (ids : List ℕ)
        → w.ctx.state ≡ state_blocked
        → requests os w ≡ rs
        → IsOwn rs
        → event_turn os p f exs w ≡ ok t
        → Reach n (moved s w.ctx ids at_test)
        → Ends t
    blocked-Ends p f exs w t [] ids blocked q own e r =
        subst Ends (ok_inj (sym (event_turn_idle os p f exs w blocked q) ∙ e))
          (ids, later r (pseudo (enter blocked)))
    blocked-Ends p f exs w t (cmd ∷ rest) ids blocked q own e r =
        let (o, ran, last) =
          bind-ok (run_task os p f exs cmd (taken os rest w)) (conclude os) t
            (sym (event_turn_run os p f exs w cmd rest blocked q) ∙ e) in
        conclude-Ends w cmd rest _ o t own
          (run_task-Done os p f exs cmd (taken os rest w) o blocked ran) last
          (take_moves n s os w cmd rest ids blocked q r)

    event_turn-Ends :
        (p f exs : ℕ) (w : World D) (t : Turn os) (ids : List ℕ)
        → IsOwn (requests os w)
        → event_turn os p f exs w ≡ ok t
        → Reach n (moved s w.ctx ids at_test)
        → Ends t
    event_turn-Ends p f exs w t ids own e r = elim (Bool-cases (is_blocked w.ctx.state)) [
      | inl b ↦
          blocked-Ends p f exs w t (requests os w) ids (is_blocked_iff w.ctx.state b) refl own e r
      | inr b ↦ subst Ends (ok_inj (sym (event_turn_left os p f exs w b) ∙ e)) (
        ids,
        later r (
            pseudo
              (leave (λ blocked. let no : true ≡ false = sym (ap is_blocked blocked) ∙ b in cc))),
      )
    ]

    rest_of-Ends :
        (p f exs rounds : ℕ) (u t : Turn os)
        → IsOwn (requests os (end_world os u))
        → rest_of os p f exs rounds u ≡ ok t
        → ((v : World D) (ids : List ℕ)
            → IsOwn (requests os v)
            → event_loop os p f exs rounds v ≡ ok t
            → Reach n (moved s v.ctx ids at_test)
            → Ends t)
        → Ends u
        → Ends t
    unfolding rest_of
    rest_of-Ends p f exs rounds (goes_on v) t own e rec (ids, r) = rec v ids own e r
    rest_of-Ends p f exs rounds (waiting v) t own e rec r = subst Ends (ok_inj e) r
    rest_of-Ends p f exs rounds (returned v) t own e rec r = subst Ends (ok_inj e) r
    rest_of-Ends p f exs rounds (ended v) t own e rec r = subst Ends (ok_inj e) r

    pub loop-Ends :
        (p f exs rounds : ℕ) (w : World D) (t : Turn os) (ids : List ℕ)
        → IsOwn (requests os w)
        → event_loop os p f exs rounds w ≡ ok t
        → Reach n (moved s w.ctx ids at_test)
        → Ends t
    unfolding event_loop
    loop-Ends p f exs zero w t ids own e r = cc
    loop-Ends p f exs (suc rounds) w t ids own e r =
        let (u, turned, last) =
          bind-ok (event_turn os p f exs w) (rest_of os p f exs rounds) t
            (sym (event_loop_step os p f exs rounds w) ∙ e) in
        rest_of-Ends p f exs rounds u t (event_turn-Conserved os p f exs w u own turned).1 last
          (λ v ids' own'. loop-Ends p f exs rounds v t ids' own')
          (event_turn-Ends p f exs w u ids own turned r)

  -- In a reachable system of clients and pseudo thread, where the pseudo thread stands at the test of
  -- the loop, every `close` handler in the request queue was made for the ID of its command, and the
  -- event loop runs on the context of the system to its end `t`: a system is reachable with the context
  -- that the loop leaves, in which no client and none of the IDs pushed, refused and handed out have
  -- changed, and in which the pseudo thread waits in `popRequest` where the loop does, and has ended
  -- where it returns or ends its thread.
  pub event_loop-Reach :
      (p f exs rounds n : ℕ) (w : World D) (s : System) (t : Turn os)
      → Reach n s
      → s.pseudo ≡ at_test
      → s.shared.ctx ≡ w.ctx
      → IsOwn (requests os w)
      → event_loop os p f exs rounds w ≡ ok t
      → (ids : List ℕ) × Reach n (record s {
        shared = record s.shared { ctx = (end_world os t).ctx; taken = ids };
        pseudo = place t;
      })
  event_loop-Reach p f exs rounds n w s t r at same own e =
      loop-Ends n s p f exs rounds w t s.shared.taken own e
        (subst (Reach n) (let at' = at in rw (← same, ← at) refl) r)
