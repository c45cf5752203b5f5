-- ===== src/Composed/Interleaved.antt =====
-- The event loop, which `Execution.Loop` runs as long as no client pushes, among the interleavings of
-- `Threads`: the moves that the pseudo thread makes in one round.
use veoffload.Base.{
  ℕ, ◌≡◌, refl, sym, ◌∙◌, ap, subst, List, [], ◌∷◌, ◌++◌, map, append_assoc, append-nil,
}
use veoffload.Queues.Blocking.{
  Command, CommandStatus, command_ok, new_command, set_result, queue_closed, push, pop, set_status,
}
use veoffload.Queues.Comm.{pop_request, push_completion, set_request_status}
use veoffload.Queues.Drain.{unfinished}
use veoffload.Context.State.{Context, Task, close_task, state_blocked, state_exit}
use veoffload.Execution.Driver.{Driver, World}
use veoffload.Execution.Ends.{Quiet}
use veoffload.Execution.Turns.{requests, completions, taken, succeeded, failed, pop_request_lem}
use veoffload.Threads.Moves.{
  Pseudo, at_test, running, draining, finished, enter, pop_one, work, succeed, fail, close_queue,
  report, drain_one, drained, close_begin, close_end,
}
use veoffload.Threads.System.{System, Reach, later, pseudo}

-- A system in which the pseudo thread stands elsewhere, with another context and other IDs taken.
abbrev pub moved : System → Context → List ℕ → Pseudo → System
moved s c ids p = record s { shared = record s.shared { ctx = c; taken = ids }; pseudo = p }

-- The context with given queues, where the request queue is closed.
abbrev closed_context : Context → List (Command Task) → List (Command Task) → Context
closed_context c rs cs = record c {
  comq = record {
    request = record { queue = rs; status = queue_closed };
    completion = record c.comq.completion { queue = cs };
  };
}

module _ (n : ℕ) (s : System) where
  -- `setCompletion`, a request at a time.
  drain_moves :
      (c : Context) (rs cs : List (Command Task)) (ids : List ℕ)
      → Reach n (moved s (closed_context c rs cs) ids draining)
      → (ids' : List ℕ) × Reach n
          (moved s (closed_context c [] (cs ++ map unfinished rs)) ids' finished)
  unfolding pop_request pop push_completion push
  drain_moves c [] cs ids r = (
    ids,
    subst (λ ds. Reach n (moved s (closed_context c [] ds) ids finished)) (sym (append-nil cs))
        (later r (pseudo (drained refl))),
  )
  drain_moves c (d ∷ rs) cs ids r =
      let (ids', r') =
        drain_moves c rs (cs ++ unfinished d ∷ []) (ids ++ d.msgid ∷ [])
          (later r (pseudo (drain_one refl))) in
      (
        ids',
        subst (λ ds. Reach n (moved s (closed_context c [] ds) ids' finished))
            (append_assoc cs (unfinished d ∷ []) (map unfinished rs)) r',
      )

  -- The command of a close, which is answered under its own ID.
  pub close_moves :
      (c : Context) (cmd : Command Task) (id sp : ℕ) (ids : List ℕ)
      → cmd.handler ≡ close_task id
      → cmd.msgid ≡ id
      → Reach n (moved s c ids (running cmd))
      → Reach n (
          moved s
            (record c {
              state = state_exit;
              ve_sp = sp;
              comq =
                  push_completion (set_result 0 command_ok (new_command id (close_task id))) c.comq;
            })
            ids
            finished)
  close_moves c cmd id sp ids h m r =
      let r₁ = later r (pseudo (work state_blocked sp refl)) in
      let it : cmd ≡ record { msgid = id; handler = close_task id; result = cmd.result } =
        rw (← h, ← m) refl in
      let r₂ =
        subst
          (λ k. Reach n (moved s (record c { state = state_blocked; ve_sp = sp }) ids (running k)))
          it r₁ in
      later (later r₂ (pseudo close_begin)) (pseudo close_end)

  module _ {D : Type 0} (os : Driver D) where
    pub take_moves :
        (w : World D) (cmd : Command Task) (rest : List (Command Task)) (ids : List ℕ)
        → w.ctx.state ≡ state_blocked
        → requests os w ≡ cmd ∷ rest
        → Reach n (moved s w.ctx ids at_test)
        → Reach n (moved s (taken os rest w).ctx (ids ++ cmd.msgid ∷ []) (running cmd))
    take_moves w cmd rest ids blocked q r =
        later (later r (pseudo (enter blocked)))
          (pseudo (pop_one (pop_request_lem os w.ctx.comq cmd rest q)))

    pub context_lem :
        (u v : World D)
        → Quiet os u v
        → v.ctx ≡ record u.ctx { state = v.ctx.state; ve_sp = v.ctx.ve_sp }
    context_lem u v (c, r, i, m) = rw (← c, ← r, ← i, ← m) refl

    pub success_moves :
        (u v : World D) (cmd : Command Task) (x : ℕ) (st : CommandStatus) (ids : List ℕ)
        → v.ctx ≡ record u.ctx { state = v.ctx.state; ve_sp = v.ctx.ve_sp }
        → v.ctx.state ≡ state_blocked
        → Reach n (moved s u.ctx ids (running cmd))
        → Reach n (moved s (succeeded os (set_result x st cmd) v).ctx ids at_test)
    unfolding push_completion push
    success_moves u v cmd x st ids c blocked r =
        let r₁ = later r (pseudo (work state_blocked v.ctx.ve_sp refl)) in
        let r₂ = later r₁ (pseudo (succeed x st)) in
        subst
          (λ (k : Context). Reach n (
            moved s
              (record k {
                comq = record k.comq {
                  completion = record k.comq.completion {
                    queue = k.comq.completion.queue ++ set_result x st cmd ∷ [];
                  };
                };
              })
              ids at_test))
          (sym (c ∙ ap (λ b. record u.ctx { state = b; ve_sp = v.ctx.ve_sp }) blocked)) r₂

    pub failure_moves :
        (u v : World D) (cmd : Command Task) (x : ℕ) (st : CommandStatus) (ids : List ℕ)
        → v.ctx ≡ record u.ctx { state = v.ctx.state; ve_sp = v.ctx.ve_sp }
        → Reach n (moved s u.ctx ids (running cmd))
        → (ids' : List ℕ) × Reach n (moved s (failed os (set_result x st cmd) v).ctx ids' finished)
    unfolding push_completion push set_request_status set_status
    failure_moves u v cmd x st ids c r =
        let r₁ = later r (pseudo (work state_blocked v.ctx.ve_sp refl)) in
        let r₂ = later r₁ (pseudo (fail x st)) in
        let r₃ = later (later r₂ (pseudo close_queue)) (pseudo report) in
        let exit = record u.ctx { state = state_exit; ve_sp = v.ctx.ve_sp } in
        let (ids', r₄) =
          drain_moves exit (requests os u) (completions os u ++ set_result x st cmd ∷ []) ids r₃ in
        (
          ids',
          subst
              (λ (k : Context). Reach n (
                moved s
                  (closed_context (record k { state = state_exit }) []
                    ((k.comq.completion.queue ++ set_result x st cmd ∷ [])
                      ++ map unfinished k.comq.request.queue))
                  ids' finished))
              (sym c) r₄,
        )
