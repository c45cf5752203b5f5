-- ===== src/Composed/Started.antt =====
-- `startEventLoop` as a run of the pseudo thread of `Threads`, with the requests that clients have
-- pushed since it posted the semaphore.
use veoffload.Base.{
  ℕ, ◌≡◌, refl, sym, ◌∙◌, ap, subst, arith, inl, inr, List, pos, ok, ok_inj, bind-ok, ◌>>=◌,
  veo_assert, then-ok,
}
use veoffload.Context.State.{Context, state_blocked, state_exit}
use veoffload.Execution.Driver.{Driver, World}
use veoffload.Execution.Calls.{collect_return_value}
use veoffload.Execution.Filters.{block_requested}
use veoffload.Execution.Exceptions.{Handled, execute_ve, is_zero}
use veoffload.Execution.Loop.{Turn, event_loop}
use veoffload.Execution.Turns.{requests}
use veoffload.Execution.Order.{IsOwn, end_world}
use veoffload.Execution.Served.{execute_ve_settles, execute_ve-Served}
use veoffload.Execution.Start.{
  with_running, posted, after_first, after_first_exception, start_event_loop,
}
use veoffload.Threads.Moves.{Pseudo, first_run, first_block, first_failure}
use veoffload.Threads.System.{System, Reach, later, pseudo}
use veoffload.Composed.Interleaved.{moved}
use veoffload.Composed.Simulated.{place, Ends, loop-Ends}

module _ {D : Type 0} (os : Driver D) where
  after_first_block :
      (p f exs rounds : ℕ) (h : Handled os)
      → h.status ≡ pos block_requested
      → after_first os p f exs rounds h
        ≡ (collect_return_value os h.world >>= (λ r. event_loop os p f exs rounds (r.1)))
  unfolding after_first
  after_first_block p f exs rounds h e = rw (e, after_first) refl

  collect_lem :
      (u : World D) (r : ℕ × World D)
      → collect_return_value os u ≡ ok r
      → (r.1).ctx ≡ record u.ctx { ve_sp = (r.1).ctx.ve_sp }
  unfolding collect_return_value
  collect_lem u r e = ground arith

  module _ (n : ℕ) (s : System) where
    block-Ends :
        (p f exs rounds : ℕ) (w : World D) (h : Handled os) (t : Turn os) (ids : List ℕ)
        → h.world.ctx ≡ record w.ctx { state = h.world.ctx.state }
        → h.status ≡ pos block_requested
        → h.world.ctx.state ≡ state_blocked
        → IsOwn (requests os w)
        → after_first os p f exs rounds h ≡ ok t
        → Reach n (moved s w.ctx ids first_run)
        → Ends os n s t
    block-Ends p f exs rounds w h t ids kept status blocked own e r =
        let (v, collected, last) =
          bind-ok (collect_return_value os h.world) (λ v. event_loop os p f exs rounds (v.1)) t
            (sym (after_first_block p f exs rounds h status) ∙ e) in
        let sp = (v.1).ctx.ve_sp in
        let c : (v.1).ctx ≡ record w.ctx { state = state_blocked; ve_sp = sp } =
          collect_lem h.world v collected
          ∙ ap {A = Context} (λ k. record k { ve_sp = sp }) kept
          ∙ ap (λ b. record w.ctx { state = b; ve_sp = sp }) blocked in
        loop-Ends os n s p f exs rounds (v.1) t ids
          (subst (λ (k : Context). IsOwn k.comq.request.queue) (sym c) own) last
          (subst (λ k. Reach n (moved s k ids Pseudo.at_test)) (sym c)
            (later r (pseudo (first_block sp))))

  -- In a reachable system of clients and pseudo thread, where the pseudo thread stands before its first
  -- block request with the state RUNNING, every `close` handler in the request queue was made for the
  -- ID of its command, and `startEventLoop` runs on the context of the system to its end `t`: a system
  -- is reachable with the context that it leaves, in which no client and none of the IDs pushed,
  -- refused and handed out have changed, and in which the pseudo thread waits in `popRequest` where the
  -- event loop does, and has ended where `startEventLoop` returns or ends its thread.
  pub start_event_loop-Reach :
      (p f exs event_exs rounds n : ℕ) (w : World D) (s : System) (t : Turn os)
      → Reach n s
      → s.pseudo ≡ first_run
      → s.shared.ctx ≡ (with_running os w).ctx
      → IsOwn (requests os w)
      → start_event_loop os p f exs event_exs rounds w ≡ ok t
      → (ids : List ℕ) × Reach n (record s {
        shared = record s.shared { ctx = (end_world os t).ctx; taken = ids };
        pseudo = place os t;
      })
  unfolding start_event_loop
  start_event_loop-Reach p f exs event_exs rounds n w s t r at same own e =
      let w₁ = posted os w in
      let rest =
        then-ok (veo_assert (is_zero (os.sem_post w.ve).0))
          (execute_ve os p f exs w₁ >>= after_first os p f event_exs rounds) t e in
      let (h, ran, last) =
        bind-ok (execute_ve os p f exs w₁) (after_first os p f event_exs rounds) t rest in
      let (enough, (kept, memory, objects), settled) =
        execute_ve_settles os w₁ h refl (execute_ve-Served os p f exs w₁ h refl ran) in
      let r₁ : Reach n (moved s w₁.ctx s.shared.taken first_run) =
        subst (Reach n) (rw (← same, ← at) refl) r in
      elim settled [
        | inl (status, blocked) ↦
            block-Ends n s p f event_exs rounds w₁ h t s.shared.taken kept status blocked own last
              r₁
        | inr (status, fatal) ↦
            subst (Ends os n s)
              (ok_inj (sym (after_first_exception os p f event_exs rounds h status) ∙ last))
              (
                s.shared.taken,
                subst
                    (λ (k : Context).
                      Reach n
                        (moved s (record k { state = state_exit }) s.shared.taken Pseudo.finished))
                    (sym kept) (later r₁ (pseudo first_failure)),
              )
      ]
