-- ===== src/Execution/Start.antt =====
-- `startEventLoop`: the start of the pseudo thread of a new context.
use veoffload.Base.{ℕ, ◌+◌, ◌≡◌, refl, ap, true, false, Result, ok, ◌>>=◌, ◌>>◌, veo_assert}
use veoffload.Context.State.{Context, state_running, state_exit}
use veoffload.Execution.Driver.{Driver, World}
use veoffload.Execution.Filters.{status_exception}
use veoffload.Execution.Exceptions.{Handled, execute_ve, is_block_request, is_zero}
use veoffload.Execution.Trace.{Served}
use veoffload.Execution.Served.{execute_ve_settles}
use veoffload.Execution.Calls.{collect_return_value}
use veoffload.Execution.Loop.{Turn, returned, event_loop}

module _ {D : Type 0} (os : Driver D) where
  abbrev pub with_running : World D → World D
  with_running w = record w { ctx = record w.ctx { state = state_running } }

  -- RUNNING, with the semaphore posted.
  abbrev pub posted : World D → World D
  posted w = record (with_running w) { ve = (os.sem_post w.ve).1 }

  abbrev pub with_exit : World D → World D
  with_exit w = record w { ctx = record w.ctx { state = state_exit } }

  -- What follows the first block request, or what came in its place.
  unfoldable pub after_first : (patience fuel exs rounds : ℕ) → Handled os → Result (Turn os)
  after_first patience fuel exs rounds h = elim (is_block_request os h) [
    | false ↦ ok (returned (with_exit h.world))
    | true ↦ (do r ← collect_return_value os h.world; event_loop os patience fuel exs rounds (r.1))
  ]

  -- The new handle of VEOS is part of the state of the VE. `event_exs` stands for the EXS values that
  -- the handlers of the loop do not initialise.
  unfoldable pub start_event_loop :
      (patience fuel exs event_exs rounds : ℕ) → World D → Result (Turn os)
  start_event_loop patience fuel exs event_exs rounds w = do
    veo_assert (is_zero (os.sem_post w.ve).0)
    h ← execute_ve os patience fuel exs (posted w)
    after_first patience fuel event_exs rounds h

  pub after_first_exception :
      (patience fuel exs rounds : ℕ) (h : Handled os)
      → h.status ≡ status_exception
      → after_first patience fuel exs rounds h ≡ ok (returned (with_exit h.world))
  unfolding after_first
  after_first_exception patience fuel exs rounds h e = rw (e, after_first) refl

  -- Where `sem_post` succeeds and the VE then meets a fatal exception before its first block
  -- request, `startEventLoop` returns, for enough fuel, with the state EXIT and both queues as
  -- they were: the request queue is not closed, and no request that a client has pushed is
  -- completed.
  pub start_event_loop_failure :
      (w : World D) (h : Handled os)
      → is_zero (os.sem_post w.ve).0 ≡ true
      → Served os (posted w) h
      → h.status ≡ status_exception
      → (n : ℕ) × ((p f exs event_exs rounds : ℕ)
          → start_event_loop (n + p) (n + f) exs event_exs rounds w
            ≡ ok (returned (with_exit h.world)))
        × ((with_exit h.world).ctx.state ≡ state_exit)
        × ((with_exit h.world).ctx.comq ≡ w.ctx.comq)
  unfolding start_event_loop
  start_event_loop_failure w h post served status =
      let ((n, enough), (kept, memory, objects), settled) =
        execute_ve_settles os (posted w) h refl served in
      (
        n,
        (λ p f exs event_exs rounds.
            rw (post, enough p f exs)
              (after_first_exception (n + p) (n + f) event_exs rounds h status)),
        refl,
        ap {A = Context} (λ k. k.comq) kept,
      )
