-- ===== src/Execution/Served.antt =====
-- The exception handler along the runs of the VE.
use veoffload.Base.{
  ℕ, zero, suc, ◌+◌, ◌≤◌, ◌≡◌, sym, ◌∙◌, ap, subst, ◌⊎◌, inl, inr, true, false, arith, pos, ok,
  ok_inj, bind-ok, ◌>>=◌,
}
use veoffload.Context.State.{state_running, state_blocked}
use veoffload.Execution.Driver.{Driver, World}
use veoffload.Execution.Filters.{default_filter, status_exception, block_requested}
use veoffload.Execution.Exceptions.{
  Handled, wait_for_exception, handle_single_exception, exception_handler, execute_ve, is_fatal,
  is_zero,
}
use veoffload.Execution.Blocks.{Kept, Kept-trans, Settled, raised_lem}
use veoffload.Execution.Trace.{
  handled, Served, ends, resumes, Raises-wait, wait-Raises, handler_resume, handler_end,
  is_running_lem,
}

module _ {D : Type 0} (os : Driver D) where
  -- The handler gives the end of the run, for enough fuel.
  abbrev pub Enough : World D → Handled os → Type 0
  Enough w h =
      (n : ℕ) × ((p f exs : ℕ)
        → n ≤ p
        → n ≤ f
        → exception_handler os p f (default_filter os) exs w ≡ ok h)

  ends-handler :
      (n p f exs : ℕ) (w : World D) (r : ℕ × D)
      → w.ctx.state ≡ state_running
      → suc n ≤ f
      → wait_for_exception os p w.ve ≡ ok r
      → is_zero (handled os w r).status ≡ false
      → exception_handler os p f (default_filter os) exs w ≡ ok (handled os w r)
  ends-handler n p zero exs w r run le e z = absurd (omega arith)
  ends-handler n p (suc f) exs w r run le e z = handler_end os p f exs w r run e z

  resumes-handler :
      (n p f exs : ℕ) (w : World D) (r : ℕ × D) (h : Handled os)
      → w.ctx.state ≡ state_running
      → suc n ≤ f
      → wait_for_exception os p w.ve ≡ ok r
      → is_zero (handled os w r).status ≡ true
      → ((g e : ℕ)
          → n ≤ g
          → exception_handler os p g (default_filter os) e (handled os w r).world ≡ ok h)
      → exception_handler os p f (default_filter os) exs w ≡ ok h
  resumes-handler n p zero exs w r h run le e z rest = absurd (omega arith)
  resumes-handler n p (suc f) exs w r h run le e z rest =
      handler_resume os p f exs w r run e z ∙ rest f (handled os w r).exs (omega arith)

  -- The first exception of a run leaves the context running, or ends it.
  pub first_lem :
      (w : World D) (r : ℕ × D)
      → w.ctx.state ≡ state_running
      → Kept os w (handled os w r).world
        × (((is_zero (handled os w r).status ≡ true)
              × ((handled os w r).world.ctx.state ≡ state_running))
            ⊎ ((is_zero (handled os w r).status ≡ false) × Settled os (handled os w r)))
  first_lem w r run =
      let (kept, finish) = raised_lem os (r.0) (record w { ve = r.1 }) run in
      (
        kept,
        elim finish [
          | inl (status, state) ↦ inl (ap is_zero status, state)
          | inr (inl (status, state)) ↦ inr (ap is_zero status, inl (status, state))
          | inr (inr (status, fatal)) ↦ inr (ap is_zero status, inr (status, fatal))
        ],
      )

  pub Served-handler :
      {w : World D} {h : Handled os}
      → Served os w h
      → w.ctx.state ≡ state_running
      → Enough w h × Kept os w h.world × Settled os h
  Served-handler (ends {w} {r} raise z) run =
      let (n, waits) = Raises-wait os raise in
      let (kept, finish) = first_lem w r run in
      elim finish [
        | inl (z', state) ↦ absurd cc
        | inr (z', settled) ↦ (
          (suc n, λ p f exs le le'. ends-handler n p f exs w r run le' (waits p (omega arith)) z),
          kept,
          settled,
        )
      ]
  Served-handler (resumes {w} {r} {h} raise z rest) run =
      let (n, waits) = Raises-wait os raise in
      let (kept, finish) = first_lem w r run in
      elim finish [
        | inr (z', settled) ↦ absurd cc
        | inl (z', state) ↦
            let ((m, enough), kept', settled) = Served-handler rest state in
            (
              (
                suc (n + m),
                λ p f exs le le'.
                    resumes-handler m p f exs w r h run (omega arith) (waits p (omega arith)) z
                      (λ g e le''. enough p g e (omega arith) le''),
              ),
              Kept-trans os w (handled os w r).world h.world kept kept',
              settled,
            )
      ]

  waited_lem :
      (p : ℕ) (w : World D) (h : Handled os)
      → handle_single_exception os p (default_filter os) w ≡ ok h
      → (r : ℕ × D) × (wait_for_exception os p w.ve ≡ ok r)
  unfolding handle_single_exception
  waited_lem p w h e =
      let (r, got, last) = bind-ok (wait_for_exception os p w.ve) (λ r. ok (handled os w r)) h e in
      (r, got)

  handled_lem :
      (p f exs : ℕ) (w : World D) (h : Handled os)
      → w.ctx.state ≡ state_running
      → exception_handler os p (suc f) (default_filter os) exs w ≡ ok h
      → (r : ℕ × D) × (wait_for_exception os p w.ve ≡ ok r)
  unfolding exception_handler
  handled_lem p f exs w h run e =
      let (one, got, last) =
        bind-ok (handle_single_exception os p (default_filter os) w)
          (λ k. elim (is_zero k.status) [
            | true ↦ exception_handler os p f (default_filter os) k.exs k.world
            | false ↦ ok k
          ])
          h
          (subst
            (λ b.
              (elim b [
                | false ↦ ok (record { status = pos 0; exs = exs; world = w })
                | true ↦ handle_single_exception os p (default_filter os) w >>= (λ k.
                    elim (is_zero k.status) [
                      | true ↦ exception_handler os p f (default_filter os) k.exs k.world
                      | false ↦ ok k
                    ])
              ])
              ≡ ok h)
            (is_running_lem os w.ctx.state run) e) in
      waited_lem p w one got

  pub handler-Served :
      (p f exs : ℕ) (w : World D) (h : Handled os)
      → w.ctx.state ≡ state_running
      → exception_handler os p f (default_filter os) exs w ≡ ok h
      → Served os w h
  unfolding exception_handler
  handler-Served p zero exs w h run e = cc
  handler-Served p (suc f) exs w h run e =
      let (r, got) = handled_lem p f exs w h run e in
      elim (first_lem w r run).1 [
        | inl (z, state) ↦ resumes (wait-Raises os p w.ve r got) z (
            handler-Served p f (handled os w r).exs (handled os w r).world h state
              (sym (handler_resume os p f exs w r run got z) ∙ e))
        | inr (z, settled) ↦
            subst (Served os w) (ok_inj (sym (handler_end os p f exs w r run got z) ∙ e))
              (ends (wait-Raises os p w.ve r got) z)
      ]

  -- From RUNNING, every run of the VE under the default filter that ends is followed by `_executeVE`:
  -- for enough fuel it returns what ended the run, whatever the EXS value before. Only the states of
  -- the context and of the VE have changed; and either a block was requested and the state is BLOCKED,
  -- or the status is that of an exception and the EXS value is one of the fatal ones.
  pub execute_ve_settles :
      (w : World D) (h : Handled os)
      → w.ctx.state ≡ state_running
      → Served os w h
      → ((n : ℕ) × ((p f exs : ℕ) → execute_ve os (n + p) (n + f) exs w ≡ ok h))
        × Kept os w h.world
        × (((h.status ≡ pos block_requested) × (h.world.ctx.state ≡ state_blocked))
            ⊎ ((h.status ≡ status_exception) × (is_fatal os.numbers h.exs ≡ true)))
  unfolding execute_ve
  execute_ve_settles w h run served =
      let ((n, enough), kept, settled) = Served-handler served run in
      ((n, λ p f exs. enough (n + p) (n + f) exs (omega arith) (omega arith)), kept, settled)

  -- From RUNNING, whatever `_executeVE` returns ended a run of the VE under the default filter.
  pub execute_ve-Served :
      (p f exs : ℕ) (w : World D) (h : Handled os)
      → w.ctx.state ≡ state_running
      → execute_ve os p f exs w ≡ ok h
      → Served os w h
  unfolding execute_ve
  execute_ve-Served p f exs w h run e = handler-Served p f exs w h run e
