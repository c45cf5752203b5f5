-- ===== src/Execution/Trace.antt =====
-- The runs of the VE between two block requests, by what the exception handler makes of each exception,
-- and the steps of the handler along them. `Execution.Runs` describes them apart from it.
use veoffload.Base.{
  ℕ, zero, suc, ◌≤◌, ◌≡◌, refl, ◌∙◌, ap, subst, true, false, arith, ok, err, exception, ok_inj,
}
use veoffload.Context.State.{ContextState, state_running}
use veoffload.Execution.Driver.{Driver, World}
use veoffload.Execution.Filters.{default_filter}
use veoffload.Execution.Exceptions.{
  Round, again, throws, raised, judge, Handled, wait_for_exception, handle_raised,
  handle_single_exception, exception_handler, is_zero, is_running,
}

module _ {D : Type 0} (os : Driver D) where
  -- The exception that the VE raises next: the waits before it are interrupted or see no exception.
  pub data Raises : D → ℕ × D → Type 0 where
    at_once :
        {d : D} {exs : ℕ}
        → judge (os.wait_exception d).0 ≡ raised exs
        → Raises d (exs, (os.wait_exception d).1)
    later :
        {d : D} {r : ℕ × D}
        → judge (os.wait_exception d).0 ≡ again
        → Raises (os.wait_exception d).1 r
        → Raises d r

  -- What the handler makes of an exception that is raised in a world.
  abbrev pub handled : World D → ℕ × D → Handled os
  handled w r = handle_raised os (default_filter os) (r.0) (record w { ve = r.1 })

  -- A run: system calls that are served and resumed, then an exception that ends it.
  pub data Served : World D → Handled os → Type 0 where
    ends :
        {w : World D} {r : ℕ × D}
        → Raises w.ve r
        → is_zero (handled w r).status ≡ false
        → Served w (handled w r)
    resumes :
        {w : World D} {r : ℕ × D} {h : Handled os}
        → Raises w.ve r
        → is_zero (handled w r).status ≡ true
        → Served (handled w r).world h
        → Served w h

  wait-raised :
      (p : ℕ) (d : D) (exs : ℕ)
      → 1 ≤ p
      → judge (os.wait_exception d).0 ≡ raised exs
      → wait_for_exception os p d ≡ ok (exs, (os.wait_exception d).1)
  unfolding wait_for_exception
  wait-raised zero d exs le e = absurd (omega arith)
  wait-raised (suc p) d exs le e = rw (e, wait_for_exception) refl

  wait-again :
      (n p : ℕ) (d : D) (r : ℕ × D)
      → suc n ≤ p
      → judge (os.wait_exception d).0 ≡ again
      → ((q : ℕ) → n ≤ q → wait_for_exception os q (os.wait_exception d).1 ≡ ok r)
      → wait_for_exception os p d ≡ ok r
  unfolding wait_for_exception
  wait-again n zero d r le e rest = absurd (omega arith)
  wait-again n (suc p) d r le e rest = rw (e, wait_for_exception) (rest p (omega arith))

  pub Raises-wait :
      {d : D} {r : ℕ × D}
      → Raises d r
      → (n : ℕ) × ((p : ℕ) → n ≤ p → wait_for_exception os p d ≡ ok r)
  Raises-wait (at_once {d} {exs} e) = (1, λ p le. wait-raised p d exs le e)
  Raises-wait (later {d} {r} e h) =
      let (n, waits) = Raises-wait h in (suc n, λ p le. wait-again n p d r le e waits)

  round-Raises :
      (p : ℕ) (d : D) (r : ℕ × D) (k : Round)
      → judge (os.wait_exception d).0 ≡ k
      → (elim k [
        | again ↦ wait_for_exception os p (os.wait_exception d).1
        | throws errno ↦ err (exception errno)
        | raised exs ↦ ok (exs, (os.wait_exception d).1)
      ])
        ≡ ok r
      → (wait_for_exception os p (os.wait_exception d).1 ≡ ok r → Raises (os.wait_exception d).1 r)
      → Raises d r
  round-Raises p d r again j e rec = later j (rec e)
  round-Raises p d r (throws n) j e rec = cc
  round-Raises p d r (raised exs) j e rec = subst (Raises d) (ok_inj e) (at_once j)

  pub wait-Raises : (p : ℕ) (d : D) (r : ℕ × D) → wait_for_exception os p d ≡ ok r → Raises d r
  unfolding wait_for_exception
  wait-Raises zero d r e = cc
  wait-Raises (suc p) d r e =
      round-Raises p d r (judge (os.wait_exception d).0) refl e
        (wait-Raises p (os.wait_exception d).1 r)

  handle_single-Raises :
      (p : ℕ) (w : World D) (r : ℕ × D)
      → wait_for_exception os p w.ve ≡ ok r
      → handle_single_exception os p (default_filter os) w ≡ ok (handled w r)
  unfolding handle_single_exception
  handle_single-Raises p w r e = rw e refl

  pub is_running_lem : (s : ContextState) → s ≡ state_running → is_running s ≡ true
  is_running_lem s e = ap is_running e

  handler_step :
      (p f exs : ℕ) (w : World D) (r : ℕ × D)
      → w.ctx.state ≡ state_running
      → wait_for_exception os p w.ve ≡ ok r
      → exception_handler os p (suc f) (default_filter os) exs w
        ≡ (elim (is_zero (handled w r).status) [
          | true ↦
              exception_handler os p f (default_filter os) (handled w r).exs (handled w r).world
          | false ↦ ok (handled w r)
        ])
  unfolding exception_handler
  handler_step p f exs w r run e =
      rw (is_running_lem w.ctx.state run, handle_single-Raises p w r e, exception_handler) refl

  pub handler_resume :
      (p f exs : ℕ) (w : World D) (r : ℕ × D)
      → w.ctx.state ≡ state_running
      → wait_for_exception os p w.ve ≡ ok r
      → is_zero (handled w r).status ≡ true
      → exception_handler os p (suc f) (default_filter os) exs w
        ≡ exception_handler os p f (default_filter os) (handled w r).exs (handled w r).world
  handler_resume p f exs w r run e z = handler_step p f exs w r run e ∙ rw z refl

  pub handler_end :
      (p f exs : ℕ) (w : World D) (r : ℕ × D)
      → w.ctx.state ≡ state_running
      → wait_for_exception os p w.ve ≡ ok r
      → is_zero (handled w r).status ≡ false
      → exception_handler os p (suc f) (default_filter os) exs w ≡ ok (handled w r)
  handler_end p f exs w r run e z = handler_step p f exs w r run e ∙ rw z refl
