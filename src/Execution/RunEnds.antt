-- ===== src/Execution/RunEnds.antt =====
-- `_executeVE` against the runs of the VE.
use veoffload.Base.{
  ℕ, ◌+◌, ok, ◌≡◌, sym, ◌∙◌, ap, subst, inl, inr, true, false, Bool-cases, pos, arith,
}
use veoffload.Context.State.{state_running}
use veoffload.Execution.Driver.{Driver, World}
use veoffload.Execution.Trace.{handled, Served, ends, resumes}
use veoffload.Execution.Served.{execute_ve_settles, execute_ve-Served}
use veoffload.Execution.Exceptions.{Handled, is_fatal, is_zero, execute_ve}
use veoffload.Execution.Runs.{Reported, Handling, Run, dies, stops, resumed}
use veoffload.Execution.RunSteps.{
  Run-Served, Handling-exists, Raises-Reported, handled_fatal, handled_fine, fine_lem, is_fatal_lem,
}

module _ {D : Type 0} (os : Driver D) where
  ends-Run :
      (w : World D) (exs : ℕ) (d : D)
      → Reported os w.ve (exs, d)
      → is_zero (handled os w (exs, d)).status ≡ false
      → Run os w (handled os w (exs, d))
  ends-Run w exs d report z =
      let (flag, w', handling, bound) = Handling-exists os exs (record w { ve = d }) in
      elim (Bool-cases (is_fatal os.numbers exs)) [
        | inl fatal ↦
            subst (Run os w) (sym (handled_fatal os exs flag w w' d handling fatal))
              (dies report handling (is_fatal_lem os.numbers exs fatal))
        | inr fine ↦
            let e = handled_fine os exs flag w w' d handling fine in
            elim bound [
              | inl zero ↦ absurd (
                  let clash : is_zero (pos flag) ≡ false = sym (ap (λ k. is_zero k.status) e) ∙ z in
                  ground arith)
              | inr one ↦
                  let e₁ : handled os w (exs, d)
                      ≡ record { status = pos 1; exs = exs; world = w' } =
                    e ∙ ap (λ n. record { status = pos n; exs = exs; world = w' }) one in
                  subst (Run os w) (sym e₁) (
                    stops report
                      (subst (λ n. Handling os exs (record w { ve = d }) n w') one handling)
                      (fine_lem os exs fine))
            ]
      ]

  resumes-Run :
      (w : World D) (h : Handled os) (exs : ℕ) (d : D)
      → Reported os w.ve (exs, d)
      → is_zero (handled os w (exs, d)).status ≡ true
      → Run os (handled os w (exs, d)).world h
      → Run os w h
  resumes-Run w h exs d report z rest =
      let (flag, w', handling, bound) = Handling-exists os exs (record w { ve = d }) in
      elim (Bool-cases (is_fatal os.numbers exs)) [
        | inl fatal ↦ absurd (
            let clash : false ≡ true =
              sym (ap (λ k. is_zero k.status) (handled_fatal os exs flag w w' d handling fatal))
              ∙ z in
            cc)
        | inr fine ↦
            let e = handled_fine os exs flag w w' d handling fine in
            let none : flag ≡ 0 =
              (let zero : is_zero (pos flag) ≡ true = sym (ap (λ k. is_zero k.status) e) ∙ z in
                ground arith) in
            resumed report (subst (λ n. Handling os exs (record w { ve = d }) n w') none handling)
              (fine_lem os exs fine) (subst (λ k. Run os k h) (ap (λ k. k.world) e) rest)
      ]

  Served-Run : {w : World D} {h : Handled os} → Served os w h → Run os w h
  Served-Run (ends {w} {r} raise z) = ends-Run w (r.0) (r.1) (Raises-Reported os raise) z
  Served-Run (resumes {w} {r} {h} raise z rest) =
      resumes-Run w h (r.0) (r.1) (Raises-Reported os raise) z (Served-Run rest)

  -- Whatever `_executeVE` returns from RUNNING is the end of a run of the VE: the driver's reports are
  -- waited for past EINTR and past EXS values without an exception; a system call of the list is
  -- refused with ENOSYS, and every other one is given to VEOS, but for the one that asks for a block; a
  -- fatal exception ends the run with the status -1 and the block request with 1, with the EXS value of
  -- that exception, and after every other exception the run goes on.
  pub execute_ve-Run :
      (p f exs : ℕ) (w : World D) (h : Handled os)
      → w.ctx.state ≡ state_running
      → execute_ve os p f exs w ≡ ok h
      → Run os w h
  execute_ve-Run p f exs w h run e = Served-Run (execute_ve-Served os p f exs w h run e)

  -- From RUNNING, every run of the VE, so described, that comes to its end is what `_executeVE` returns,
  -- for enough fuel and whatever EXS value it was called with.
  pub Run-execute_ve :
      (w : World D) (h : Handled os)
      → w.ctx.state ≡ state_running
      → Run os w h
      → (n : ℕ) × ((p f exs : ℕ) → execute_ve os (n + p) (n + f) exs w ≡ ok h)
  Run-execute_ve w h run r = (execute_ve_settles os w h run (Run-Served os r)).0
