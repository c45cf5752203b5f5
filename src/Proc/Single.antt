-- ===== src/Proc/Single.antt =====
-- The second creation of a process, after the count of the first.
use veoffload.Base.{
  ℕ, ◌+◌, true, false, Bool-cases, List, ◌==◌, Option, none, some, ok, err, ◌≡◌, refl, sym, ◌∙◌, ap,
  inl, inr, exception, arith, int32,
}
use veoffload.Steps.{Step, fail, call}
use veoffload.Steps.Keeps.{step-ok}
use veoffload.Context.State.{new_context}
use veoffload.Proc.Handle.{ProcHandle}
use veoffload.Proc.Create.{Creator, Creation, on_ve}
use veoffload.Proc.Start.{refuse, with_main, create}
use veoffload.Proc.Once.{count, count-spawn}

module _ {D : Type 0} (c : Creator D) (p f exs name : ℕ) (ossock vedev bin env : List ℕ) where
  with_main_counts :
      (s : Creation D) (h : ProcHandle)
      → (with_main c p f exs name ossock vedev bin env s).0 ≡ ok h
      → count c ((with_main c p f exs name ossock vedev bin env s).1) ≡ 1
  unfolding with_main refuse on_ve
  with_main_counts s h e =
      let s' = record s { main = record s.main { ctx = new_context true }; worker = none } in
      elim (Bool-cases (s.proc_no == 0)) [
        | inl first ↦ rw first (
            count-spawn c p f exs name ossock vedev bin env s' h (rw first at e)
            ∙ (let z : s.proc_no ≡ 0 = ground arith in ap (λ n. int32 (n + 1)) z))
        | inr again ↦ absurd (let b : err (exception 0) ≡ ok h = rw again at e in cc)
      ]

  -- What follows `veos_handle_create` in the constructor.
  abbrev go_on : Option ℕ → Step (Creation D) ProcHandle
  go_on failed = elim failed [
    | some e ↦ fail (exception e)
    | none ↦ with_main c p f exs name ossock vedev bin env
  ]

  go_on_counts :
      (failed : Option ℕ) (s : Creation D) (h : ProcHandle)
      → (go_on failed s).0 ≡ ok h
      → count c ((go_on failed s).1) ≡ 1
  go_on_counts none s h e = with_main_counts s h e
  go_on_counts (some code) s h e = absurd cc

  pub create_counts :
      (s : Creation D) (h : ProcHandle)
      → (create c p f exs name ossock vedev bin env s).0 ≡ ok h
      → (create c p f exs name ossock vedev bin env s).1.proc_no ≡ 1
  unfolding create
  create_counts s h e =
      let (failed, found, last) = step-ok (on_ve c (call c.handle_create)) go_on s h e in
      ap (λ q. count c (q.1)) last
      ∙ go_on_counts failed ((on_ve c (call c.handle_create) s).1) h (sym (ap (λ q. q.0) last) ∙ e)

module _ {D : Type 0} (c : Creator D) where
  -- Once the constructor has made a process, every further call of it in this VH process, for any
  -- socket, device, program and environment, throws, as soon as it has a handle of VEOS: it gives that
  -- handle back, starts nothing, and leaves the number of processes as it is. (Where it has no handle,
  -- it throws before.)
  pub create_again :
      (p f exs name p' f' exs' name' : ℕ) (ossock vedev bin env ossock' vedev' bin' env' : List ℕ)
      (s t : Creation D) (h : ProcHandle)
      → (create c p f exs name ossock vedev bin env s).0 ≡ ok h
      → t.proc_no ≡ (create c p f exs name ossock vedev bin env s).1.proc_no
      → (c.handle_create t.main.ve).0 ≡ none
      → let again = create c p' f' exs' name' ossock' vedev' bin' env' t in
        (again.0 ≡ err (exception 0))
        × (again.1.main.ve ≡ c.handle_free (c.handle_create t.main.ve).1)
        × (again.1.proc_no ≡ t.proc_no)
  unfolding create with_main refuse on_ve
  create_again p f exs name p' f' exs' name' ossock vedev bin env ossock' vedev' bin' env' s t h e
        same handled =
      let taken : (t.proc_no == 0) ≡ false =
        (let one : t.proc_no ≡ 1 = same ∙ create_counts c p f exs name ossock vedev bin env s h e in
          ground arith) in
      (rw (handled, taken) refl, rw (handled, taken) refl, rw (handled, taken) refl)
