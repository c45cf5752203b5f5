-- ===== src/Execution/RunSteps.antt =====
-- The parts of a run against the parts of the exception handler.
use Prim.Native.Nat.{bit_and}
use veoffload.Base.{
  ℕ, ◌≡◌, refl, sym, ◌∙◌, ap, subst, ◌⊎◌, inl, inr, true, false, Bool-cases, ℤ, pos, negsuc, arith,
  ◌-◌, ◌^◌, ◌==◌, if◌then◌else◌,
}
use veoffload.Context.State.{contains}
use veoffload.Execution.Driver.{Waited, Numbers, Driver, World, has_bits}
use veoffload.Execution.Filters.{
  Filtered, default_filter, default_filtered_syscalls, is_veo_block, status_exception,
}
use veoffload.Execution.Trace.{Raises, at_once, later, handled, Served, ends, resumes}
use veoffload.Execution.Exceptions.{
  again, raised, judge, Handled, system_call, handle_raised, is_fatal, is_zero,
}
use veoffload.Execution.Runs.{
  IsException, IsNothing, IsFatal, Reported, now, afterwards, IsListed, AsksBlock, Call, refused,
  blocks, served, Handling, no_call, calls, Run, dies, stops, resumed,
}

judge-raised : (r : Waited) → IsException r → judge r ≡ raised r.exs
unfolding judge
judge-raised r (e, some_bit) =
    let other : (bit_and r.exs (2 ^ 64 - 256) == 0) ≡ false = ground arith in rw (e, other) refl

judge-again : (r : Waited) → IsNothing r → judge r ≡ again
unfolding judge
judge-again r (inl (e, interrupted)) = rw (e, interrupted) refl
judge-again r (inr (e, none)) = rw (e, none) refl

zero_lem : (z : ℤ) → is_zero z ≡ true → z ≡ pos 0
zero_lem (pos n) e = let z : n ≡ 0 = ground arith in ap pos z
zero_lem (negsuc n) e = absurd cc

raised-judge : (r : Waited) (exs : ℕ) → judge r ≡ raised exs → IsException r × (r.exs ≡ exs)
unfolding judge
raised-judge r exs e = ground (arith, zero_lem r.ret)

again-judge : (r : Waited) → judge r ≡ again → IsNothing r
unfolding judge
again-judge r e = ground (arith, zero_lem r.ret)

pub IsFatal-fatal : (k : Numbers) (exs : ℕ) → IsFatal k exs → is_fatal k exs ≡ true
unfolding is_fatal has_bits
IsFatal-fatal k exs h = ground arith

pub is_fatal_lem : (k : Numbers) (exs : ℕ) → is_fatal k exs ≡ true → IsFatal k exs
unfolding is_fatal has_bits
is_fatal_lem k exs h = ground arith

module _ {D : Type 0} (os : Driver D) where
  not_listed :
      (w : World D)
      → ¬ IsListed os w
      → contains (os.syscall_num w.ve) (default_filtered_syscalls os.numbers) ≡ false
  not_listed w miss =
      elim (Bool-cases (contains (os.syscall_num w.ve) (default_filtered_syscalls os.numbers))) [
        | inl hit ↦ absurd (miss hit)
        | inr n ↦ n
      ]

  asks_block : (w : World D) → AsksBlock os w → is_veo_block os w.ve (os.syscall_num w.ve) ≡ true
  unfolding is_veo_block
  asks_block w (n, a) = ground arith

  asks_no_block :
      (w : World D) → ¬ AsksBlock os w → is_veo_block os w.ve (os.syscall_num w.ve) ≡ false
  unfolding is_veo_block
  asks_no_block w miss = ground arith

  is_block-asks : (w : World D) → is_veo_block os w.ve (os.syscall_num w.ve) ≡ true → AsksBlock os w
  unfolding is_veo_block
  is_block-asks w e = ground arith

  abbrev answer : World D → Filtered os
  answer w = system_call os (default_filter os) w

  Call-answer :
      (w w' : World D) (flag : ℕ)
      → Call os w flag w'
      → ((answer w).break_flag ≡ flag) × ((answer w).world ≡ w')
  unfolding system_call default_filter
  Call-answer w w' flag (refused hit) = rw hit (refl, refl)
  Call-answer w w' flag (blocks miss asks) = rw (not_listed w miss, asks_block w asks) (refl, refl)
  Call-answer w w' flag (served miss other) =
      rw (not_listed w miss, asks_no_block w other) (refl, refl)

  -- What the handler makes of a system call is one of these.
  answer-Call :
      (w : World D) → (flag : ℕ) × (w' : World D) × Call os w flag w' × ((flag ≡ 0) ⊎ (flag ≡ 1))
  answer-Call w =
      let n = os.syscall_num w.ve in
      elim (Bool-cases (contains n (default_filtered_syscalls os.numbers))) [
        | inl hit ↦ (_, _, refused hit, inl refl)
        | inr miss ↦ elim (Bool-cases (is_veo_block os w.ve n)) [
          | inl asks ↦ (_, _, blocks (λ e. cc) (is_block-asks w asks), inr refl)
          | inr other ↦ (
            _,
            _,
            served (λ e. cc)
                (λ asks. let clash : true ≡ false = sym (asks_block w asks) ∙ other in cc),
            inl refl,
          )
        ]
      ]

  pub Handling-exists :
      (exs : ℕ) (w : World D)
      → (flag : ℕ) × (w' : World D) × Handling os exs w flag w' × ((flag ≡ 0) ⊎ (flag ≡ 1))
  Handling-exists exs w = elim (Bool-cases (bit_and exs os.numbers.exs_monc == 0)) [
    | inl none ↦ (_, _, no_call (ground arith), inl refl)
    | inr some ↦
        let (flag, w', call, bound) = answer-Call w in
        (flag, w', calls (λ z. ground arith) call, bound)
  ]

  -- And the handler makes exactly that of the exception.
  Handling-handled :
      (exs flag : ℕ) (w w' : World D)
      → Handling os exs w flag w'
      → handle_raised os (default_filter os) exs w ≡ (
          if is_fatal os.numbers exs
          then record {
            status = status_exception;
            exs = exs;
            world = record w' { ve = os.block_syscall w'.ve };
          }
          else record { status = pos flag; exs = exs; world = w' })
  unfolding handle_raised has_bits
  Handling-handled exs flag w w' (no_call none) = rw none refl
  Handling-handled exs flag w w' (calls some call) =
      let other : (bit_and exs os.numbers.exs_monc == 0) ≡ false = ground arith in
      let (same_flag, same) = Call-answer w w' flag call in rw (other, same_flag, same) refl

  pub Raises-Reported : {d : D} {r : ℕ × D} → Raises os d r → Reported os d r
  Raises-Reported (at_once {d} {exs} e) =
      let (exception, same) = raised-judge (os.wait_exception d).0 exs e in
      subst (λ x. Reported os d (x, (os.wait_exception d).1)) same (now exception)
  Raises-Reported (later {d} {r} e rest) =
      afterwards (again-judge (os.wait_exception d).0 e) (Raises-Reported rest)

  pub Reported-Raises : {d : D} {r : ℕ × D} → Reported os d r → Raises os d r
  Reported-Raises (now {d} h) = at_once (judge-raised (os.wait_exception d).0 h)
  Reported-Raises (afterwards {d} {r} h rest) =
      later (judge-again (os.wait_exception d).0 h) (Reported-Raises rest)

  -- The two ends of an exception in the handler.
  pub handled_fatal :
      (exs flag : ℕ) (w w' : World D) (d : D)
      → Handling os exs (record w { ve = d }) flag w'
      → is_fatal os.numbers exs ≡ true
      → handled os w (exs, d) ≡ record {
        status = status_exception;
        exs = exs;
        world = record w' { ve = os.block_syscall w'.ve };
      }
  handled_fatal exs flag w w' d h fatal =
      Handling-handled exs flag (record w { ve = d }) w' h ∙ rw fatal refl

  pub handled_fine :
      (exs flag : ℕ) (w w' : World D) (d : D)
      → Handling os exs (record w { ve = d }) flag w'
      → is_fatal os.numbers exs ≡ false
      → handled os w (exs, d) ≡ record { status = pos flag; exs = exs; world = w' }
  handled_fine exs flag w w' d h fine =
      Handling-handled exs flag (record w { ve = d }) w' h ∙ rw fine refl

  pub fine_lem : (exs : ℕ) → is_fatal os.numbers exs ≡ false → ¬ IsFatal os.numbers exs
  fine_lem exs fine h = let clash : true ≡ false = sym (IsFatal-fatal os.numbers exs h) ∙ fine in cc

  pub is_fine : (exs : ℕ) → ¬ IsFatal os.numbers exs → is_fatal os.numbers exs ≡ false
  is_fine exs none = elim (Bool-cases (is_fatal os.numbers exs)) [
    | inl fatal ↦ absurd (none (is_fatal_lem os.numbers exs fatal))
    | inr fine ↦ fine
  ]

  pub Run-Served : {w : World D} {h : Handled os} → Run os w h → Served os w h
  Run-Served (dies {w} {exs} {d} {flag} {w'} report handling fatal) =
      let e = handled_fatal exs flag w w' d handling (IsFatal-fatal os.numbers exs fatal) in
      subst (Served os w) e (ends (Reported-Raises report) (ap (λ k. is_zero k.status) e))
  Run-Served (stops {w} {exs} {d} {w'} report handling none) =
      let e = handled_fine exs 1 w w' d handling (is_fine exs none) in
      subst (Served os w) e (ends (Reported-Raises report) (ap (λ k. is_zero k.status) e))
  Run-Served (resumed {w} {exs} {d} {w'} {h} report handling none rest) =
      let e = handled_fine exs 0 w w' d handling (is_fine exs none) in
      resumes (Reported-Raises report) (ap (λ k. is_zero k.status) e)
        (subst (λ k. Served os k h) (sym (ap (λ k. k.world) e)) (Run-Served rest))
