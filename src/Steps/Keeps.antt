-- ===== src/Steps/Keeps.antt =====
-- What a block leaves as it was, and how a block came to its value.
use veoffload.Base.{
  ◌≡◌, refl, ◌∙◌, ap, Bool, true, false, if◌then◌else◌, Result, ok, err, ℕ, Fault, null_pointer,
  uninitialised, out_of_range, length_error, assertion, out_of_fuel, exception,
}
use veoffload.Steps.{Step, give, handle, catching, continue_with, ◌>>=◌, ◌>>◌}

continue-ok :
    {S A B : Type 0} (k : A → Step S B) (r : Result A × S) (b : B)
    → (continue_with k r).0 ≡ ok b
    → (a : A) × (r.0 ≡ ok a) × (continue_with k r ≡ k a (r.1))
continue-ok k (ok a, s) b e = (a, refl, refl)
continue-ok k (err fault, s) b e = absurd cc

-- A block of `Step` that gave a value gave one at its first step.
pub step-ok :
    {S A B : Type 0} (m : Step S A) (k : A → Step S B) (s : S) (b : B)
    → ((m >>= k) s).0 ≡ ok b
    → (a : A) × ((m s).0 ≡ ok a) × ((m >>= k) s ≡ k a ((m s).1))
step-ok m k s b e = continue-ok k (m s) b e

-- How a run of a block ended, and that it left a part of the state as it was.
abbrev pub FailsWith :
    {S A F : Type 0} (part : S → F) (before : F) (fault : Fault) → Result A × S → Type 0
FailsWith part before fault r = (r.0 ≡ err fault) × (part (r.1) ≡ before)

abbrev pub Gives : {S A F : Type 0} (part : S → F) (before : F) (value : A) → Result A × S → Type 0
Gives part before value r = (r.0 ≡ ok value) × (part (r.1) ≡ before)

module _ {S F : Type 0} (part : S → F) (before : F) where
  continue-FailsWith :
      {A B : Type 0} (k : A → Step S B) (r : Result A × S) (fault : Fault)
      → FailsWith part before fault r
      → FailsWith part before fault (continue_with k r)
  continue-FailsWith k (ok a, s) fault (e, kept) = absurd cc
  continue-FailsWith k (err other, s) fault (e, kept) =
      let same : other ≡ fault = cc in (ap err same, kept)

  -- A fault of the first step is that of the block.
  pub bind-FailsWith :
      {A B : Type 0} (m : Step S A) (k : A → Step S B) (s : S) (fault : Fault)
      → FailsWith part before fault (m s)
      → FailsWith part before fault ((m >>= k) s)
  bind-FailsWith m k s fault h = continue-FailsWith k (m s) fault h

  handle-Gives :
      {A : Type 0} (handler : ℕ → A) (r : Result A × S) (n : ℕ)
      → FailsWith part before (exception n) r
      → Gives part before (handler n) (handle (λ e. give (handler e)) r)
  unfolding handle
  handle-Gives handler (ok a, s) n (e, kept) = absurd cc
  handle-Gives handler (err (exception m), s) n (e, kept) =
      let same : m ≡ n = cc in (ap (λ e. ok (handler e)) same, kept)
  handle-Gives handler (err null_pointer, s) n (e, kept) = absurd cc
  handle-Gives handler (err uninitialised, s) n (e, kept) = absurd cc
  handle-Gives handler (err out_of_range, s) n (e, kept) = absurd cc
  handle-Gives handler (err length_error, s) n (e, kept) = absurd cc
  handle-Gives handler (err assertion, s) n (e, kept) = absurd cc
  handle-Gives handler (err out_of_fuel, s) n (e, kept) = absurd cc

  -- An exception in a try block gives the value of the handler.
  pub catching-Gives :
      {A : Type 0} (handler : ℕ → A) (body : Step S A) (s : S) (n : ℕ)
      → FailsWith part before (exception n) (body s)
      → Gives part before (handler n) (catching (λ e. give (handler e)) body s)
  unfolding catching
  catching-Gives handler body s n h = handle-Gives handler (body s) n h

  handle-FailsWith :
      {A : Type 0} (handler : ℕ → Step S A) (r : Result A × S)
      → FailsWith part before assertion r
      → FailsWith part before assertion (handle handler r)
  unfolding handle
  handle-FailsWith handler (ok a, s) (e, kept) = absurd cc
  handle-FailsWith handler (err (exception m), s) (e, kept) = absurd cc
  handle-FailsWith handler (err null_pointer, s) (e, kept) = absurd cc
  handle-FailsWith handler (err uninitialised, s) (e, kept) = absurd cc
  handle-FailsWith handler (err out_of_range, s) (e, kept) = absurd cc
  handle-FailsWith handler (err length_error, s) (e, kept) = absurd cc
  handle-FailsWith handler (err assertion, s) (e, kept) = (refl, kept)
  handle-FailsWith handler (err out_of_fuel, s) (e, kept) = absurd cc

  -- An abort in a try block is an abort.
  pub catching-FailsWith :
      {A : Type 0} (handler : ℕ → Step S A) (body : Step S A) (s : S)
      → FailsWith part before assertion (body s)
      → FailsWith part before assertion (catching handler body s)
  unfolding catching
  catching-FailsWith handler body s h = handle-FailsWith handler (body s) h

module _ {S F : Type 0} (part : S → F) where
  abbrev pub Keeps : {A : Type 0} → Step S A → Type 0
  Keeps m = (s : S) → part ((m s).1) ≡ part s

  continue-Keeps :
      {A B : Type 0} (k : A → Step S B) (r : Result A × S)
      → ((a : A) → Keeps (k a))
      → part ((continue_with k r).1) ≡ part (r.1)
  continue-Keeps k (ok a, s) h = h a s
  continue-Keeps k (err e, s) h = refl

  pub bind-Keeps :
      {A B : Type 0} (m : Step S A) (k : A → Step S B)
      → Keeps m
      → ((a : A) → Keeps (k a))
      → Keeps (m >>= k)
  bind-Keeps m k first next s = continue-Keeps k (m s) next ∙ first s

  pub then-Keeps : {A B : Type 0} (m : Step S A) (n : Step S B) → Keeps m → Keeps n → Keeps (m >> n)
  then-Keeps m n first second s = continue-Keeps (λ a. n) (m s) (λ a. second) ∙ first s

  pub if-Keeps :
      {A : Type 0} (b : Bool) (m n : Step S A) → Keeps m → Keeps n → Keeps (if b then m else n)
  if-Keeps true m n first second = first
  if-Keeps false m n first second = second
