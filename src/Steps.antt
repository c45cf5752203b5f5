-- ===== src/Steps.antt =====
-- Code that changes a state and may throw, in blocks: the changes before a throw stay. Here are also
-- the try blocks, of which every handler is for `VEOException` (src/libveo/VEOException.hpp).
pub mod Keeps
use veoffload.Base.{
  ℕ, Option, none, some, Result, ok, err, null_pointer, uninitialised, out_of_range, length_error,
  assertion, out_of_fuel, exception, Fault,
}

abbrev pub Step : Type 0 → Type 0 → Type 0
Step S A = S → Result A × S

module _ {S : Type 0} where
  -- The end of a block with the value of `return`.
  abbrev pub give : {A : Type 0} → A → Step S A
  give value s = (ok value, s)

  abbrev pub fail : {A : Type 0} → Fault → Step S A
  fail fault s = (err fault, s)

  -- A value that was computed without the state.
  abbrev pub lift : {A : Type 0} → Result A → Step S A
  lift r s = (r, s)

  -- A call that changes the state and cannot throw.
  abbrev pub change : (S → S) → Step S (Unit {0})
  change f s = (ok tt, f s)

  -- A call with a value that cannot throw.
  abbrev pub call : {A : Type 0} → (S → A × S) → Step S A
  call f s = (ok ((f s).0), (f s).1)

  abbrev pub continue_with : {A B : Type 0} → (A → Step S B) → Result A × S → Result B × S
  continue_with next (ok value, s) = next value s
  continue_with next (err fault, s) = (err fault, s)

  infixl 5 ◌>>=◌
  abbrev pub ◌>>=◌ : {A B : Type 0} (first : Step S A) (next : A → Step S B) → Step S B
  (first >>= next) s = continue_with next (first s)

  infixl 5 ◌>>◌
  abbrev pub ◌>>◌ : {A B : Type 0} (first : Step S A) (next : Step S B) → Step S B
  (first >> next) s = continue_with (λ value. next) (first s)

  unfoldable pub handle : {A : Type 0} → (ℕ → Step S A) → Result A × S → Result A × S
  handle handler (ok value, s) = (ok value, s)
  handle handler (err null_pointer, s) = (err null_pointer, s)
  handle handler (err uninitialised, s) = (err uninitialised, s)
  handle handler (err out_of_range, s) = (err out_of_range, s)
  handle handler (err length_error, s) = (err length_error, s)
  handle handler (err assertion, s) = (err assertion, s)
  handle handler (err out_of_fuel, s) = (err out_of_fuel, s)
  handle handler (err (exception e), s) = handler e s

  -- `try { ... } catch (VEOException &e) { ... }`; the handler gets the saved errno.
  unfoldable pub catching : {A : Type 0} → (ℕ → Step S A) → Step S A → Step S A
  unfolding handle
  catching handler body s = handle handler (body s)
