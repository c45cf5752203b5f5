-- ===== src/Base/Faults.antt =====
-- What a piece of C++ code ends in: a value, a throw, an abort, or undefined behaviour.
use Prim.Native.Nat.{ℕ}
use mathlib.Core.Path.{◌≡◌, refl}
use mathlib.Core.Bool.{Bool, true, false}

-- `null_pointer`, `uninitialised` and `out_of_range` are undefined behaviour in the source, except
-- that `out_of_range` is also what `std::string::replace` throws; `length_error` is what
-- `std::vector::resize` throws; `assertion` is the abort of `VEO_ASSERT`; `exception e` is a
-- `VEOException` whose saved errno is `e`. `out_of_fuel` belongs to the model alone: a loop of the
-- source was cut off.
pub data Fault : Type 0 where
  null_pointer uninitialised out_of_range length_error assertion : Fault
  out_of_fuel : Fault
  exception : ℕ → Fault

pub data Result {ℓ} (A : Type ℓ) : Type ℓ where
  ok : A → Result A
  err : Fault → Result A

-- Statement after statement, where the first has no value.
infixl 5 ◌>>◌
abbrev pub ◌>>◌ {κ} : {B : Type κ} → Result (Unit {0}) → Result B → Result B
ok u >> next = next
err fault >> next = err fault

-- The rest of a block gets the value; a fault ends the block.
infixl 5 ◌>>=◌
abbrev pub ◌>>=◌ {κ ℓ} : {A : Type κ} {B : Type ℓ} (m : Result A) (next : A → Result B) → Result B
ok value >>= next = next value
err fault >>= next = err fault

-- `VEO_ASSERT` (src/libveo/log.hpp).
abbrev pub veo_assert : Bool → Result (Unit {0})
veo_assert true = ok tt
veo_assert false = err assertion

pub ok_inj {ℓ} : {A : Type ℓ} {a b : A} → (ok a ≡ ok b) → a ≡ b
ok_inj e = cc

-- Where a chain gives a value, the block after its first step does.
pub then-ok {ℓ} :
    {B : Type ℓ} (first : Result (Unit {0})) (next : Result B) (b : B)
    → (first >> next) ≡ ok b
    → next ≡ ok b
then-ok (ok u) next b e = e
then-ok (err fault) next b e = cc

-- A chain that gives a value gave one at its first step.
pub bind-ok {κ ℓ} :
    {A : Type κ} {B : Type ℓ} (m : Result A) (next : A → Result B) (last : B)
    → (m >>= next) ≡ ok last
    → (first : A) × (m ≡ ok first) × (next first ≡ ok last)
bind-ok (ok first) next last same = (first, refl, same)
bind-ok (err fault) next last same = cc
