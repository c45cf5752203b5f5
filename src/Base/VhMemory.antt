-- ===== src/Base/VhMemory.antt =====
-- The VH process's memory: a byte at each address. Buffers are addresses, so they may alias.
use Prim.Native.Nat.{ℕ, zero, suc, ◌+◌}
use mathlib.Core.Path.{◌≡◌, refl, ap}
use mathlib.Core.List.{List, [], ◌∷◌}
use veoffload.Base.Tests.{◌==◌, if◌then◌else◌}
use veoffload.Base.Lists.{length}

abbrev pub Memory : Type 0
Memory = ℕ → ℕ

abbrev pub load : Memory → ℕ → ℕ → List ℕ
load m a zero = []
load m a (suc n) = m a ∷ load m (a + 1) n

abbrev pub store_byte : Memory → ℕ → ℕ → Memory
store_byte m a v b = if a == b then v else m b

abbrev pub store : Memory → ℕ → List ℕ → Memory
store m a [] = m
store m a (v ∷ vs) = store (store_byte m a v) (a + 1) vs

pub length-load : (m : Memory) (a n : ℕ) → length (load m a n) ≡ n
length-load m a zero = refl
length-load m a (suc n) = ap suc (length-load m (a + 1) n)
