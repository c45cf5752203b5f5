-- ===== src/Threads/Tally.antt =====
-- A value for each thread: changing one, and adding up a weight over the first `n`.
use veoffload.Base.{
  ℕ, zero, suc, ◌+◌, ◌≤◌, ◌<◌, ◌≡◌, refl, inl, inr, arith, ◌==◌, if◌then◌else◌, Bool-cases,
}

abbrev pub assign {ℓ} : {A : Type ℓ} → ℕ → A → (ℕ → A) → ℕ → A
assign i a f j = if i == j then a else f j

module _ {ℓ} {A : Type ℓ} (w : A → ℕ) where
  pub tally : ℕ → (ℕ → A) → ℕ
  tally zero f = 0
  tally (suc n) f = w (f n) + tally n f

  tally-beyond : (n i : ℕ) (a : A) (f : ℕ → A) → n ≤ i → tally n (assign i a f) ≡ tally n f
  unfolding tally
  tally-beyond zero i a f h = refl
  tally-beyond (suc n) i a f h = ground (arith, tally-beyond n i a f)

  pub tally-assign :
      (n i : ℕ) (a : A) (f : ℕ → A) → i < n → tally n (assign i a f) + w (f i) ≡ tally n f + w a
  unfolding tally
  tally-assign zero i a f h = elim h [ ]
  tally-assign (suc n) i a f h = elim (Bool-cases (i == n)) [
    | inl last ↦ ground (arith, tally-beyond n i a f)
    | inr other ↦ ground (arith, tally-assign n i a f)
  ]

  pub tally-zero : (n : ℕ) (f : ℕ → A) → ((i : ℕ) → w (f i) ≡ 0) → tally n f ≡ 0
  unfolding tally
  tally-zero zero f h = refl
  tally-zero (suc n) f h = omega (arith, h n, tally-zero n f h)
