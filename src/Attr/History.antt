-- ===== src/Attr/History.antt =====
-- The stack size after any number of calls.
use veoffload.Base.{
  ℕ, ◌≤◌, ◌≡◌, refl, inl, inr, true, false, Option, none, some, List, [], ◌∷◌, ltb, if◌then◌else◌,
  arith, Bool-cases, pos, negsuc, Result, ok, ◌>>=◌,
}
use veoffload.Attr.Object.{
  ThreadContextAttr, veo_default_stack_size, veo_stack_min, einval, new_attr, set_stacksize,
  api_set_stacksize, api_get_stacksize,
}

-- The attributes after a call of `veo_set_thr_ctxt_stacksize` for each size, whatever it returns.
unfoldable pub after_sets : List ℕ → Option ThreadContextAttr → Result (Option ThreadContextAttr)
after_sets [] a = ok a
after_sets (sz ∷ szs) a = do r ← api_set_stacksize a sz; after_sets szs r.attr

-- The last size that is large enough.
abbrev pub last_valid : ℕ → List ℕ → ℕ
last_valid sz [] = sz
last_valid sz (n ∷ ns) = last_valid (if ltb n veo_stack_min then sz else n) ns

set_small :
    (n : ℕ) (attr : ThreadContextAttr)
    → ltb n veo_stack_min ≡ true
    → api_set_stacksize (some attr) n
      ≡ ok (record { value = negsuc 0; errno = some einval; attr = some attr })
unfolding api_set_stacksize set_stacksize
set_small n attr small = rw (small, api_set_stacksize, set_stacksize) refl

set_large :
    (n : ℕ) (attr : ThreadContextAttr)
    → ltb n veo_stack_min ≡ false
    → api_set_stacksize (some attr) n
      ≡ ok (record { value = pos 0; errno = none; attr = some (record { stacksize = n }) })
unfolding api_set_stacksize set_stacksize
set_large n attr large = rw (large, api_set_stacksize, set_stacksize) refl

after_sets_lem :
    (szs : List ℕ) (sz : ℕ)
    → after_sets szs (some (record { stacksize = sz }))
      ≡ ok (some (record { stacksize = last_valid sz szs }))
unfolding after_sets
after_sets_lem [] sz = refl
after_sets_lem (n ∷ ns) sz = elim (Bool-cases (ltb n veo_stack_min)) [
  | inl small ↦ rw (set_small n (record { stacksize = sz }) small, small) (after_sets_lem ns sz)
  | inr large ↦ rw (set_large n (record { stacksize = sz }) large, large) (after_sets_lem ns n)
]

last_valid-min : (szs : List ℕ) (sz : ℕ) → veo_stack_min ≤ sz → veo_stack_min ≤ last_valid sz szs
last_valid-min [] sz h = h
last_valid-min (n ∷ ns) sz h = elim (Bool-cases (ltb n veo_stack_min)) [
  | inl small ↦ rw small (last_valid-min ns sz h)
  | inr large ↦ rw large (last_valid-min ns n (ground arith))
]

-- On a new attribute object, any sequence of calls of `veo_set_thr_ctxt_stacksize` ends with a stack size
-- of at least VEO_STACK_MIN: `veo_get_thr_ctxt_stacksize` then returns 0 and stores the last size of the
-- sequence that is not below VEO_STACK_MIN, or the default size if there is none.
pub get-after_sets :
    (szs : List ℕ)
    → (attr : ThreadContextAttr) × (after_sets szs (some new_attr) ≡ ok (some attr))
      × (veo_stack_min ≤ attr.stacksize)
      × (api_get_stacksize (some attr) true
          ≡ (pos 0, none, some (last_valid veo_default_stack_size szs)))
unfolding api_get_stacksize
get-after_sets szs = (
  record { stacksize = last_valid veo_default_stack_size szs },
  after_sets_lem szs veo_default_stack_size,
  last_valid-min szs veo_default_stack_size (omega arith),
  refl,
)
