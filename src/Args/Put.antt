-- ===== src/Args/Put.antt =====
-- `set` and `setOnStack`: which argument they write, and what an argument number may be.
use veoffload.Base.{
  ℕ, zero, suc, ◌+◌, ◌-◌, ◌≤◌, ◌<◌, ◌≡◌, refl, ap, ◌∙◌, ◌≢◌, Option, none, some, List, [], ◌∷◌,
  ◌++◌, arith, length, get_elem?, set, replicate, length-append, length-replicate, ok, err, pos,
  negsuc, out_of_range, length_error, ◌⊎◌, inl, inr,
}
use veoffload.Args.Image.{Arg}
use veoffload.Args.Setup.{CallArgs, grow, put}

module _ {ℓ} {A : Type ℓ} where
  length-set : (xs : List A) (i : ℕ) (v : A) → length (set xs i v) ≡ length xs
  length-set [] i v = refl
  length-set (x ∷ xs) zero v = refl
  length-set (x ∷ xs) (suc i) v = ap suc (length-set xs i v)

  get-set_self : (xs : List A) (i : ℕ) (v : A) → i < length xs → get_elem? (set xs i v) i ≡ some v
  get-set_self [] i v h = elim h [ ]
  get-set_self (x ∷ xs) zero v h = refl
  get-set_self (x ∷ xs) (suc i) v h = get-set_self xs i v (omega arith)

  get-set_ne : (xs : List A) (i j : ℕ) (v : A) → i ≢ j → get_elem? (set xs i v) j ≡ get_elem? xs j
  get-set_ne [] i j v h = refl
  get-set_ne (x ∷ xs) zero zero v h = absurd (h refl)
  get-set_ne (x ∷ xs) zero (suc j) v h = refl
  get-set_ne (x ∷ xs) (suc i) zero v h = refl
  get-set_ne (x ∷ xs) (suc i) (suc j) v h = get-set_ne xs i j v (λ e. h (ap suc e))

  get-append_left :
      (xs ys : List A) (j : ℕ) → j < length xs → get_elem? (xs ++ ys) j ≡ get_elem? xs j
  get-append_left [] ys j h = elim h [ ]
  get-append_left (x ∷ xs) ys zero h = refl
  get-append_left (x ∷ xs) ys (suc j) h = get-append_left xs ys j (omega arith)

length-grow : (n : ℕ) (xs : List (Option Arg)) → n ≤ length (grow n xs)
unfolding grow
length-grow n xs = ground (
  arith,
  length-append xs (replicate (n - length xs) none),
  length-replicate {A = Option Arg} (n - length xs) none,
)

get-grow :
    (n j : ℕ) (xs : List (Option Arg)) → j < length xs → get_elem? (grow n xs) j ≡ get_elem? xs j
unfolding grow
get-grow n j xs h = ground (arith, get-append_left xs (replicate (n - length xs) none) j)

-- For an argument number from 0 on, `set` and `setOnStack` succeed: the argument of that number is the
-- new one, and an argument of any other number that was there is unchanged.
pub put_lem :
    (n j : ℕ) (x : Arg) (a : CallArgs)
    → n ≢ j
    → j < length a.arguments
    → (c : CallArgs) × (put (pos n) x a ≡ ok c)
      × (get_elem? c.arguments n ≡ some (some x))
      × (get_elem? c.arguments j ≡ get_elem? a.arguments j)
unfolding put
put_lem n j x a other h =
    let args = grow (n + 1) a.arguments in
    (
      record a { arguments = set args n (some x) },
      refl,
      get-set_self args n (some x) (omega (arith, length-grow (n + 1) a.arguments)),
      get-set_ne args n j (some x) other ∙ get-grow (n + 1) j a.arguments h,
    )

-- A negative argument number is not refused as the API's -1 would tell: -1 writes out of range, and
-- any lower number throws `std::length_error`.
pub put_negative :
    (k : ℕ) (x : Arg) (a : CallArgs)
    → (put (negsuc k) x a ≡ err out_of_range) ⊎ (put (negsuc k) x a ≡ err length_error)
unfolding put
put_negative zero x a = inl refl
put_negative (suc k) x a = inr refl
