-- ===== src/Spawn/Node.antt =====
-- The node number in the name of the socket of VEOS.
use veoffload.Base.{
  ℕ, ◌+◌, ◌-◌, ◌*◌, ◌^◌, ◌≤◌, ◌<◌, ◌≡◌, refl, ◌∙◌, true, false, List, [], ◌∷◌, ◌++◌, ltb, ◌==◌, ok,
  arith,
}
use veoffload.Spawn.Area.{is_digit, node_num, get_ve_node_num}

-- The number that decimal digits stand for, after `n`.
abbrev pub of_digits : ℕ → List ℕ → ℕ
of_digits n [] = n
of_digits n (c ∷ cs) = of_digits (10 * n + (c - 48)) cs

abbrev pub AllDigits : List ℕ → Type 0
AllDigits [] = Unit {0}
AllDigits (c ∷ cs) = (is_digit c ≡ true) × AllDigits cs

-- Neither a digit nor a dot.
abbrev pub NoDigits : List ℕ → Type 0
NoDigits [] = Unit {0}
NoDigits (c ∷ cs) = (is_digit c ≡ false) × ((c == 46) ≡ false) × NoDigits cs

skip_lem : (n : ℕ) (xs ys : List ℕ) → NoDigits xs → node_num n (xs ++ ys) ≡ node_num n ys
unfolding node_num
skip_lem n [] ys plain = refl
skip_lem n (c ∷ cs) ys (other, dot, plain) = rw (other, dot) (skip_lem n cs ys plain)

of_digits_grows : (n : ℕ) (ds : List ℕ) → n ≤ of_digits n ds
of_digits_grows n [] = omega arith
of_digits_grows n (c ∷ cs) = omega (arith, of_digits_grows (10 * n + (c - 48)) cs)

digits_lem :
    (n : ℕ) (ds rest : List ℕ)
    → AllDigits ds
    → of_digits n ds < 2 ^ 31
    → node_num n (ds ++ 46 ∷ rest) ≡ ok (of_digits n ds)
unfolding node_num
digits_lem n [] rest all small = refl
digits_lem n (c ∷ cs) rest (digit, all) small =
    let next = 10 * n + (c - 48) in
    let fits : ltb next (2 ^ 31) ≡ true =
      (let grows : next ≤ of_digits next cs = of_digits_grows next cs in ground arith) in
    rw (digit, fits) (digits_lem next cs rest all small)

-- In a name that has neither a digit nor a dot before its first number, and a dot after it, the number
-- of the node is that number, if it fits an `int`; what follows the dot plays no part.
pub get_ve_node_num_lem :
    (prefix ds rest : List ℕ)
    → NoDigits prefix
    → AllDigits ds
    → of_digits 0 ds < 2 ^ 31
    → get_ve_node_num (prefix ++ (ds ++ 46 ∷ rest)) ≡ ok (of_digits 0 ds)
unfolding get_ve_node_num
get_ve_node_num_lem prefix ds rest plain all small =
    skip_lem 0 prefix (ds ++ 46 ∷ rest) plain ∙ digits_lem 0 ds rest all small
