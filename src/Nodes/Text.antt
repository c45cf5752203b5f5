-- ===== src/Nodes/Text.antt =====
-- `std::getline` over a string stream, and `std::stoi`. A character is its code.
use veoffload.Base.{
  ℕ, ◌+◌, ◌-◌, ◌*◌, ◌^◌, Bool, true, false, ◌&&◌, ◌||◌, Option, none, some, List, [], ◌∷◌, ◌++◌,
  leb, ◌==◌, if◌then◌else◌, ℤ, pos, negsuc,
}

abbrev pub space : ℕ
space = 32

-- The loop `while (std::getline(ss, buffer, ' '))`: `field` was read so far, and `any` tells whether
-- the current call has read anything. A call that meets the end before it reads anything fails.
unfoldable pub getline_all : (field : List ℕ) (any : Bool) → List ℕ → List (List ℕ)
getline_all field false [] = []
getline_all field true [] = field ∷ []
getline_all field any (c ∷ cs) = elim (c == space) [
  | true ↦ field ∷ getline_all [] false cs
  | false ↦ getline_all (field ++ c ∷ []) true cs
]

abbrev is_space : ℕ → Bool
is_space c = (c == space) || (leb 9 c && leb c 13)

abbrev is_digit : ℕ → Bool
is_digit c = leb 48 c && leb c 57

skip_space : List ℕ → List ℕ
skip_space [] = []
skip_space (c ∷ cs) = elim (is_space c) [ true ↦ skip_space cs | false ↦ c ∷ cs ]

digits : ℕ → List ℕ → ℕ
digits value [] = value
digits value (c ∷ cs) = elim (is_digit c) [
  | true ↦ digits (10 * value + (c - 48)) cs
  | false ↦ value
]

-- The number at the start of a text; there must be a digit.
magnitude : List ℕ → Option ℕ
unfolding digits
magnitude [] = none
magnitude (c ∷ cs) = if is_digit c then some (digits 0 (c ∷ cs)) else none

-- The value as an `int`, by its sign: `none` where `stoi` throws `std::out_of_range`.
abbrev as_positive : ℕ → Option ℤ
as_positive v = if leb v (2 ^ 31 - 1) then some (pos v) else none

abbrev as_negative : ℕ → Option ℤ
as_negative v =
    if v == 0 then some (pos 0) else if leb v (2 ^ 31) then some (negsuc (v - 1)) else none

signed : List ℕ → Option ℤ
unfolding magnitude
signed [] = none
signed (c ∷ cs) =
    if c == 45
    then elim (magnitude cs) [ none ↦ none | some v ↦ as_negative v ]
    else (elim (magnitude (if c == 43 then cs else c ∷ cs)) [
      | none ↦ none
      | some v ↦ as_positive v
    ])

-- `std::stoi`: `none` where it throws, of which `veo_proc_create_static` catches both kinds.
unfoldable pub stoi : List ℕ → Option ℤ
unfolding signed skip_space
stoi s = signed (skip_space s)
