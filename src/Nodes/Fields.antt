-- ===== src/Nodes/Fields.antt =====
-- The fields of a list of nodes that is written with one space between two of them.
use veoffload.Base.{
  ℕ, zero, suc, ◌≤◌, leb, length, get_elem?, Bool-cases, inl, inr, ◌≡◌, refl, ◌∙◌, ap, ◌≢◌, sym,
  Bool, true, false, Option, none, some, List, [], ◌∷◌, ◌++◌, ◌==◌, arith, append_assoc, append-nil,
  pos,
}
use veoffload.Nodes.Text.{space, getline_all, stoi}
use veoffload.Nodes.Select.{select_node, select_assigned, node_at}

abbrev pub HasNoSpace : List ℕ → Type 0
HasNoSpace [] = Unit {0}
HasNoSpace (c ∷ cs) = (c ≢ space) × HasNoSpace cs

-- A field: at least one character, none of them a space.
abbrev pub IsField : List ℕ → Type 0
IsField [] = true ≡ false
IsField (c ∷ cs) = HasNoSpace (c ∷ cs)

abbrev pub AllFields : List (List ℕ) → Type 0
AllFields [] = Unit {0}
AllFields (f ∷ fs) = IsField f × AllFields fs

abbrev pub joined : List (List ℕ) → List ℕ
joined [] = []
joined (f ∷ []) = f
joined (f ∷ (g ∷ gs)) = f ++ space ∷ joined (g ∷ gs)

read_char :
    (field cs : List ℕ) (any : Bool) (c : ℕ)
    → c ≢ space
    → getline_all field any (c ∷ cs) ≡ getline_all (field ++ c ∷ []) true cs
unfolding getline_all
read_char field cs false c h =
    let other : (c == space) ≡ false = ground arith in rw (other, getline_all) refl
read_char field cs true c h =
    let other : (c == space) ≡ false = ground arith in rw (other, getline_all) refl

-- Reading on through characters that are not spaces.
read_on :
    (field cs rest : List ℕ) (any : Bool) (c : ℕ)
    → HasNoSpace (c ∷ cs)
    → getline_all field any (c ∷ cs ++ rest) ≡ getline_all (field ++ c ∷ cs) true rest
read_on field [] rest any c h = read_char field rest any c h.0
read_on field (d ∷ cs) rest any c h =
    read_char field (d ∷ cs ++ rest) any c h.0
    ∙ read_on (field ++ c ∷ []) cs rest true d h.1
    ∙ ap (λ f. getline_all f true rest) (append_assoc field (c ∷ []) (d ∷ cs))

read_field :
    (f rest : List ℕ) → IsField f → getline_all [] false (f ++ rest) ≡ getline_all f true rest
read_field [] rest h = absurd cc
read_field (c ∷ cs) rest h = read_on [] cs rest false c h

get-past : (fs : List (List ℕ)) (n : ℕ) → length fs ≤ n → get_elem? fs n ≡ none
get-past [] n h = refl
get-past (f ∷ fs) zero h = absurd (omega arith)
get-past (f ∷ fs) (suc n) h = get-past fs n (omega arith)

node_at_lem :
    (fs : List (List ℕ)) (n : ℕ)
    → node_at fs n ≡ (elim (get_elem? fs n) [ none ↦ none | some s ↦ stoi s ])
unfolding node_at
node_at_lem fs n = elim (Bool-cases (leb (length fs) n)) [
  | inl past ↦ let out = get-past fs n (ground arith) in rw (past, out, node_at) refl
  | inr inside ↦ rw (inside, node_at) refl
]

-- Reading the lines of a joined text gives its fields back.
pub getline_all-joined : (fs : List (List ℕ)) → AllFields fs → getline_all [] false (joined fs) ≡ fs
unfolding getline_all
getline_all-joined [] h = refl
getline_all-joined (f ∷ []) h = ap (getline_all [] false) (sym (append-nil f)) ∙ read_field f [] h.0
getline_all-joined (f ∷ (g ∷ gs)) h =
    read_field f (space ∷ joined (g ∷ gs)) h.0 ∙ ap (◌∷◌ f) (getline_all-joined (g ∷ gs) h.1)

-- Where _VENODELIST holds fields with a space between two of them, a VE node number from 0 on is
-- translated to the number in the field at that place; past the end there is no node.
pub select_node-joined :
    (fs : List (List ℕ)) (number : Option (List ℕ)) (n : ℕ)
    → AllFields fs
    → select_node (some (joined fs)) number (pos n)
      ≡ (elim (get_elem? fs n) [ none ↦ none | some s ↦ stoi s ])
unfolding select_node select_assigned
select_node-joined fs none n h = rw (getline_all-joined fs h) (node_at_lem fs n)
select_node-joined fs (some number) n h = rw (getline_all-joined fs h) (node_at_lem fs n)
