-- ===== src/Nodes/Assigned.antt =====
-- The node that is chosen is one that the scheduler assigned.
use veoffload.Base.{
  ℕ, zero, suc, ◌≡◌, ◌⊎◌, inl, inr, true, false, Option, none, some, List, [], ◌∷◌, get_elem?, ℤ,
  pos, negsuc, arith, Option-cases, Bool-cases, ap, ◌∙◌,
}
use veoffload.Nodes.Text.{getline_all, stoi}
use veoffload.Nodes.Select.{
  same_int, is_assigned, from_number, first_node, node_at, select_assigned, select_node,
}

-- Some field of the list stands for the node.
abbrev pub IsListed : ℤ → List (List ℕ) → Type 0
IsListed k [] = true ≡ false
IsListed k (s ∷ ss) = (stoi s ≡ some k) ⊎ IsListed k ss

same_int_lem : (a b : ℤ) → same_int a b ≡ true → a ≡ b
same_int_lem (pos a) (pos b) e = let same : a ≡ b = ground arith in ap pos same
same_int_lem (pos a) (negsuc b) e = cc
same_int_lem (negsuc a) (pos b) e = cc
same_int_lem (negsuc a) (negsuc b) e = let same : a ≡ b = ground arith in ap negsuc same

is_assigned-IsListed : (k : ℤ) (ss : List (List ℕ)) → is_assigned k ss ≡ some true → IsListed k ss
unfolding is_assigned
is_assigned-IsListed k [] e = cc
is_assigned-IsListed k (s ∷ ss) e = elim (Option-cases (stoi s)) [
  | inl thrown ↦ absurd (ground arith)
  | inr (n, got) ↦ elim (Bool-cases (same_int n k)) [
    | inl same ↦ inl (got ∙ ap some (same_int_lem n k same))
    | inr other ↦ inr (is_assigned-IsListed k ss (ground arith))
  ]
]

get-IsListed :
    (ss : List (List ℕ)) (n : ℕ) (s : List ℕ) (k : ℤ)
    → get_elem? ss n ≡ some s
    → stoi s ≡ some k
    → IsListed k ss
get-IsListed [] n s k g e = cc
get-IsListed (t ∷ ts) zero s k g e = let same : t ≡ s = cc in inl (rw same e)
get-IsListed (t ∷ ts) (suc n) s k g e = inr (get-IsListed ts n s k g e)

node_at-IsListed : (v : List (List ℕ)) (n : ℕ) (k : ℤ) → node_at v n ≡ some k → IsListed k v
unfolding node_at
node_at-IsListed v n k e = elim (Option-cases (get_elem? v n)) [
  | inl missing ↦ absurd (ground arith)
  | inr (s, g) ↦ get-IsListed v n s k g (ground arith)
]

from_number-IsListed :
    (v : List (List ℕ)) (number : List ℕ) (k : ℤ) → from_number v number ≡ some k → IsListed k v
unfolding from_number
from_number-IsListed v number k e =
    let same : is_assigned k v ≡ some true = ground arith in is_assigned-IsListed k v same

select_assigned-IsListed :
    (v : List (List ℕ)) (number : Option (List ℕ)) (venode k : ℤ)
    → select_assigned v number venode ≡ some k
    → IsListed k v
unfolding select_assigned first_node
select_assigned-IsListed v none (pos n) k e = node_at-IsListed v n k e
select_assigned-IsListed v (some number) (pos n) k e = node_at-IsListed v n k e
select_assigned-IsListed [] none (negsuc zero) k e = cc
select_assigned-IsListed (s ∷ ss) none (negsuc zero) k e = inl e
select_assigned-IsListed v (some number) (negsuc zero) k e = from_number-IsListed v number k e
select_assigned-IsListed v none (negsuc (suc j)) k e = cc
select_assigned-IsListed v (some number) (negsuc (suc j)) k e = cc

-- While _VENODELIST is set, whatever `venode` and VE_NODE_NUMBER say, a process is only created on a
-- node that a field of _VENODELIST names.
pub select_node-IsListed :
    (nodes : List ℕ) (number : Option (List ℕ)) (venode k : ℤ)
    → select_node (some nodes) number venode ≡ some k
    → IsListed k (getline_all [] false nodes)
unfolding select_node
select_node-IsListed nodes number venode k e =
    select_assigned-IsListed (getline_all [] false nodes) number venode k e
