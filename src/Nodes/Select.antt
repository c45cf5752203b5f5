-- ===== src/Nodes/Select.antt =====
-- `veo_proc_create_static` up to the call that creates the process.
use veoffload.Base.{
  ℕ, zero, suc, Bool, true, false, Option, none, some, List, [], ◌∷◌, leb, ◌==◌, if◌then◌else◌,
  length, get_elem?, ℤ, pos, negsuc,
}
use veoffload.Nodes.Text.{getline_all, stoi}

abbrev pub same_int : ℤ → ℤ → Bool
same_int (pos a) (pos b) = a == b
same_int (pos a) (negsuc b) = false
same_int (negsuc a) (pos b) = false
same_int (negsuc a) (negsuc b) = a == b

-- The loop that looks for the node in the list: `none` where `stoi` throws.
unfoldable pub is_assigned : ℤ → List (List ℕ) → Option Bool
is_assigned venode [] = some false
is_assigned venode (s ∷ ss) = elim (stoi s) [
  | none ↦ none
  | some n ↦ elim (same_int n venode) [ true ↦ some true | false ↦ is_assigned venode ss ]
]

-- The node that VE_NODE_NUMBER names, if it is in the list.
unfoldable pub from_number : List (List ℕ) → List ℕ → Option ℤ
from_number v number = elim (stoi number) [
  | none ↦ none
  | some venode ↦ elim (is_assigned venode v) [
    | none ↦ none
    | some found ↦ if found then some venode else none
  ]
]

-- The first node of the list.
unfoldable pub first_node : List (List ℕ) → Option ℤ
first_node [] = none
first_node (s ∷ ss) = stoi s

-- The node at a place of the list. The size of the list is taken to fit in an `int`.
unfoldable pub node_at : List (List ℕ) → ℕ → Option ℤ
node_at v venode =
    if leb (length v) venode
    then none
    else elim (get_elem? v venode) [ none ↦ none | some s ↦ stoi s ]

-- With the nodes that the scheduler assigned, and VE_NODE_NUMBER if it is set. `negsuc 0` is -1.
unfoldable pub select_assigned : List (List ℕ) → Option (List ℕ) → ℤ → Option ℤ
select_assigned v number (pos n) = node_at v n
select_assigned v none (negsuc zero) = first_node v
select_assigned v (some number) (negsuc zero) = from_number v number
select_assigned v number (negsuc (suc k)) = none

unfoldable pub select_free : Option (List ℕ) → ℤ → Option ℤ
select_free number (pos n) = some (pos n)
select_free none (negsuc zero) = some (pos 0)
select_free (some number) (negsuc zero) = stoi number
select_free number (negsuc (suc k)) = none

-- The node for `venode`, by _VENODELIST and VE_NODE_NUMBER: `none` where the function returns NULL.
unfoldable pub select_node : Option (List ℕ) → Option (List ℕ) → ℤ → Option ℤ
select_node none number venode = select_free number venode
select_node (some nodes) number venode = select_assigned (getline_all [] false nodes) number venode
