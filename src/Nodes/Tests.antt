-- ===== src/Nodes/Tests.antt =====
-- Concrete environments: the nodes "3 12".
use veoffload.Base.{ℕ, false, ◌≡◌, refl, some, List, [], ◌∷◌, pos, negsuc}
use veoffload.Nodes.Text.{getline_all, stoi}
use veoffload.Nodes.Select.{select_node, select_assigned, from_number, is_assigned}
use veoffload.Nodes.Fields.{joined}
use veoffload.Nodes.Assigned.{IsListed, select_node-IsListed}

abbrev nodes : List (List ℕ)
nodes = (51 ∷ []) ∷ (49 ∷ 50 ∷ []) ∷ []

-- VE_NODE_NUMBER is "12", and `venode` is -1.
select_twelve : select_node (some (joined nodes)) (some (49 ∷ 50 ∷ [])) (negsuc 0) ≡ some (pos 12)
unfolding select_node select_assigned from_number is_assigned getline_all stoi
select_twelve = refl

select_node-IsListed_example : IsListed (pos 12) (getline_all [] false (joined nodes))
select_node-IsListed_example =
    select_node-IsListed (joined nodes) (some (49 ∷ 50 ∷ [])) (negsuc 0) (pos 12) select_twelve
