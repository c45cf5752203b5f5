-- ===== src/Attr/Tests.antt =====
-- Two sizes, the second of which is too small.
use veoffload.Base.{◌≤◌, ◌≡◌, true, none, some, [], ◌∷◌, pos, ok}
use veoffload.Attr.Object.{ThreadContextAttr, veo_stack_min, new_attr, api_get_stacksize}
use veoffload.Attr.History.{after_sets, get-after_sets}

get-after_sets_example :
    (attr : ThreadContextAttr) × (after_sets (8000000 ∷ 5 ∷ []) (some new_attr) ≡ ok (some attr))
    × (veo_stack_min ≤ attr.stacksize)
    × (api_get_stacksize (some attr) true ≡ (pos 0, none, some 8000000))
get-after_sets_example = get-after_sets (8000000 ∷ 5 ∷ [])
