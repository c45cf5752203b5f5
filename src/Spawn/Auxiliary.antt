-- ===== src/Spawn/Auxiliary.antt =====
-- The array of environment variables and auxiliary vectors that `spawn_helper` builds.
use veoffload.Base.{ℕ, zero, suc, ◌+◌, ◌-◌, ◌*◌, List, [], ◌∷◌, ◌++◌, ◌==◌, if◌then◌else◌, length}
use veoffload.Context.State.{contains}

-- The cases of the switch: AT_EXECFD, AT_PHDR, AT_PHENT, AT_PHNUM, AT_PAGESZ, AT_BASE, AT_FLAGS,
-- AT_ENTRY, AT_UID, AT_EUID, AT_GID, AT_EGID, AT_PLATFORM, AT_CLKTCK, AT_SECURE, AT_RANDOM and
-- AT_EXECFN on Linux, and AT_QUICKCALL_VADDR of VEOS.
abbrev pub auxv_types : ℕ → List ℕ
auxv_types at_quickcall_vaddr =
    2 ∷ 3 ∷ 4 ∷ 5 ∷ 6 ∷ 7 ∷ 8 ∷ 9 ∷ 11 ∷ 12 ∷ 13 ∷ 14 ∷ 15 ∷ 17 ∷ 23 ∷ 25 ∷ 31 ∷ at_quickcall_vaddr
    ∷ []

-- What one round of the loop over the types stores.
unfoldable pub auxv_entry : (getauxval : ℕ → ℕ) → (at_quickcall_vaddr auxv_type : ℕ) → List ℕ
auxv_entry getauxval at_quickcall_vaddr auxv_type =
    if contains auxv_type (auxv_types at_quickcall_vaddr)
    then (if getauxval auxv_type == 0 then [] else auxv_type ∷ getauxval auxv_type ∷ [])
    else []

-- The loop, for the number of rounds and the first type.
unfoldable pub auxv_entries :
    (getauxval : ℕ → ℕ) → (at_quickcall_vaddr rounds auxv_type : ℕ) → List ℕ
auxv_entries getauxval at_quickcall_vaddr zero auxv_type = []
auxv_entries getauxval at_quickcall_vaddr (suc rounds) auxv_type =
    auxv_entry getauxval at_quickcall_vaddr auxv_type
    ++ auxv_entries getauxval at_quickcall_vaddr rounds (auxv_type + 1)

-- The length that the array is declared with.
unfoldable pub env_num : List ℕ → ℕ
env_num environ = length environ + (1 + 2 * (32 - 1) + 1)

-- What is stored into the array, from its start: pointers and numbers. `environ` is without the null
-- pointer at its end.
unfoldable pub env_array : (getauxval : ℕ → ℕ) → (at_quickcall_vaddr : ℕ) → List ℕ → List ℕ
env_array getauxval at_quickcall_vaddr environ =
    environ ++ 0 ∷ (auxv_entries getauxval at_quickcall_vaddr 31 1 ++ 0 ∷ [])
