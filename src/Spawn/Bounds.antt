-- ===== src/Spawn/Bounds.antt =====
-- The array of `spawn_helper` is long enough.
use veoffload.Base.{
  ℕ, zero, suc, ◌+◌, ◌*◌, ◌≤◌, List, [], ◌∷◌, ◌++◌, length, length-append, arith, Bool-cases, inl,
  inr, ◌==◌,
}
use veoffload.Context.State.{contains}
use veoffload.Spawn.Auxiliary.{auxv_types, auxv_entry, auxv_entries, env_num, env_array}

module _ (getauxval : ℕ → ℕ) (at_quickcall_vaddr : ℕ) where
  length-auxv_entry : (t : ℕ) → length (auxv_entry getauxval at_quickcall_vaddr t) ≤ 2
  unfolding auxv_entry
  length-auxv_entry t = elim (Bool-cases (contains t (auxv_types at_quickcall_vaddr))) [
    | inl listed ↦ elim (Bool-cases (getauxval t == 0)) [
      | inl missing ↦ rw (listed, missing) (omega arith)
      | inr present ↦ rw (listed, present) (omega arith)
    ]
    | inr other ↦ rw other (omega arith)
  ]

  length-auxv_entries :
      (rounds t : ℕ) → length (auxv_entries getauxval at_quickcall_vaddr rounds t) ≤ 2 * rounds
  unfolding auxv_entries
  length-auxv_entries zero t = omega arith
  length-auxv_entries (suc rounds) t =
      rw
        (length-append (auxv_entry getauxval at_quickcall_vaddr t)
          (auxv_entries getauxval at_quickcall_vaddr rounds (t + 1)))
        (omega (arith, length-auxv_entry t, length-auxv_entries rounds (t + 1)))

  -- Whatever the environment and the auxiliary vector of the process are, what `spawn_helper` stores
  -- into its array of environment variables and auxiliary vectors fits the declared length.
  pub length-env_array :
      (environ : List ℕ) → length (env_array getauxval at_quickcall_vaddr environ) ≤ env_num environ
  unfolding env_array env_num
  length-env_array environ =
      let entries = auxv_entries getauxval at_quickcall_vaddr 31 1 in
      rw (length-append environ (0 ∷ (entries ++ 0 ∷ [])), length-append entries (0 ∷ []))
        (omega (arith, length-auxv_entries 31 1))
