-- ===== src/Execution/Clone.antt =====
-- `handleCloneRequest`, on the side of the parent.
use veoffload.Base.{
  ℕ, zero, suc, Bool, true, false, ◌==◌, if◌then◌else◌, ℤ, pos, negsuc, err, exception, assertion,
  out_of_fuel,
}
use veoffload.Steps.{Step, give, fail, change, call, ◌>>=◌, ◌>>◌}
use veoffload.Execution.Driver.{Driver}
use veoffload.Execution.Exceptions.{eintr}

abbrev pub is_negative : ℤ → Bool
is_negative (pos n) = false
is_negative (negsuc n) = true

module _ {D : Type 0} (os : Driver D) where
  -- The loop around `sem_wait`, on fuel.
  unfoldable pub await_child : ℕ → Step D (Unit {0})
  await_child zero = fail out_of_fuel
  await_child (suc fuel) = do
    r ← call os.sem_wait
    elim (r.0 == 0) [
      | true ↦ change os.sem_destroy
      | false ↦ (elim (r.1 == eintr) [ true ↦ await_child fuel | false ↦ fail assertion ])
    ]

  -- `handleCloneRequest`: the thread ID, or a negative number.
  unfoldable pub clone_child : ℕ → Step D ℤ
  clone_child fuel = do
    tid ← call os.do_clone
    if is_negative tid then give tid else (do await_child fuel; give tid)

  unfoldable pub handle_clone_request : ℕ → Step D ℤ
  handle_clone_request fuel = do
    bad ← call os.sem_init
    if bad == 0 then clone_child fuel else (λ d. (err (exception (os.errno d)), d))
