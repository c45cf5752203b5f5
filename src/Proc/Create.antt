-- ===== src/Proc/Create.antt =====
-- The constructor of `ProcHandle`, with `waitForBlock`.
use veoffload.Base.{
  ℕ, List, [], ◌∷◌, ◌==◌, if◌then◌else◌, Option, none, some, ℤ, negsuc, Result, ok, err, exception,
}
use veoffload.Steps.{Step, give, ◌>>=◌}
use veoffload.Context.State.{Context}
use veoffload.Execution.Driver.{Driver, World}
use veoffload.Execution.Exceptions.{Handled, execute_ve, is_block_request}
use veoffload.Nodes.Text.{stoi}
use veoffload.Spawn.Host.{Host}
use veoffload.Proc.Handle.{Functions}

-- What the constructor needs besides: `veos_handle_create`, with errno where it gives a null pointer,
-- and `veos_handle_free`; the counter of libvepseudo; and the versions, sizes and layout of veorun.h.
pub record Creator (D : Type 0) : Type 0 where
  pub host : Host D
  pub os : Driver D
  pub handle_create : D → Option ℕ × D
  pub handle_free : D → D
  pub tid_counter : D → ℕ
  pub version2 : ℕ
  pub version3 : ℕ
  pub version4 : ℕ
  pub size2 : ℕ
  pub size3 : ℕ
  pub size4 : ℕ
  pub decode : List ℕ → Functions

-- `proc_no`, the main thread with what it shares with the others, and the context of the worker.
pub record Creation (D : Type 0) : Type 0 where
  pub proc_no : ℕ
  pub main : World D
  pub worker : Option Context

-- The rest of a text after a prefix.
unfoldable pub after_prefix : List ℕ → List ℕ → Option (List ℕ)
after_prefix [] s = some s
after_prefix (c ∷ cs) [] = none
after_prefix (c ∷ cs) (d ∷ ds) = let rest = after_prefix cs ds in if c == d then rest else none

-- "/dev/veslot".
abbrev pub veslot : List ℕ
veslot = 47 ∷ 100 ∷ 101 ∷ 118 ∷ 47 ∷ 118 ∷ 101 ∷ 115 ∷ 108 ∷ 111 ∷ 116 ∷ []

-- `ve_number`, by `sscanf`; -1 where it does not match. For a number that does not fit an `int`, which
-- the language leaves undefined, this gives -1 too.
unfoldable pub find_ve_number : List ℕ → ℤ
find_ve_number vedev = elim (after_prefix veslot vedev) [
  | none ↦ negsuc 0
  | some rest ↦ (elim (stoi rest) [ none ↦ negsuc 0 | some n ↦ n ])
]

module _ {D : Type 0} (c : Creator D) where
  -- A block on the state of the VE, within one on the whole state.
  unfoldable pub on_ve : {A : Type 0} → Step D A → Step (Creation D) A
  on_ve m s = let r = m s.main.ve in (r.0, record s { main = record s.main { ve = r.1 } })

  -- A function of the pseudo thread on the main thread. Where it throws, the constructor ends, and the
  -- state is given as it was before.
  unfoldable pub keep_world :
      {A : Type 0} → Creation D → Result (A × World D) → Result A × Creation D
  keep_world s (ok (a, w)) = (ok a, record s { main = w })
  keep_world s (err fault) = (err fault, s)

  unfoldable pub on_main : {A : Type 0} → (World D → Result (A × World D)) → Step (Creation D) A
  unfolding keep_world
  on_main f s = keep_world s (f s.main)

  -- A throw with the present errno.
  unfoldable pub throw_errno : {A : Type 0} → Step (Creation D) A
  throw_errno s = (err (exception (c.os.errno s.main.ve)), s)

  -- The status of a handler, with its EXS value, beside the state.
  unfoldable pub as_pair : Result (Handled c.os) → Result (Handled c.os × World D)
  as_pair (ok h) = ok (h, h.world)
  as_pair (err fault) = err fault

  unfoldable pub just_world : Result (World D) → Result (Unit {0} × World D)
  just_world (ok w) = ok (tt, w)
  just_world (err fault) = err fault

  -- `waitForBlock`.
  unfoldable pub wait_for_block : (patience fuel exs : ℕ) → Step (Creation D) (Unit {0})
  wait_for_block patience fuel exs = do
    h ← on_main (λ w. as_pair (execute_ve c.os patience fuel exs w))
    if is_block_request c.os h then give tt else throw_errno
