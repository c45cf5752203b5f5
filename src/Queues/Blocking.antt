-- ===== src/Queues/Blocking.antt =====
-- `Command` and `BlockingQueue`. The functions that take the lock are one step each. The handler of a
-- command (`CommandImpl`) is of any type `T`.
use veoffload.Base.{
  ℕ, Option, none, some, List, [], ◌∷◌, ◌++◌, ◌==◌, if◌then◌else◌, Result, ok, err, uninitialised,
}

-- `enum veo_command_state`.
pub data CommandStatus : Type 0 where
  command_ok command_exception command_error command_unfinished : CommandStatus

-- `enum veo_queue_state`.
pub data QueueStatus : Type 0 where
  queue_ready queue_closed : QueueStatus

-- `retval` and `status` are not set by the constructor: `none` until `setResult`.
pub record Command (T : Type 0) : Type 0 where
  pub msgid : ℕ
  pub handler : T
  pub result : Option (ℕ × CommandStatus)

module _ {T : Type 0} where
  abbrev pub new_command : ℕ → T → Command T
  new_command id h = record { msgid = id; handler = h; result = none }

  abbrev pub set_result : ℕ → CommandStatus → Command T → Command T
  set_result r s c = record c { result = some (r, s) }

  -- `getRetval` and `getStatus`, which every caller reads together.
  abbrev pub get_result : Command T → Result (ℕ × CommandStatus)
  get_result c = elim c.result [ none ↦ err uninitialised | some r ↦ ok r ]

pub record BlockingQueue (T : Type 0) : Type 0 where
  pub queue : List (Command T)
  pub status : QueueStatus

module _ {T : Type 0} where
  abbrev pub empty_queue : BlockingQueue T
  empty_queue = record { queue = []; status = queue_ready }

  unfoldable pub push : Command T → BlockingQueue T → BlockingQueue T
  push c q = record q { queue = q.queue ++ c ∷ [] }

  pop_front : BlockingQueue T → List (Command T) → Option (Command T × BlockingQueue T)
  pop_front q [] = none
  pop_front q (c ∷ rest) = some (c, record q { queue = rest })

  -- One round of `pop`; `none` means that it waits for the condition variable.
  unfoldable pub pop : BlockingQueue T → Option (Command T × BlockingQueue T)
  unfolding pop_front
  pop q = pop_front q q.queue

  -- `popNoWait`; `none` is its null pointer.
  unfoldable pub pop_no_wait : BlockingQueue T → Option (Command T × BlockingQueue T)
  unfolding pop_front
  pop_no_wait q = pop_front q q.queue

  -- The search of `tryFindNoLock`: the command found and the others.
  unfoldable pub find : ℕ → List (Command T) → Option (Command T × List (Command T))
  find id [] = none
  find id (c ∷ rest) =
      if c.msgid == id
      then some (c, rest)
      else elim (find id rest) [ none ↦ none | some (d, others) ↦ some (d, c ∷ others) ]

  -- `tryFind`, and one round of `wait`; `none` means a null pointer, or that `wait` waits.
  unfoldable pub try_find : ℕ → BlockingQueue T → Option (Command T × BlockingQueue T)
  unfolding find
  try_find id q = elim (find id q.queue) [
    | none ↦ none
    | some (c, others) ↦ some (c, record q { queue = others })
  ]

  unfoldable pub set_status : QueueStatus → BlockingQueue T → BlockingQueue T
  set_status s q = record q { status = s }
