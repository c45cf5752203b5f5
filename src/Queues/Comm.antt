-- ===== src/Queues/Comm.antt =====
-- `CommQueue`: the request queue and the completion queue.
use veoffload.Base.{ℕ, zero, suc, ◌+◌, Option, none, some, length}
use veoffload.Queues.Blocking.{
  Command, QueueStatus, queue_ready, queue_closed, command_unfinished, set_result, BlockingQueue,
  empty_queue, push, pop, pop_no_wait, try_find, set_status,
}

pub record CommQueue (T : Type 0) : Type 0 where
  pub request : BlockingQueue T
  pub completion : BlockingQueue T

module _ {T : Type 0} where
  abbrev pub new_comm : CommQueue T
  new_comm = record { request = empty_queue; completion = empty_queue }

  push_if : QueueStatus → Command T → CommQueue T → ℕ × CommQueue T
  push_if queue_ready c q = (0, record q { request = push c q.request })
  push_if queue_closed c q = (1, q)

  -- `pushRequest`, where nothing comes between its reading of the status and its push.
  unfoldable pub push_request : Command T → CommQueue T → ℕ × CommQueue T
  unfolding push_if
  push_request c q = push_if q.request.status c q

  unfoldable pub pop_request : CommQueue T → Option (Command T × CommQueue T)
  pop_request q = elim (pop q.request) [
    | none ↦ none
    | some (c, r) ↦ some (c, record q { request = r })
  ]

  unfoldable pub push_completion : Command T → CommQueue T → CommQueue T
  push_completion c q = record q { completion = push c q.completion }

  unfoldable pub peek_completion : ℕ → CommQueue T → Option (Command T × CommQueue T)
  peek_completion id q = elim (try_find id q.completion) [
    | none ↦ none
    | some (c, r) ↦ some (c, record q { completion = r })
  ]

  -- One round of `waitCompletion`; `none` means that it waits.
  unfoldable pub wait_completion : ℕ → CommQueue T → Option (Command T × CommQueue T)
  wait_completion id q = elim (try_find id q.completion) [
    | none ↦ none
    | some (c, r) ↦ some (c, record q { completion = r })
  ]

  unfoldable pub set_request_status : QueueStatus → CommQueue T → CommQueue T
  set_request_status s q = record q { request = set_status s q.request }

  -- The loop of `setCompletion`, on fuel: `none` means that the fuel ran out.
  unfoldable pub drain : ℕ → CommQueue T → Option (CommQueue T)
  drain zero q = none
  drain (suc fuel) q = elim (pop_no_wait q.request) [
    | none ↦ some q
    | some (c, r) ↦
        drain fuel (record {
          request = r;
          completion = push (set_result 0 command_unfinished c) q.completion;
        })
  ]

  -- `setCompletion`, with a round for each request and one to see that there is none left.
  unfoldable pub set_completion : CommQueue T → Option (CommQueue T)
  set_completion q = drain (length q.request.queue + 1) q
