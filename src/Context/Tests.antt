-- ===== src/Context/Tests.antt =====
-- Concrete contexts: two outstanding requests, with the request queue open or closed.
use veoffload.Base.{
  ℕ, ◌^◌, ◌<◌, ◌≡◌, ◌≢◌, inl, refl, true, false, ◌||◌, none, some, [], ◌∷◌, ◌==◌, arith, ok,
}
use veoffload.Queues.Blocking.{
  Command, command_ok, command_error, new_command, QueueStatus, queue_ready, queue_closed,
}
use veoffload.Queues.Comm.{new_comm}
use veoffload.Context.State.{
  Context, Task, vh_task, read_task, write_task, call_task, open_task, close_task, state_blocked,
  state_exit, new_context, request_id_invalid, contains, issue_request_id,
}
use veoffload.Context.Requests.{
  call_async, call_vh_async, call_open_context, async_read_mem, async_write_mem, begin_close,
}
use veoffload.Context.Results.{answered, waits, call_wait_result, call_peek_result}
use veoffload.Context.Issue.{after_request, issue_request_id_lem, requests_lem}
use veoffload.Context.Answers.{
  claimed, completed, wait-completed, answered_once, call_vh_async_closed,
}

abbrev blocked : QueueStatus → Context
blocked status = record (new_context false) {
  state = state_blocked;
  seq_no = 2;
  rem_reqid = 1 ∷ 0 ∷ [];
  comq = record new_comm { request = record { queue = []; status = status } };
}

abbrev gone : Context
gone = record (blocked queue_closed) { state = state_exit }

-- The next number is the one that stands for an invalid ID.
abbrev last : Context
last = record (blocked queue_ready) { seq_no = request_id_invalid }

issue_request_id_lem_example :
    (id : ℕ) × (ctx : Context) × (issue_request_id last ≡ some (id, ctx))
    × (id < request_id_invalid)
    × ((j : ℕ) → contains j ctx.rem_reqid ≡ (id == j) || contains j (1 ∷ 0 ∷ []))
    × (ctx.seq_no < 2 ^ 64)
issue_request_id_lem_example = issue_request_id_lem last (omega arith)

requests_lem_example :
    let ctx = blocked queue_ready in
    (call_async 64 5 ctx ≡ some (after_request queue_ready (call_task 64 5) ctx))
    × (call_open_context 64 5 ctx ≡ some (after_request queue_ready (open_task 64 5) ctx))
    × ((dst src size : ℕ)
        → async_read_mem dst src size ctx
          ≡ some (after_request queue_ready (read_task dst src size) ctx))
    × ((dst src size : ℕ)
        → async_write_mem dst src size ctx
          ≡ some (after_request queue_ready (write_task dst src size) ctx))
    × (let r = after_request queue_ready (close_task 2) ctx in
        begin_close ctx ≡ some (some (r.0), r.1))
requests_lem_example =
    requests_lem (blocked queue_ready) queue_ready 64 5 (omega arith) refl refl
      (λ e. absurd (omega arith))

abbrev command : Command Task
command = new_command 1 (vh_task 64 0)

one_listed : contains 1 (1 ∷ 0 ∷ []) ≡ true
unfolding contains
one_listed = refl

wait-completed_example :
    let ctx = blocked queue_ready in
    let result = answered command_ok (some 9) (claimed 1 ctx) in
    (call_wait_result 1 (completed command 9 command_ok ctx) ≡ ok result)
    × (call_peek_result 1 (completed command 9 command_ok ctx) ≡ ok result)
wait-completed_example = wait-completed (blocked queue_ready) command 9 command_ok one_listed tt

seven_unknown : contains 7 (1 ∷ 0 ∷ []) ≡ false
unfolding contains
seven_unknown = refl

abbrev answered_context : Context
answered_context = completed command 9 command_ok (blocked queue_ready)

zero_alone : contains 1 (0 ∷ []) ≡ false
unfolding contains
zero_alone = refl

answered_once_example :
    let ctx = claimed 1 (blocked queue_ready) in
    (call_wait_result 1 ctx ≡ ok (answered command_error none ctx))
    × (call_peek_result 1 ctx ≡ ok (answered command_error none ctx))
unfolding contains
answered_once_example =
    answered_once 1 answered_context (claimed 1 (blocked queue_ready)) command_ok 9
      (zero_alone, (refl, tt)) (inl (wait-completed_example.0))

call_vh_async_closed_example :
    (ctx : Context) × (call_vh_async 64 0 (blocked queue_closed) ≡ some (2, ctx))
    × (2 ≢ request_id_invalid)
    × (ctx.comq ≡ (blocked queue_closed).comq)
    × (call_wait_result 2 ctx ≡ ok (waits (claimed 2 ctx)))
call_vh_async_closed_example =
    call_vh_async_closed (blocked queue_closed) 64 0 (omega arith) refl (λ e. absurd (omega arith))
      refl tt
