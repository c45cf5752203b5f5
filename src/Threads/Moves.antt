-- ===== src/Threads/Moves.antt =====
-- What one thread does in one step. A step is what a thread does under one lock, or one access to
-- `state` or to the status of the request queue.
use veoffload.Base.{ℕ, ◌<◌, ◌≡◌, ◌≢◌, Option, none, some, List, [], ◌∷◌, ◌++◌, true, false}
use veoffload.Queues.Blocking.{
  Command, CommandStatus, command_ok, command_unfinished, new_command, set_result, queue_ready,
  queue_closed, push,
}
use veoffload.Queues.Comm.{
  CommQueue, pop_request, push_completion, wait_completion, peek_completion, set_request_status,
}
use veoffload.Context.State.{
  Context, ContextState, state_blocked, state_exit, is_exit, Task, close_task, request_id_invalid,
  issue_request_id, contains, erase,
}

-- The context, and four histories of request IDs that no code reads: pushed to the request queue,
-- taken from it, refused because it was closed, and handed out from the completion queue.
pub record Shared : Type 0 where
  pub ctx : Context
  pub pushed : List ℕ
  pub taken : List ℕ
  pub refused : List ℕ
  pub handed : List ℕ

-- Where a client's thread stands: outside of all calls; past the test of `state`; past
-- `issueRequestID`; past the status test of `pushRequest`; or in `waitCompletion`.
pub data Client : Type 0 where
  idle : Client
  starting : (task : ℕ → Task) → Client
  issued_id : (id : ℕ) (task : Task) → Client
  ready : (id : ℕ) (task : Task) → Client
  waiting : (id : ℕ) → Client

-- Where the pseudo thread stands: in `startEventLoop` before the first block request; at the test of
-- the loop; in `popRequest`; in a command; in the
-- branch for a failed command after each of its first two steps; in `setCompletion`; in
-- `_closeCommandHandler` after its change of `state`; or at its end.
pub data Pseudo : Type 0 where
  first_run : Pseudo
  at_test : Pseudo
  popping : Pseudo
  running : Command Task → Pseudo
  failed : Command Task → Pseudo
  closed : Command Task → Pseudo
  draining : Pseudo
  closing : (id : ℕ) → Pseudo
  finished : Pseudo

-- Where a request goes once it is pushed: `close` waits, every other call returns.
abbrev pub after_push : ℕ → Task → Client
after_push id (Task.close_task i) = waiting id
after_push id (Task.call_task a x) = idle
after_push id (Task.vh_task f x) = idle
after_push id (Task.read_task d s n) = idle
after_push id (Task.write_task d s n) = idle
after_push id (Task.open_task a x) = idle

-- And once it is refused: `close` waits for `VEO_REQUEST_ID_INVALID`.
abbrev pub after_refusal : Task → Client
after_refusal task = after_push request_id_invalid task

abbrev pub after_pushing : ℕ → Task → Context → Context
after_pushing id task ctx = record ctx {
  comq = record ctx.comq { request = push (new_command id task) ctx.comq.request };
}

abbrev pub after_claim : ℕ → Context → Context
after_claim id ctx = record ctx { rem_reqid = (erase id ctx.rem_reqid).1 }

abbrev pub after_completing : Command Task → Context → Context
after_completing c ctx = record ctx { comq = push_completion c ctx.comq }

pub data ClientMove (s : Shared) : Client → Shared → Client → Type 0 where
  start : (task : ℕ → Task) → is_exit s.ctx.state ≡ false → ClientMove s idle s (starting task)
  -- The sequence number is taken to stay below its greatest value: fewer than 2 ^ 64 - 1 requests.
  issue :
      {task : ℕ → Task} {id : ℕ} {ctx : Context}
      → s.ctx.seq_no < request_id_invalid
      → issue_request_id s.ctx ≡ some (id, ctx)
      → ClientMove s (starting task) (record s { ctx = ctx }) (issued_id id (task id))
  check_ready :
      {id : ℕ} {task : Task}
      → s.ctx.comq.request.status ≡ queue_ready
      → ClientMove s (issued_id id task) s (ready id task)
  check_closed :
      {id : ℕ} {task : Task}
      → s.ctx.comq.request.status ≡ queue_closed
      → ClientMove s
          (issued_id id task)
          (record s { refused = id ∷ s.refused })
          (after_refusal task)
  -- The push of `pushRequest`, whatever the status has become.
  push_it :
      {id : ℕ} {task : Task}
      → ClientMove s
          (ready id task)
          (record s { ctx = after_pushing id task s.ctx; pushed = s.pushed ++ id ∷ [] })
          (after_push id task)
  -- The part of `callWaitResult` before `waitCompletion`.
  claim :
      {id : ℕ}
      → contains id s.ctx.rem_reqid ≡ true
      → ClientMove s idle (record s { ctx = after_claim id s.ctx }) (waiting id)
  -- The round of `waitCompletion` that finds the completion.
  take :
      {id : ℕ} {c : Command Task} {q : CommQueue Task}
      → wait_completion id s.ctx.comq ≡ some (c, q)
      → ClientMove s
          (waiting id)
          (record s { ctx = record s.ctx { comq = q }; handed = id ∷ s.handed })
          idle
  -- `callPeekResult` where it finds the completion.
  peek :
      {id : ℕ} {c : Command Task} {q : CommQueue Task}
      → contains id s.ctx.rem_reqid ≡ true
      → peek_completion id s.ctx.comq ≡ some (c, q)
      → ClientMove s idle
          (record s { ctx = record (after_claim id s.ctx) { comq = q }; handed = id ∷ s.handed })
          idle

-- The pseudo thread in `startEventLoop` and `eventLoop`. What a command does to the state and which result it sets are
-- left open, but that no command but `close` leaves the state at exit.
pub data PseudoMove (s : Shared) : Pseudo → Shared → Pseudo → Type 0 where
  first_work :
      (state : ContextState)
      → is_exit state ≡ false
      → PseudoMove s first_run (record s { ctx = record s.ctx { state = state } }) first_run
  -- The first block request, and the stack pointer that comes with it, which no client reads.
  first_block :
      (sp : ℕ)
      → PseudoMove s first_run
          (record s { ctx = record s.ctx { state = state_blocked; ve_sp = sp } })
          at_test
  first_failure :
      PseudoMove s first_run (record s { ctx = record s.ctx { state = state_exit } }) finished
  enter : s.ctx.state ≡ state_blocked → PseudoMove s at_test s popping
  leave : s.ctx.state ≢ state_blocked → PseudoMove s at_test s finished
  pop_one :
      {c : Command Task} {q : CommQueue Task}
      → pop_request s.ctx.comq ≡ some (c, q)
      → PseudoMove s popping
          (record s { ctx = record s.ctx { comq = q }; taken = s.taken ++ c.msgid ∷ [] })
          (running c)
  work :
      {c : Command Task} (state : ContextState) (sp : ℕ)
      → is_exit state ≡ false
      → PseudoMove s
          (running c)
          (record s { ctx = record s.ctx { state = state; ve_sp = sp } })
          (running c)
  succeed :
      {c : Command Task} (r : ℕ) (st : CommandStatus)
      → PseudoMove s
          (running c)
          (record s { ctx = after_completing (set_result r st c) s.ctx })
          at_test
  fail :
      {c : Command Task} (r : ℕ) (st : CommandStatus)
      → PseudoMove s
          (running c)
          (record s { ctx = record s.ctx { state = state_exit } })
          (failed (set_result r st c))
  close_queue :
      {c : Command Task}
      → PseudoMove s
          (failed c)
          (record s { ctx = record s.ctx { comq = set_request_status queue_closed s.ctx.comq } })
          (closed c)
  report :
      {c : Command Task}
      → PseudoMove s (closed c) (record s { ctx = after_completing c s.ctx }) draining
  drain_one :
      {c : Command Task} {q : CommQueue Task}
      → pop_request s.ctx.comq ≡ some (c, q)
      → PseudoMove s draining
          (record s {
            ctx = after_completing (set_result 0 command_unfinished c) (record s.ctx { comq = q });
            taken = s.taken ++ c.msgid ∷ [];
          })
          draining
  drained : pop_request s.ctx.comq ≡ none → PseudoMove s draining s finished
  close_begin :
      {id : ℕ} {r : Option (ℕ × CommandStatus)}
      → PseudoMove s
          (running (record { msgid = id; handler = close_task id; result = r }))
          (record s { ctx = record s.ctx { state = state_exit } })
          (closing id)
  -- The reply is a new command with the same ID, and `pthread_exit` ends the thread.
  close_end :
      {id : ℕ}
      → PseudoMove s
          (closing id)
          (record s {
            ctx = after_completing (set_result 0 command_ok (new_command id (close_task id))) s.ctx;
          })
          finished
