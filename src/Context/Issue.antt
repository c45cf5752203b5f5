-- ===== src/Context/Issue.antt =====
-- Request IDs, and what a request does to the queues.
use veoffload.Base.{
  ℕ, ◌+◌, ◌^◌, ◌<◌, ◌≡◌, refl, ◌≢◌, inl, inr, false, ◌||◌, some, List, [], ◌∷◌, ◌++◌, arith, ◌==◌,
  if◌then◌else◌, Bool-cases, u64, ==_iff,
}
use veoffload.Queues.Blocking.{new_command, QueueStatus, queue_ready, queue_closed, push}
use veoffload.Queues.Comm.{push_request}
use veoffload.Context.State.{
  Context, Task, call_task, read_task, write_task, open_task, close_task, is_exit,
  request_id_invalid, issue_request_id, fetch_id, insert, contains,
}
use veoffload.Context.Requests.{
  submit, push_or_refuse, call_async, call_open_context, async_read_mem, async_write_mem,
  begin_close,
}

-- The ID that is issued, and the next sequence number.
abbrev pub next_id : ℕ → ℕ
next_id seq = if seq == request_id_invalid then 0 else seq

abbrev pub next_seq : ℕ → ℕ
next_seq seq = u64 (next_id seq + 1)

fetch_id_lem : (seq : ℕ) → seq < 2 ^ 64 → fetch_id 2 seq ≡ some (next_id seq, next_seq seq)
unfolding fetch_id
fetch_id_lem seq h = elim (Bool-cases (seq == request_id_invalid)) [
  | inl last ↦
      let e : seq ≡ request_id_invalid = (==_iff seq request_id_invalid).0 last in rw e refl
  | inr other ↦ rw other
]

pub contains-insert :
    (id j : ℕ) (ids : List ℕ) → contains j (insert id ids) ≡ (id == j) || contains j ids
unfolding insert contains
contains-insert id j ids = ground arith

-- The context after an ID was issued.
abbrev pub issued : Context → Context
issued ctx = record ctx {
  seq_no = next_seq ctx.seq_no;
  rem_reqid = insert (next_id ctx.seq_no) ctx.rem_reqid;
}

pub issue_issued :
    (ctx : Context)
    → ctx.seq_no < 2 ^ 64
    → issue_request_id ctx ≡ some (next_id ctx.seq_no, issued ctx)
unfolding issue_request_id
issue_issued ctx h = rw (fetch_id_lem ctx.seq_no h, issue_request_id)

-- `issueRequestID` ends, also where the sequence number is at its greatest or wraps around; the ID is
-- a 64-bit number and never `VEO_REQUEST_ID_INVALID`; the set of outstanding IDs then holds it and
-- what it held before, and nothing else; and the next sequence number is in range.
pub issue_request_id_lem :
    (ctx : Context)
    → ctx.seq_no < 2 ^ 64
    → (id : ℕ) × (ctx' : Context) × (issue_request_id ctx ≡ some (id, ctx'))
      × (id < request_id_invalid)
      × ((j : ℕ) → contains j ctx'.rem_reqid ≡ (id == j) || contains j ctx.rem_reqid)
      × (ctx'.seq_no < 2 ^ 64)
issue_request_id_lem ctx h = (
  next_id ctx.seq_no,
  issued ctx,
  issue_issued ctx h,
  ground arith,
  λ j. contains-insert (next_id ctx.seq_no) j ctx.rem_reqid,
  omega arith,
)

-- The context after a request with the given task: a new ID, and the command behind the requests.
abbrev pub requested : Task → Context → Context
requested task ctx = record (issued ctx) {
  comq = record ctx.comq {
    request = record ctx.comq.request {
      queue = ctx.comq.request.queue ++ new_command (next_id ctx.seq_no) task ∷ [];
    };
  };
}

-- `issueRequestID` and `pushRequest` while the request queue is open, and once it is closed.
abbrev pub after_request : QueueStatus → Task → Context → ℕ × Context
after_request queue_ready task ctx = (next_id ctx.seq_no, requested task ctx)
after_request queue_closed task ctx = (request_id_invalid, issued ctx)

submit_lem :
    (task : Task) (ctx : Context) (status : QueueStatus)
    → ctx.seq_no < 2 ^ 64
    → ctx.comq.request.status ≡ status
    → submit task ctx ≡ some (after_request status task ctx)
unfolding submit push_request push
submit_lem task ctx queue_ready h e = rw (issue_issued ctx h, submit, e)
submit_lem task ctx queue_closed h e = rw (issue_issued ctx h, submit, e)

close_lem :
    (ctx : Context) (status : QueueStatus)
    → ctx.seq_no < 2 ^ 64
    → is_exit ctx.state ≡ false
    → ctx.comq.request.status ≡ status
    → let r = after_request status (close_task (next_id ctx.seq_no)) ctx in
      begin_close ctx ≡ some (some (r.0), r.1)
unfolding begin_close push_or_refuse push_request push
close_lem ctx queue_ready h alive e = rw (alive, issue_issued ctx h, begin_close, e)
close_lem ctx queue_closed h alive e = rw (alive, issue_issued ctx h, begin_close, e)

-- In any state but exit, and for an address other than 0, `callAsync`, `_callOpenContext`,
-- `asyncReadMem`, `asyncWriteMem` and `close` take the next ID. While the request queue is open each returns
-- that ID, with the command at the end of the request queue and the completion queue untouched; once
-- the queue is closed `callAsync`, `_callOpenContext`, `asyncReadMem` and `asyncWriteMem` return
-- `VEO_REQUEST_ID_INVALID`, and `close` waits for that, with neither queue changed.
pub requests_lem :
    (ctx : Context) (status : QueueStatus) (addr args : ℕ)
    → ctx.seq_no < 2 ^ 64
    → is_exit ctx.state ≡ false
    → ctx.comq.request.status ≡ status
    → addr ≢ 0
    → (call_async addr args ctx ≡ some (after_request status (call_task addr args) ctx))
      × (call_open_context addr args ctx ≡ some (after_request status (open_task addr args) ctx))
      × ((dst src size : ℕ)
          → async_read_mem dst src size ctx
            ≡ some (after_request status (read_task dst src size) ctx))
      × ((dst src size : ℕ)
          → async_write_mem dst src size ctx
            ≡ some (after_request status (write_task dst src size) ctx))
      × (let r = after_request status (close_task (next_id ctx.seq_no)) ctx in
          begin_close ctx ≡ some (some (r.0), r.1))
unfolding call_async call_open_context async_read_mem async_write_mem
requests_lem ctx status addr args h alive e nonzero = (
  (let test : (addr == 0) ≡ false = ground arith in
      rw (test, alive) (submit_lem (call_task addr args) ctx status h e)),
  rw alive (submit_lem (open_task addr args) ctx status h e),
  λ dst src size. rw alive (submit_lem (read_task dst src size) ctx status h e),
  λ dst src size. rw alive (submit_lem (write_task dst src size) ctx status h e),
  close_lem ctx status h alive e,
)
