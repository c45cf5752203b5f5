-- ===== src/Context/Answers.antt =====
-- How results are answered: once for each request, and to whom.
use veoffload.Base.{
  ℕ, ◌^◌, ◌<◌, ◌≡◌, refl, ◌≢◌, ◌∙◌, ◌⊎◌, inl, inr, true, false, none, some, List, [], ◌∷◌, arith,
  ◌==◌, Bool-cases, ok, ==_iff, eqb_refl, subst,
}
use veoffload.Queues.Blocking.{Command, set_result, CommandStatus, command_error, queue_closed}
use veoffload.Queues.Comm.{push_request, push_completion}
use veoffload.Queues.Find.{Absent, peek-push_completion, wait_completion_lem, wait-Absent}
use veoffload.Context.State.{Context, Task, is_exit, request_id_invalid, insert, erase, contains}
use veoffload.Context.Requests.{call_vh_async, push_anyway}
use veoffload.Context.Results.{
  answered, waits, answer, call_peek_result, call_wait_result, finish_wait,
}
use veoffload.Context.Issue.{next_id, issued, issue_issued, contains-insert}

-- The list stands for a set.
abbrev pub IsDistinct : List ℕ → Type 0
IsDistinct [] = Unit {0}
IsDistinct (i ∷ is) = (contains i is ≡ false) × IsDistinct is

pub erase-count : (id : ℕ) (ids : List ℕ) → contains id ids ≡ true → (erase id ids).0 ≡ 1
unfolding erase contains
erase-count id [] h = cc
erase-count id (i ∷ is) h = ground (arith, erase-count id is)

contains-erase : (id : ℕ) (ids : List ℕ) → IsDistinct ids → contains id (erase id ids).1 ≡ false
unfolding erase contains
contains-erase id [] d = refl
contains-erase id (i ∷ is) d = elim (Bool-cases (i == id)) [
  | inl hit ↦ rw hit (subst (λ j. contains j is ≡ false) ((==_iff i id).0 hit) d.0)
  | inr miss ↦ ground (arith, contains-erase id is d.1)
]

contains-erase_other :
    (id j : ℕ) (ids : List ℕ) → contains j ids ≡ false → contains j (erase id ids).1 ≡ false
unfolding erase contains
contains-erase_other id j [] h = refl
contains-erase_other id j (i ∷ is) h = ground (arith, contains-erase_other id j is)

pub erase-IsDistinct : (id : ℕ) (ids : List ℕ) → IsDistinct ids → IsDistinct (erase id ids).1
unfolding erase
erase-IsDistinct id [] d = tt
erase-IsDistinct id (i ∷ is) d =
    ground (arith, contains-erase_other id i is d.0, erase-IsDistinct id is d.1)

pub insert-IsDistinct : (id : ℕ) (ids : List ℕ) → IsDistinct ids → IsDistinct (insert id ids)
unfolding insert
insert-IsDistinct id ids d = ground arith

-- The context once the result of `id` was handed out.
abbrev pub claimed : ℕ → Context → Context
claimed id ctx = record ctx { rem_reqid = (erase id ctx.rem_reqid).1 }

-- The context once the command `c` was completed.
abbrev pub completed : Command Task → ℕ → CommandStatus → Context → Context
completed c r s ctx = record ctx { comq = push_completion (set_result r s c) ctx.comq }

-- While the ID of a command is outstanding and no completion has that ID, completing the command makes
-- both `callWaitResult` and `callPeekResult` return the command's status and store its return value;
-- the ID is then no longer outstanding, and the queues are as they were before the completion.
pub wait-completed :
    (ctx : Context) (c : Command Task) (r : ℕ) (s : CommandStatus)
    → contains c.msgid ctx.rem_reqid ≡ true
    → Absent c.msgid ctx.comq.completion.queue
    → let result = answered s (some r) (claimed c.msgid ctx) in
      (call_wait_result c.msgid (completed c r s ctx) ≡ ok result)
      × (call_peek_result c.msgid (completed c r s ctx) ≡ ok result)
unfolding call_wait_result call_peek_result finish_wait answer
wait-completed ctx c r s out absent =
    let found = peek-push_completion (set_result r s c) ctx.comq absent in
    let count : (erase c.msgid ctx.rem_reqid).0 ≡ 1 = erase-count c.msgid ctx.rem_reqid out in
    let waited = (wait_completion_lem c.msgid (completed c r s ctx).comq).0 ∙ found in
    (rw (out, count, waited, finish_wait), rw (out, found, call_peek_result, count))

-- An ID that is not outstanding, because it was never issued or because its result was handed out, is
-- answered at once with `VEO_COMMAND_ERROR`; nothing is stored, and the context stays as it is.
pub wait_unknown :
    (id : ℕ) (ctx : Context)
    → contains id ctx.rem_reqid ≡ false
    → let error = answered command_error none ctx in
      (call_wait_result id ctx ≡ ok error) × (call_peek_result id ctx ≡ ok error)
unfolding call_wait_result call_peek_result
wait_unknown id ctx h = (rw h, rw h)

-- What a result that was handed out leaves behind.
pub claimed-unknown :
    (id : ℕ) (ctx ctx' : Context) (s : CommandStatus) (r : ℕ)
    → IsDistinct ctx.rem_reqid
    → (call_wait_result id ctx ≡ ok (answered s (some r) ctx'))
      ⊎ (call_peek_result id ctx ≡ ok (answered s (some r) ctx'))
    → contains id ctx'.rem_reqid ≡ false
unfolding call_wait_result call_peek_result finish_wait answer
claimed-unknown id ctx ctx' s r d h = ground (arith, contains-erase id ctx.rem_reqid d)

-- A result is handed out once: after `callWaitResult` or `callPeekResult` stored a result for an ID,
-- both answer that ID with `VEO_COMMAND_ERROR` and store nothing.
pub answered_once :
    (id : ℕ) (ctx ctx' : Context) (s : CommandStatus) (r : ℕ)
    → IsDistinct ctx.rem_reqid
    → (call_wait_result id ctx ≡ ok (answered s (some r) ctx'))
      ⊎ (call_peek_result id ctx ≡ ok (answered s (some r) ctx'))
    → (call_wait_result id ctx' ≡ ok (answered command_error none ctx'))
      × (call_peek_result id ctx' ≡ ok (answered command_error none ctx'))
answered_once id ctx ctx' s r d h = wait_unknown id ctx' (claimed-unknown id ctx ctx' s r d h)

pub wait_unanswered :
    (id : ℕ) (ctx : Context)
    → contains id ctx.rem_reqid ≡ true
    → Absent id ctx.comq.completion.queue
    → call_wait_result id ctx ≡ ok (waits (claimed id ctx))
unfolding call_wait_result finish_wait
wait_unanswered id ctx out absent =
    rw (out, erase-count id ctx.rem_reqid out, wait-Absent id ctx.comq absent, finish_wait)

-- Once the request queue is closed, `callVHAsync` still returns a new ID, though it pushes no command;
-- and where no completion has that ID, `callWaitResult` for it waits, with both queues as they were.
pub call_vh_async_closed :
    (ctx : Context) (func arg : ℕ)
    → ctx.seq_no < 2 ^ 64
    → is_exit ctx.state ≡ false
    → func ≢ 0
    → ctx.comq.request.status ≡ queue_closed
    → Absent (next_id ctx.seq_no) ctx.comq.completion.queue
    → (ctx' : Context) × (call_vh_async func arg ctx ≡ some (next_id ctx.seq_no, ctx'))
      × (next_id ctx.seq_no ≢ request_id_invalid)
      × (ctx'.comq ≡ ctx.comq)
      × (call_wait_result (next_id ctx.seq_no) ctx'
          ≡ ok (waits (claimed (next_id ctx.seq_no) ctx')))
unfolding call_vh_async push_anyway push_request call_wait_result
call_vh_async_closed ctx func arg h alive nonzero closed absent =
    let test : (func == 0) ≡ false = ground arith in
    let listed : contains (next_id ctx.seq_no) (issued ctx).rem_reqid ≡ true =
      contains-insert (next_id ctx.seq_no) (next_id ctx.seq_no) ctx.rem_reqid
      ∙ rw (eqb_refl (next_id ctx.seq_no)) in
    (
      issued ctx,
      rw (test, alive, issue_issued ctx h, call_vh_async, closed),
      ground arith,
      refl,
      wait_unanswered (next_id ctx.seq_no) (issued ctx) listed absent,
    )
