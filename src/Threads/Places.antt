-- ===== src/Threads/Places.antt =====
-- Every request ID that was issued is in exactly one place, in every interleaving.
use veoffload.Base.{
  ℕ, ◌+◌, ◌≤◌, ◌<◌, ◌≡◌, refl, ap, ◌∙◌, inl, inr, some, List, [], ◌∷◌, ◌++◌, arith, ltb,
  if◌then◌else◌,
}
use veoffload.Queues.Blocking.{
  Command, new_command, set_result, push, command_ok, command_unfinished, set_status,
}
use veoffload.Queues.Comm.{CommQueue, push_completion, set_request_status, pop_request}
use veoffload.Context.State.{Context, Task, close_task, request_id_invalid, issue_request_id}
use veoffload.Context.Issue.{issue_issued}
use veoffload.Threads.Tally.{tally, tally-assign, tally-zero}
use veoffload.Threads.Moves.{
  Shared, Client, idle, Pseudo, ClientMove, start, issue, check_ready, check_closed, push_it, claim,
  take, peek, PseudoMove, first_work, first_block, first_failure, enter, leave, pop_one, work,
  succeed, fail, close_queue, report, drain_one, drained, close_begin, close_end, after_push,
}
use veoffload.Threads.System.{System, Step, client, pseudo, Reach, begin, later}
use veoffload.Threads.Counts.{
  one_if, count, count-append, ids, ids-append, with_client, with_pseudo, requests, completions,
  pop_request_lem, wait_completion_counts,
}

-- The places outside the threads: the two queues, and the ends of a request.
abbrev pub in_shared : ℕ → Shared → ℕ
in_shared id h =
    count id (requests h.ctx)
    + count id (completions h.ctx)
    + count id h.refused
    + count id h.handed

-- One for an ID below the sequence number, and zero for the others.
abbrev pub was_issued : ℕ → ℕ → ℕ
was_issued id seq = if ltb id seq then 1 else 0

abbrev pub places : ℕ → ℕ → System → ℕ
places n id s = tally (with_client id) n s.clients + with_pseudo id s.pseudo + in_shared id s.shared

with_client-after_push : (id j : ℕ) (task : Task) → with_client id (after_push j task) ≡ 0
with_client-after_push id j (Task.call_task a x) = refl
with_client-after_push id j (Task.vh_task f x) = refl
with_client-after_push id j (Task.read_task d s n) = refl
with_client-after_push id j (Task.write_task d s n) = refl
with_client-after_push id j (Task.open_task a x) = refl
with_client-after_push id j (Task.close_task i) = refl

pub count-push :
    (id : ℕ) (cs : List (Command Task)) (c : Command Task)
    → count id (ids (cs ++ c ∷ [])) ≡ count id (ids cs) + one_if id c.msgid
unfolding count ids
count-push id cs c =
    ap (count id) (ids-append cs (c ∷ [])) ∙ omega (arith, count-append id (ids cs) (c.msgid ∷ []))

pub issue-balance :
    (id j : ℕ) (ctx ctx' : Context)
    → ctx.seq_no < request_id_invalid
    → issue_request_id ctx ≡ some (j, ctx')
    → (one_if id j + was_issued id ctx.seq_no ≡ was_issued id ctx'.seq_no)
      × (ctx'.comq ≡ ctx.comq)
      × (ctx'.seq_no ≤ request_id_invalid)
issue-balance id j ctx ctx' h e = ground (arith, issue_issued ctx)

-- A client's move takes an ID from one place to another, or makes the next one.
pub ClientMove-balance :
    {s t : Shared} {p q : Client} (id : ℕ)
    → ClientMove s p t q
    → with_client id q + in_shared id t + was_issued id s.ctx.seq_no
      ≡ with_client id p + in_shared id s + was_issued id t.ctx.seq_no
unfolding count push
ClientMove-balance id (start task h) = refl
ClientMove-balance {s} id (issue {task} {id = j} {ctx} h e) =
    let (moved, same, bound) = issue-balance id j s.ctx ctx h e in
    let kept = ap (λ (q : CommQueue Task). count id (ids q.request.queue)) same in
    let kept' = ap (λ (q : CommQueue Task). count id (ids q.completion.queue)) same in
    omega (arith, moved, kept, kept')
ClientMove-balance id (check_ready e) = refl
ClientMove-balance {s} id (check_closed {id = j} {task} e) =
    omega (arith, with_client-after_push id request_id_invalid task)
ClientMove-balance {s} id (push_it {id = j} {task}) = omega (
  arith,
  with_client-after_push id j task,
  count-push id s.ctx.comq.request.queue (new_command j task),
)
ClientMove-balance id (claim h) = refl
ClientMove-balance {s} id (take {id = j} {c} {q} e) =
    let (same, kept, counts) = wait_completion_counts j s.ctx.comq q c (inl e) in
    omega (arith, counts id, ap (λ r. count id (ids r.queue)) kept)
ClientMove-balance {s} id (peek {id = j} {c} {q} h e) =
    let (same, kept, counts) = wait_completion_counts j s.ctx.comq q c (inr e) in
    omega (arith, counts id, ap (λ r. count id (ids r.queue)) kept)

popped-balance :
    (id : ℕ) (q q' : CommQueue Task) (c : Command Task)
    → pop_request q ≡ some (c, q')
    → (count id (ids q.request.queue) ≡ one_if id c.msgid + count id (ids q'.request.queue))
      × (count id (ids q'.completion.queue) ≡ count id (ids q.completion.queue))
unfolding count ids
popped-balance id q q' c e =
    let (first, status, same) = pop_request_lem q q' c e in
    (ap (λ cs. count id (ids cs)) first, ap (λ r. count id (ids r.queue)) same)

-- A move of the pseudo thread takes an ID from one place to another.
pub PseudoMove-balance :
    {s t : Shared} {v w : Pseudo} (id : ℕ)
    → PseudoMove s v t w
    → (with_pseudo id w + in_shared id t ≡ with_pseudo id v + in_shared id s)
      × (t.ctx.seq_no ≡ s.ctx.seq_no)
unfolding push_completion push set_request_status set_status
PseudoMove-balance id (first_work state h) = (refl, refl)
PseudoMove-balance id (first_block sp) = (refl, refl)
PseudoMove-balance id first_failure = (refl, refl)
PseudoMove-balance id (enter e) = (refl, refl)
PseudoMove-balance id (leave e) = (refl, refl)
PseudoMove-balance {s} id (pop_one {c} {q} e) =
    (omega (arith, popped-balance id s.ctx.comq q c e), refl)
PseudoMove-balance id (work state sp h) = (refl, refl)
PseudoMove-balance {s} id (succeed {c} r st) =
    (omega (arith, count-push id s.ctx.comq.completion.queue (set_result r st c)), refl)
PseudoMove-balance id (fail r st) = (refl, refl)
PseudoMove-balance id close_queue = (refl, refl)
PseudoMove-balance {s} id (report {c}) =
    (omega (arith, count-push id s.ctx.comq.completion.queue c), refl)
PseudoMove-balance {s} id (drain_one {c} {q} e) = (
  omega (
    arith,
    popped-balance id s.ctx.comq q c e,
    count-push id q.completion.queue (set_result 0 command_unfinished c),
  ),
  refl,
)
PseudoMove-balance id (drained e) = (refl, refl)
PseudoMove-balance id close_begin = (refl, refl)
PseudoMove-balance {s} id (close_end {id = j}) = (
  omega (
    arith,
    count-push id s.ctx.comq.completion.queue
        (set_result 0 command_ok (new_command j (close_task j))),
  ),
  refl,
)

-- Every step of the system keeps each issued ID in one place, and every other ID in none.
pub Step-places :
    {n : ℕ} {s t : System} (id : ℕ)
    → Step n s t
    → places n id s ≡ was_issued id s.shared.ctx.seq_no
    → places n id t ≡ was_issued id t.shared.ctx.seq_no
Step-places {n} {s} id (client i {h} {p} lt move) e =
    omega (arith, tally-assign (with_client id) n i p s.clients lt, ClientMove-balance id move)
Step-places {n} {s} id (pseudo move) e =
    let (moved, seq) = PseudoMove-balance id move in omega (arith, moved, ap (was_issued id) seq)

-- In every reachable state, whatever the interleaving, an ID that `issueRequestID` returned is in
-- exactly one place: with the client that is about to push it, in the request queue, with the pseudo
-- thread, in the completion queue, refused, or handed out. An ID that was not issued is in none.
pub Reach-places :
    {n : ℕ} {s : System} (id : ℕ) → Reach n s → places n id s ≡ was_issued id s.shared.ctx.seq_no
unfolding count ids
Reach-places {n} id begin = ground (arith, tally-zero (with_client id) n (λ _. idle) (λ i. refl))
Reach-places id (later r step) = Step-places id step (Reach-places id r)
