-- ===== src/Threads/Order.antt =====
-- Requests leave the request queue in the order in which they were pushed.
use veoffload.Base.{ℕ, ◌≡◌, refl, sym, ap, ◌∙◌, some, List, [], ◌∷◌, ◌++◌, append_assoc, inl, inr}
use veoffload.Queues.Blocking.{Command, new_command, push, set_status}
use veoffload.Queues.Comm.{CommQueue, push_completion, set_request_status, pop_request}
use veoffload.Context.State.{Task}
use veoffload.Threads.Moves.{
  Shared, Client, Pseudo, ClientMove, start, issue, check_ready, check_closed, push_it, claim, take,
  peek, PseudoMove, first_work, first_block, first_failure, enter, leave, pop_one, work, succeed,
  fail, close_queue, report, drain_one, drained, close_begin, close_end,
}
use veoffload.Threads.System.{System, client, pseudo, Reach, begin, later}
use veoffload.Threads.Counts.{ids, ids-append, requests, pop_request_lem, wait_completion_counts}
use veoffload.Threads.Places.{issue-balance}

abbrev pub InOrder : Shared → Type 0
InOrder h = h.pushed ≡ h.taken ++ requests h.ctx

ClientMove-InOrder : {s t : Shared} {p q : Client} → ClientMove s p t q → InOrder s → InOrder t
unfolding push ids
ClientMove-InOrder (start task h) e = e
ClientMove-InOrder {s} (issue {id = j} {ctx} h i) e =
    let same = (issue-balance j j s.ctx ctx h i).1 in
    e ∙ ap (λ (q : CommQueue Task). s.taken ++ ids q.request.queue) (sym same)
ClientMove-InOrder (check_ready h) e = e
ClientMove-InOrder (check_closed h) e = e
ClientMove-InOrder {s} (push_it {id = j} {task}) e =
    ap (λ js. js ++ j ∷ []) e
    ∙ append_assoc s.taken (requests s.ctx) (j ∷ [])
    ∙ ap (◌++◌ s.taken) (sym (ids-append s.ctx.comq.request.queue (new_command j task ∷ [])))
ClientMove-InOrder (claim h) e = e
ClientMove-InOrder {s} (take {id = j} {c} {q} w) e =
    let same = (wait_completion_counts j s.ctx.comq q c (inl w)).1 in
    e ∙ ap (λ r. s.taken ++ ids r.queue) (sym same)
ClientMove-InOrder {s} (peek {id = j} {c} {q} h w) e =
    let same = (wait_completion_counts j s.ctx.comq q c (inr w)).1 in
    e ∙ ap (λ r. s.taken ++ ids r.queue) (sym same)

popped-InOrder :
    (q q' : CommQueue Task) (c : Command Task) (ps ts : List ℕ)
    → pop_request q ≡ some (c, q')
    → ps ≡ ts ++ ids q.request.queue
    → ps ≡ (ts ++ c.msgid ∷ []) ++ ids q'.request.queue
unfolding ids
popped-InOrder q q' c ps ts w e =
    e
    ∙ ap (λ cs. ts ++ ids cs) (pop_request_lem q q' c w).0
    ∙ sym (append_assoc ts (c.msgid ∷ []) (ids q'.request.queue))

PseudoMove-InOrder : {s t : Shared} {v w : Pseudo} → PseudoMove s v t w → InOrder s → InOrder t
unfolding push_completion set_request_status set_status
PseudoMove-InOrder (first_work state h) e = e
PseudoMove-InOrder (first_block sp) e = e
PseudoMove-InOrder first_failure e = e
PseudoMove-InOrder (enter h) e = e
PseudoMove-InOrder (leave h) e = e
PseudoMove-InOrder {s} (pop_one {c} {q} w) e = popped-InOrder s.ctx.comq q c s.pushed s.taken w e
PseudoMove-InOrder (work state sp h) e = e
PseudoMove-InOrder (succeed r st) e = e
PseudoMove-InOrder (fail r st) e = e
PseudoMove-InOrder close_queue e = e
PseudoMove-InOrder report e = e
PseudoMove-InOrder {s} (drain_one {c} {q} w) e = popped-InOrder s.ctx.comq q c s.pushed s.taken w e
PseudoMove-InOrder (drained h) e = e
PseudoMove-InOrder close_begin e = e
PseudoMove-InOrder close_end e = e

-- In every reachable state the IDs pushed are, in order, those that were taken from the request queue
-- (to run them, or to complete them unfinished) and then those that are still in it: the pseudo thread
-- serves the requests of all clients first in, first out, and leaves none out.
pub Reach-InOrder : {n : ℕ} {s : System} → Reach n s → InOrder s.shared
unfolding ids
Reach-InOrder begin = refl
Reach-InOrder (later r (client i lt move)) = ClientMove-InOrder move (Reach-InOrder r)
Reach-InOrder (later r (pseudo move)) = PseudoMove-InOrder move (Reach-InOrder r)
