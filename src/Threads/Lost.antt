-- ===== src/Threads/Lost.antt =====
-- What becomes of a request that is in the queue when the pseudo thread has ended.
use veoffload.Base.{ℕ, ◌≤◌, ◌<◌, ◌≡◌, refl, sym, ap, ◌∙◌, arith, inl, inr, Bool, true, false}
use veoffload.Queues.Blocking.{new_command, push}
use veoffload.Queues.Comm.{CommQueue}
use veoffload.Context.State.{Task}
use veoffload.Threads.Moves.{
  Shared, Client, Pseudo, first_run, at_test, popping, running, failed, closed, draining, closing,
  finished, ClientMove, start, issue, check_ready, check_closed, push_it, claim, take, peek,
  PseudoMove, first_work, first_block, first_failure, enter, leave, pop_one, work, succeed, fail,
  close_queue, report, drain_one, drained, close_begin, close_end,
}
use veoffload.Threads.System.{System, Step, client, pseudo, Reach, later}
use veoffload.Threads.Counts.{count, ids, requests, completions, wait_completion_counts}
use veoffload.Threads.Places.{issue-balance, count-push, Reach-places}

pub data Steps (n : ℕ) (s : System) : System → Type 0 where
  here : Steps n s s
  next : {t u : System} → Steps n s t → Step n t u → Steps n s u

Reach-Steps : {n : ℕ} {s t : System} → Reach n s → Steps n s t → Reach n t
Reach-Steps r here = r
Reach-Steps r (next st step) = later (Reach-Steps r st) step

abbrev has_ended : Pseudo → Bool
has_ended first_run = false
has_ended at_test = false
has_ended popping = false
has_ended (running c) = false
has_ended (failed c) = false
has_ended (closed c) = false
has_ended draining = false
has_ended (closing id) = false
has_ended finished = true

PseudoMove-has_ended : {s t : Shared} {v w : Pseudo} → PseudoMove s v t w → has_ended v ≡ false
PseudoMove-has_ended (first_work state h) = refl
PseudoMove-has_ended (first_block sp) = refl
PseudoMove-has_ended first_failure = refl
PseudoMove-has_ended (enter h) = refl
PseudoMove-has_ended (leave h) = refl
PseudoMove-has_ended (pop_one w) = refl
PseudoMove-has_ended (work state sp h) = refl
PseudoMove-has_ended (succeed r st) = refl
PseudoMove-has_ended (fail r st) = refl
PseudoMove-has_ended close_queue = refl
PseudoMove-has_ended report = refl
PseudoMove-has_ended (drain_one w) = refl
PseudoMove-has_ended (drained h) = refl
PseudoMove-has_ended close_begin = refl
PseudoMove-has_ended close_end = refl

ClientMove-requests :
    {s t : Shared} {p q : Client} (id : ℕ)
    → ClientMove s p t q
    → count id (requests s.ctx) ≤ count id (requests t.ctx)
unfolding push
ClientMove-requests id (start task h) = omega arith
ClientMove-requests {s} id (issue {id = j} {ctx} h i) =
    let same = (issue-balance j j s.ctx ctx h i).1 in
    omega (arith, ap (λ (q : CommQueue Task). count id (ids q.request.queue)) same)
ClientMove-requests id (check_ready h) = omega arith
ClientMove-requests id (check_closed h) = omega arith
ClientMove-requests {s} id (push_it {id = j} {task}) =
    omega (arith, count-push id s.ctx.comq.request.queue (new_command j task))
ClientMove-requests id (claim h) = omega arith
ClientMove-requests {s} id (take {id = j} {c} {q} w) =
    let same = (wait_completion_counts j s.ctx.comq q c (inl w)).1 in
    omega (arith, ap (λ r. count id (ids r.queue)) same)
ClientMove-requests {s} id (peek {id = j} {c} {q} h w) =
    let same = (wait_completion_counts j s.ctx.comq q c (inr w)).1 in
    omega (arith, ap (λ r. count id (ids r.queue)) same)

Step-ended :
    {n : ℕ} {s t : System} (id : ℕ)
    → Step n s t
    → s.pseudo ≡ finished
    → (t.pseudo ≡ finished) × (count id (requests s.shared.ctx) ≤ count id (requests t.shared.ctx))
Step-ended id (client i lt move) e = (e, ClientMove-requests id move)
Step-ended id (pseudo move) e =
    let on : true ≡ false = sym (ap has_ended e) ∙ PseudoMove-has_ended move in cc on

Steps-ended :
    {n : ℕ} {s t : System} (id : ℕ)
    → Steps n s t
    → s.pseudo ≡ finished
    → (t.pseudo ≡ finished) × (count id (requests s.shared.ctx) ≤ count id (requests t.shared.ctx))
Steps-ended id here e = (e, omega arith)
Steps-ended id (next st step) e =
    let (still, more) = Steps-ended id st e in
    let (ended, most) = Step-ended id step still in (ended, omega arith)

-- Once the pseudo thread has ended, a request that is in the request queue stays there in every later
-- state, its ID is in no completion and was never handed out: a client that waits for it waits for ever.
pub ended_request_lost :
    {n : ℕ} {s t : System} (id : ℕ)
    → Reach n s
    → s.pseudo ≡ finished
    → 0 < count id (requests s.shared.ctx)
    → Steps n s t
    → (0 < count id (requests t.shared.ctx))
      × (count id (completions t.shared.ctx) ≡ 0)
      × (count id t.shared.handed ≡ 0)
ended_request_lost id r e there st =
    let (ended, more) = Steps-ended id st e in
    let one = Reach-places id (Reach-Steps r st) in ground arith
