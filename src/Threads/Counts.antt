-- ===== src/Threads/Counts.antt =====
-- How often a request ID stands in each place.
use veoffload.Base.{
  ℕ, ◌+◌, ◌≡◌, refl, sym, ap, ◌∙◌, ◌⊎◌, inl, inr, some, List, [], ◌∷◌, ◌++◌, arith, ◌==◌,
  if◌then◌else◌,
}
use veoffload.Queues.Blocking.{Command, pop}
use veoffload.Queues.Comm.{CommQueue, pop_request, wait_completion, peek_completion}
use veoffload.Queues.Find.{wait_completion_lem}
use veoffload.Context.State.{Context, Task}
use veoffload.Threads.Moves.{
  Client, idle, starting, issued_id, ready, waiting, Pseudo, first_run, at_test, popping, running,
  failed, closed, draining, closing, finished,
}

abbrev pub one_if : ℕ → ℕ → ℕ
one_if id j = if j == id then 1 else 0

unfoldable pub count : ℕ → List ℕ → ℕ
count id [] = 0
count id (j ∷ js) = one_if id j + count id js

pub count-append : (id : ℕ) (xs ys : List ℕ) → count id (xs ++ ys) ≡ count id xs + count id ys
unfolding count
count-append id [] ys = omega arith
count-append id (x ∷ xs) ys = omega (arith, count-append id xs ys)

-- The IDs of a queue's commands.
unfoldable pub ids : List (Command Task) → List ℕ
ids [] = []
ids (c ∷ cs) = c.msgid ∷ ids cs

pub ids-append : (xs ys : List (Command Task)) → ids (xs ++ ys) ≡ ids xs ++ ids ys
unfolding ids
ids-append [] ys = refl
ids-append (x ∷ xs) ys = ap (◌∷◌ x.msgid) (ids-append xs ys)

-- A client between `issueRequestID` and the end of `pushRequest` has its ID with it.
abbrev pub with_client : ℕ → Client → ℕ
with_client id idle = 0
with_client id (starting task) = 0
with_client id (issued_id j task) = one_if id j
with_client id (ready j task) = one_if id j
with_client id (waiting j) = 0

abbrev pub with_pseudo : ℕ → Pseudo → ℕ
with_pseudo id first_run = 0
with_pseudo id at_test = 0
with_pseudo id popping = 0
with_pseudo id (running c) = one_if id c.msgid
with_pseudo id (failed c) = one_if id c.msgid
with_pseudo id (closed c) = one_if id c.msgid
with_pseudo id draining = 0
with_pseudo id (closing j) = one_if id j
with_pseudo id finished = 0

abbrev pub requests : Context → List ℕ
requests ctx = ids ctx.comq.request.queue

abbrev pub completions : Context → List ℕ
completions ctx = ids ctx.comq.completion.queue

-- What is popped was the first request, and nothing else changes.
pub pop_request_lem :
    (q q' : CommQueue Task) (c : Command Task)
    → pop_request q ≡ some (c, q')
    → (q.request.queue ≡ c ∷ q'.request.queue)
      × (q'.request.status ≡ q.request.status)
      × (q'.completion ≡ q.completion)
unfolding pop_request pop
pop_request_lem q q' c e = ground arith

count-middle :
    (j : ℕ) (before : List (Command Task)) (d : Command Task) (after : List (Command Task))
    → count j (ids (before ++ d ∷ after)) ≡ count j (ids (before ++ after)) + one_if j d.msgid
unfolding count ids
count-middle j [] d after = omega arith
count-middle j (b ∷ before) d after = omega (arith, count-middle j before d after)

-- What is taken from the completion queue was there, once more than it is left there.
pub wait_completion_counts :
    (id : ℕ) (q q' : CommQueue Task) (c : Command Task)
    → (wait_completion id q ≡ some (c, q')) ⊎ (peek_completion id q ≡ some (c, q'))
    → (c.msgid ≡ id)
      × (q'.request ≡ q.request)
      × ((j : ℕ)
          → count j (ids q.completion.queue) ≡ count j (ids q'.completion.queue) + one_if j id)
wait_completion_counts id q q' c e =
    let peeked : peek_completion id q ≡ some (c, q') = elim e [
      | inl w ↦ sym (wait_completion_lem id q).0 ∙ w
      | inr p ↦ p
    ] in
    elim ((wait_completion_lem id q).1) [
      | inl (missing, absent) ↦ cc
      | inr (before, d, after, split, found, same, absent) ↦
          let left : q'.completion.queue ≡ before ++ after = ground arith in
          (
            ground arith,
            ground arith,
            λ j.
                ap (λ cs. count j (ids cs)) split ∙ count-middle j before d after ∙ rw (left, same),
          )
    ]
