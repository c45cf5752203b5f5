-- ===== src/Queues/Find.antt =====
-- What `tryFind`, and so `peekCompletion` and `waitCompletion`, find in a queue.
use veoffload.Base.{
  ℕ, ◌≡◌, refl, ap, ◌≢◌, ◌⊎◌, inl, inr, Option, none, some, List, [], ◌∷◌, ◌++◌, arith, ◌==◌,
  append-nil, Bool-cases, ==_iff, true, false,
}
use veoffload.Queues.Blocking.{Command, push, find, try_find}
use veoffload.Queues.Comm.{CommQueue, push_completion, peek_completion, wait_completion}

module _ {T : Type 0} where
  -- No command of the list has the message ID.
  abbrev pub Absent : ℕ → List (Command T) → Type 0
  Absent id [] = Unit {0}
  Absent id (c ∷ cs) = (c.msgid ≢ id) × Absent id cs

  -- What a search can give: nothing, where no command has the ID; or the first that has it, and the
  -- others in their order.
  abbrev pub Found : ℕ → List (Command T) → Option (Command T × List (Command T)) → Type 0
  Found id cs r =
      ((r ≡ none) × Absent id cs)
      ⊎ ((before : List (Command T)) × (c : Command T) × (after : List (Command T)) × (cs
            ≡ before ++ c ∷ after)
          × (r ≡ some (c, before ++ after))
          × (c.msgid ≡ id)
          × Absent id before)

  pub find-Found : (id : ℕ) (cs : List (Command T)) → Found id cs (find id cs)
  unfolding find
  find-Found id [] = inl (refl, tt)
  find-Found id (c ∷ cs) = elim (Bool-cases (c.msgid == id)) [
    | inl hit ↦ inr ([], c, cs, refl, rw hit, (==_iff c.msgid id).0 hit, tt)
    | inr miss ↦
        let differs : c.msgid ≢ id = ground arith in
        elim (find-Found id cs) [
          | inl (e, absent) ↦ inl (rw (miss, e), (differs, absent))
          | inr (before, d, after, split, e, same, absent) ↦
              inr (c ∷ before, d, after, ap (◌∷◌ c) split, rw (miss, e), same, (differs, absent))
        ]
  ]

  pub find-Absent : (id : ℕ) (cs : List (Command T)) → Absent id cs → find id cs ≡ none
  unfolding find
  find-Absent id [] h = refl
  find-Absent id (c ∷ cs) h =
      let miss : (c.msgid == id) ≡ false = ground arith in rw (miss, find-Absent id cs h.1)

  pub find-first :
      (id : ℕ) (before : List (Command T)) (c : Command T) (after : List (Command T))
      → Absent id before
      → c.msgid ≡ id
      → find id (before ++ c ∷ after) ≡ some (c, before ++ after)
  unfolding find
  find-first id [] c after h e = let hit : (c.msgid == id) ≡ true = ground arith in rw hit
  find-first id (b ∷ before) c after h e =
      let miss : (b.msgid == id) ≡ false = ground arith in
      rw (miss, find-first id before c after h.1 e)

  -- `waitCompletion` and `peekCompletion` agree. Each takes from the completion queue the first
  -- command with the message ID, keeps the others in their order and leaves the request queue as it is;
  -- it gives nothing (and `waitCompletion` waits) exactly where no completed command has the ID.
  pub wait_completion_lem :
      (id : ℕ) (q : CommQueue T)
      → (wait_completion id q ≡ peek_completion id q)
        × ((peek_completion id q ≡ none × Absent id q.completion.queue)
            ⊎ ((before : List (Command T)) × (c : Command T) × (after : List (Command T))
                × (q.completion.queue ≡ before ++ c ∷ after)
                × (peek_completion id q
                    ≡ some (
                      c,
                      record q { completion = record q.completion { queue = before ++ after } },
                    ))
                × (c.msgid ≡ id)
                × Absent id before))
  unfolding wait_completion peek_completion try_find
  wait_completion_lem id q = (
    refl,
    elim (find-Found id q.completion.queue) [
      | inl (e, absent) ↦ inl (rw (e, peek_completion, try_find), absent)
      | inr (before, c, after, split, e, same, absent) ↦
          inr (before, c, after, split, rw (e, peek_completion, try_find), same, absent)
    ],
  )

  -- A completion that is pushed is found by its ID, once, where no earlier completion has that ID: the
  -- queues are afterwards what they were before the push.
  pub peek-push_completion :
      (c : Command T) (q : CommQueue T)
      → Absent c.msgid q.completion.queue
      → peek_completion c.msgid (push_completion c q) ≡ some (c, q)
  unfolding peek_completion push_completion try_find push
  peek-push_completion c q absent = rw (
    find-first c.msgid q.completion.queue c [] absent refl,
    peek_completion,
    try_find,
    append-nil q.completion.queue,
  )

  pub wait-Absent :
      (id : ℕ) (q : CommQueue T) → Absent id q.completion.queue → wait_completion id q ≡ none
  unfolding wait_completion try_find
  wait-Absent id q absent = rw (find-Absent id q.completion.queue absent, wait_completion, try_find)
