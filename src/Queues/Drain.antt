-- ===== src/Queues/Drain.antt =====
-- `setCompletion` ends, and moves every request.
use veoffload.Base.{
  ℕ, zero, suc, ◌+◌, ◌<◌, ◌≡◌, ap, ◌∙◌, some, List, [], ◌∷◌, ◌++◌, map, arith, length, append_assoc,
  append-nil,
}
use veoffload.Queues.Blocking.{Command, command_unfinished, set_result, push, pop_no_wait}
use veoffload.Queues.Comm.{CommQueue, drain, set_completion}

module _ {T : Type 0} where
  abbrev pub unfinished : Command T → Command T
  unfinished = set_result 0 command_unfinished

  -- The pair of queues with given contents.
  abbrev with_queues : CommQueue T → List (Command T) → List (Command T) → CommQueue T
  with_queues q rs cs = record {
    request = record q.request { queue = rs };
    completion = record q.completion { queue = cs };
  }

  drain_lem :
      (fuel : ℕ) (q : CommQueue T) (rs cs : List (Command T))
      → length rs < fuel
      → drain fuel (with_queues q rs cs) ≡ some (with_queues q [] (cs ++ map unfinished rs))
  unfolding drain pop_no_wait push
  drain_lem zero q rs cs h = elim h [ ]
  drain_lem (suc fuel) q [] cs h = rw (append-nil cs)
  drain_lem (suc fuel) q (r ∷ rs) cs h =
      drain_lem fuel q rs (cs ++ unfinished r ∷ []) (omega arith)
      ∙ ap (λ ds. some (with_queues q [] ds))
          (append_assoc cs (unfinished r ∷ []) (map unfinished rs))

  -- `setCompletion` ends, leaves no request, and appends every request to the completions, in order,
  -- with the result 0 and the status `VEO_COMMAND_UNFINISHED`.
  pub set_completion_lem :
      (q : CommQueue T)
      → set_completion q
        ≡ some (record {
          request = record q.request { queue = [] };
          completion = record q.completion {
            queue = q.completion.queue ++ map (set_result 0 command_unfinished) q.request.queue;
          };
        })
  unfolding set_completion
  set_completion_lem q =
      drain_lem (length q.request.queue + 1) q q.request.queue q.completion.queue (omega arith)
