-- ===== src/Queues/Tests.antt =====
-- Concrete queues.
use veoffload.Base.{ℕ, ◌≡◌, ◌⊎◌, none, some, List, [], ◌∷◌, ◌++◌}
use veoffload.Queues.Blocking.{
  Command, command_ok, command_unfinished, new_command, set_result, queue_closed, queue_ready,
}
use veoffload.Queues.Comm.{CommQueue, peek_completion, wait_completion, set_completion}
use veoffload.Queues.Find.{Absent, wait_completion_lem}
use veoffload.Queues.Drain.{set_completion_lem}

abbrev first : Command ℕ
first = new_command 3 30

abbrev second : Command ℕ
second = new_command 5 50

abbrev done : Command ℕ
done = set_result 7 command_ok (new_command 1 10)

abbrev two_requests : CommQueue ℕ
two_requests = record {
  request = record { queue = first ∷ second ∷ []; status = queue_closed };
  completion = record { queue = done ∷ []; status = queue_ready };
}

set_completion_lem_example :
    set_completion two_requests
    ≡ some (record {
      request = record { queue = []; status = queue_closed };
      completion = record {
        queue =
            done
            ∷ set_result 0 command_unfinished first
            ∷ set_result 0 command_unfinished second
            ∷ [];
        status = queue_ready;
      };
    })
set_completion_lem_example = set_completion_lem two_requests

wait_completion_lem_example :
    (wait_completion 1 two_requests ≡ peek_completion 1 two_requests)
    × ((peek_completion 1 two_requests ≡ none × Absent 1 (done ∷ []))
        ⊎ ((before : List (Command ℕ)) × (c : Command ℕ) × (after : List (Command ℕ)) × (done ∷ []
              ≡ before ++ c ∷ after)
            × (peek_completion 1 two_requests
                ≡ some (
                  c,
                  record two_requests {
                    completion = record two_requests.completion { queue = before ++ after };
                  },
                ))
            × (c.msgid ≡ 1)
            × Absent 1 before))
wait_completion_lem_example = wait_completion_lem 1 two_requests
