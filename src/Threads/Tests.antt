-- ===== src/Threads/Tests.antt =====
-- A run of two clients and the pseudo thread: one client passes the status test of `pushRequest`, the
-- other closes the context, and then the first pushes.
use veoffload.Base.{ℕ, ◌<◌, ◌≡◌, refl, some, [], ◌∷◌, arith, false}
use veoffload.Queues.Blocking.{Command, command_ok, new_command, set_result, push, queue_ready}
use veoffload.Queues.Comm.{push_completion, pop_request}
use veoffload.Queues.Blocking.{pop}
use veoffload.Context.State.{
  Context, Task, vh_task, close_task, state_blocked, state_exit, new_context, issue_request_id,
}
use veoffload.Context.Issue.{issued, issue_issued}
use veoffload.Threads.Tally.{assign}
use veoffload.Threads.Moves.{
  Client, idle, starting, issued_id, ready, waiting, finished, start, issue, check_ready, push_it,
  first_block, enter, pop_one, close_begin, close_end,
}
use veoffload.Threads.System.{System, client, pseudo, Reach, begin, later}
use veoffload.Threads.Counts.{count, ids, requests, completions}
use veoffload.Threads.Places.{places, was_issued, Reach-places}
use veoffload.Threads.Order.{InOrder, Reach-InOrder}
use veoffload.Threads.Lost.{here, ended_request_lost}

abbrev call : ℕ → Task
call id = vh_task 64 0

abbrev started : Context
started = record (new_context false) { state = state_blocked; ve_sp = 0 }

abbrev reply : Command Task
reply = set_result 0 command_ok (new_command 1 (close_task 1))

-- After the run: the call is in the request queue, and the pseudo thread has ended.
abbrev lost_context : Context
lost_context = record (issued (issued started)) {
  state = state_exit;
  comq = record {
    request = record { queue = new_command 0 (vh_task 64 0) ∷ []; status = queue_ready };
    completion = record { queue = reply ∷ []; status = queue_ready };
  };
}

abbrev lost_clients : ℕ → Client
lost_clients = assign 0 idle (
    assign 1 (waiting 1) (
      assign 1 (ready 1 (close_task 1)) (
        assign 1 (issued_id 1 (close_task 1)) (
          assign 1 (starting close_task) (
            assign 0 (ready 0 (vh_task 64 0))
              (assign 0 (issued_id 0 (vh_task 64 0)) (assign 0 (starting call) (λ _. idle))))))))

abbrev lost_system : System
lost_system = record {
  shared = record {
    ctx = lost_context;
    pushed = 1 ∷ 0 ∷ [];
    taken = 1 ∷ [];
    refused = [];
    handed = [];
  };
  clients = lost_clients;
  pseudo = finished;
}

zero_lt : 0 < 2
zero_lt = omega arith

one_lt : 1 < 2
one_lt = omega arith

first_issue : issue_request_id started ≡ some (0, issued started)
first_issue = issue_issued started (omega arith)

second_issue : issue_request_id (issued started) ≡ some (1, issued (issued started))
second_issue = issue_issued (issued started) (omega arith)

lost_run : Reach 2 lost_system
unfolding push push_completion pop_request pop
lost_run =
    let r₀ = later begin (pseudo (first_block 0)) in
    let r₁ = later r₀ (client 0 zero_lt (start call refl)) in
    let r₂ = later r₁ (client 0 zero_lt (issue (omega arith) first_issue)) in
    let r₃ = later r₂ (client 0 zero_lt (check_ready refl)) in
    let r₄ = later r₃ (client 1 one_lt (start close_task refl)) in
    let r₅ = later r₄ (client 1 one_lt (issue (omega arith) second_issue)) in
    let r₆ = later r₅ (client 1 one_lt (check_ready refl)) in
    let r₇ = later r₆ (client 1 one_lt push_it) in
    let r₈ = later r₇ (pseudo (enter refl)) in
    let r₉ = later r₈ (pseudo (pop_one refl)) in
    let r₁₀ = later r₉ (pseudo close_begin) in
    let r₁₁ = later r₁₀ (pseudo close_end) in later r₁₁ (client 0 zero_lt push_it)

Reach-places_example : places 2 0 lost_system ≡ was_issued 0 2
Reach-places_example = Reach-places 0 lost_run

Reach-InOrder_example : InOrder lost_system.shared
Reach-InOrder_example = Reach-InOrder lost_run

lost_there : 0 < count 0 (requests lost_context)
unfolding count ids
lost_there = omega arith

ended_request_lost_example :
    (0 < count 0 (requests lost_context))
    × (count 0 (completions lost_context) ≡ 0)
    × (count 0 lost_system.shared.handed ≡ 0)
ended_request_lost_example = ended_request_lost 0 lost_run refl lost_there here
