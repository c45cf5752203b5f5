-- ===== src/Composed/SystemTests.antt =====
-- While the pseudo thread comes to its first block request, a client makes a transfer that fails and a
-- call.
use veoffload.Base.{ℕ, false, ◌<◌, ◌≡◌, refl, some, List, [], ◌∷◌, arith, negsuc, ok, store}
use veoffload.Queues.Blocking.{
  command_error, command_unfinished, new_command, set_result, queue_ready, queue_closed, push, pop,
  pop_no_wait, set_status,
}
use veoffload.Queues.Comm.{pop_request, push_completion, set_request_status, set_completion, drain}
use veoffload.Context.State.{
  Context, Task, vh_task, read_task, state_running, state_exit, new_context, contains,
  issue_request_id,
}
use veoffload.Context.Issue.{issued, issue_issued}
use veoffload.Execution.Driver.{World, has_bits}
use veoffload.Execution.Calls.{read_mem, collect_return_value}
use veoffload.Execution.Filters.{default_filter, is_veo_block}
use veoffload.Execution.Exceptions.{
  wait_for_exception, system_call, handle_raised, handle_single_exception, exception_handler,
  execute_ve, judge, is_fatal,
}
use veoffload.Execution.Start.{after_first, start_event_loop}
use veoffload.Execution.Handlers.{run_task, run_handler, run_read, to_u64}
use veoffload.Execution.Loop.{returned, conclude, stop, event_turn, event_loop}
use veoffload.Execution.Script.{Script, block_event, script_driver, scripted}
use veoffload.Threads.Tally.{assign}
use veoffload.Threads.Moves.{
  Pseudo, Client, idle, starting, issued_id, ready, first_run, start, issue, check_ready, push_it,
}
use veoffload.Threads.System.{System, client, Reach, begin, later}
use veoffload.Composed.Started.{start_event_loop-Reach}

abbrev bad_read : ℕ → Task
bad_read id = read_task 500 0 1

abbrev call : ℕ → Task
call id = vh_task 64 2

abbrev started : Context
started = record (new_context false) { state = state_running }

-- Both requests have been pushed.
abbrev asked : Context
asked = record (issued (issued started)) {
  comq = record started.comq {
    request = record {
      queue = new_command 0 (read_task 500 0 1) ∷ new_command 1 (vh_task 64 2) ∷ [];
      status = queue_ready;
    };
  };
}

-- The client's thread from idle to idle.
abbrev asking : ℕ → (ℕ → Task) → (ℕ → Client) → ℕ → Client
asking id task cs = assign 0 idle (
    assign 0 (ready id (task id)) (assign 0 (issued_id id (task id)) (assign 0 (starting task) cs)))

abbrev asking_system : System
asking_system = record {
  shared = record { ctx = asked; pushed = 0 ∷ 1 ∷ []; taken = []; refused = []; handed = [] };
  clients = asking 1 call (asking 0 bad_read (λ _. idle));
  pseudo = first_run;
}

zero_lt : 0 < 1
zero_lt = omega arith

first_issue : issue_request_id started ≡ some (0, issued started)
first_issue = issue_issued started (omega arith)

-- The transfer has been pushed.
abbrev pushed_one : Context
pushed_one = record (issued started) {
  comq = record started.comq {
    request = record { queue = new_command 0 (read_task 500 0 1) ∷ []; status = queue_ready };
  };
}

second_issue : issue_request_id pushed_one ≡ some (1, issued pushed_one)
second_issue = issue_issued pushed_one (omega arith)

asking_run : Reach 1 asking_system
unfolding push
asking_run =
    let r₁ = later begin (client 0 zero_lt (start bad_read refl)) in
    let r₂ = later r₁ (client 0 zero_lt (issue (omega arith) first_issue)) in
    let r₃ = later r₂ (client 0 zero_lt (check_ready refl)) in
    let r₄ = later r₃ (client 0 zero_lt push_it) in
    let r₅ = later r₄ (client 0 zero_lt (start call refl)) in
    let r₆ = later r₅ (client 0 zero_lt (issue (omega arith) second_issue)) in
    let r₇ = later r₆ (client 0 zero_lt (check_ready refl)) in later r₇ (client 0 zero_lt push_it)

-- The transfer has failed, and the call is left unfinished.
abbrev failed_context : Context
failed_context = record asked {
  state = state_exit;
  ve_sp = 4096;
  comq = record {
    request = record { queue = []; status = queue_closed };
    completion = record {
      queue =
          set_result (to_u64 (negsuc 0)) command_error (new_command 0 (read_task 500 0 1))
          ∷ set_result 0 command_unfinished (new_command 1 (vh_task 64 2))
          ∷ [];
      status = queue_ready;
    };
  };
}

abbrev failed_world : World Script
failed_world = record (scripted failed_context []) {
  vh = store (λ a. a) 500 (9 ∷ []);
  ve = record { now = block_event; next = [] };
}

loop_fails :
    start_event_loop script_driver 1 1 0 0 3 (scripted asked (block_event ∷ []))
    ≡ ok (returned failed_world)
unfolding start_event_loop after_first collect_return_value execute_ve exception_handler
    handle_single_exception wait_for_exception handle_raised system_call default_filter has_bits
    contains judge is_fatal is_veo_block event_loop event_turn pop_request pop run_task run_handler
    run_read read_mem conclude stop push_completion push set_request_status set_status
    set_completion drain pop_no_wait
loop_fails = refl

start_event_loop-Reach_example :
    (ids : List ℕ) × Reach 1 (record asking_system {
      shared = record asking_system.shared { ctx = failed_context; taken = ids };
      pseudo = Pseudo.finished;
    })
start_event_loop-Reach_example =
    start_event_loop-Reach script_driver 1 1 0 0 3 1 (scripted asked (block_event ∷ []))
      asking_system (returned failed_world) asking_run refl refl ((λ id e. cc), ((λ id e. cc), tt))
      loop_fails
