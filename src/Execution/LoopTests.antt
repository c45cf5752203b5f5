-- ===== src/Execution/LoopTests.antt =====
-- Concrete rounds of the event loop: a VH call, a transfer that fails, and a request behind them.
use veoffload.Base.{ℕ, ◌≡◌, refl, true, false, some, List, [], ◌∷◌, arith, pos, negsuc, ok, store}
use veoffload.Queues.Blocking.{
  Command, CommandStatus, command_ok, command_error, command_unfinished, new_command, set_result,
  queue_ready, queue_closed, push, pop, pop_no_wait, set_status,
}
use veoffload.Queues.Comm.{
  push_request, new_comm, pop_request, push_completion, set_request_status, set_completion, drain,
}
use veoffload.Context.State.{
  Context, Task, vh_task, read_task, state_blocked, state_exit, new_context, contains,
}
use veoffload.Execution.Driver.{World}
use veoffload.Execution.Calls.{read_mem}
use veoffload.Execution.Handlers.{finished, run_task, run_handler, run_vh, run_read, to_u64}
use veoffload.Execution.Ends.{Done}
use veoffload.Execution.Reports.{Reports, run_task_lem}
use veoffload.Execution.Loop.{Turn, goes_on, returned, conclude, stop, event_turn, event_loop}
use veoffload.Execution.Turns.{requests, completions, taken, event_turn_success, event_turn_failure}
use veoffload.Execution.Order.{known, end_world}
use veoffload.Execution.Rounds.{event_loop-order, IsEnd}
use veoffload.Execution.Liveness.{requests_answered}
use veoffload.Execution.Progress.{event_loop-total}
use veoffload.Context.Requests.{call_vh_async}
use veoffload.Context.Results.{answered, call_wait_result}
use veoffload.Execution.RoundTrip.{call_vh_async-wait}
use veoffload.Execution.Script.{Script, script_driver, scripted}

abbrev vh_command : Command Task
vh_command = new_command 0 (vh_task 64 2)

abbrev bad_read : Command Task
bad_read = new_command 1 (read_task 500 0 1)

abbrev behind : Command Task
behind = new_command 2 (vh_task 64 3)

abbrev vh_done : Command Task
vh_done = set_result 66 command_ok vh_command

abbrev read_failed : Command Task
read_failed = set_result (to_u64 (negsuc 0)) command_error bad_read

abbrev context : List (Command Task) → Context
context rs = record (new_context false) {
  state = state_blocked;
  seq_no = 3;
  rem_reqid = 2 ∷ 1 ∷ 0 ∷ [];
  comq = record new_comm { request = record { queue = rs; status = queue_ready } };
}

abbrev all : World Script
all = scripted (context (vh_command ∷ bad_read ∷ behind ∷ [])) []

abbrev two : World Script
two = scripted (context (bad_read ∷ behind ∷ [])) []

-- The world once the transfer has failed: a byte was stored.
abbrev after_read : World Script
after_read = record (taken script_driver (behind ∷ []) two) { vh = store (λ a. a) 500 (9 ∷ []) }

vh_runs :
    run_task script_driver 1 1 0 vh_command (taken script_driver (bad_read ∷ behind ∷ []) all)
    ≡ ok (finished (pos 0) vh_done (taken script_driver (bad_read ∷ behind ∷ []) all))
unfolding run_task run_handler run_vh
vh_runs = refl

read_fails :
    run_task script_driver 1 1 0 bad_read (taken script_driver (behind ∷ []) two)
    ≡ ok (finished (negsuc 0) read_failed after_read)
unfolding run_task run_handler run_read read_mem
read_fails = refl

run_task_lem_example :
    Done script_driver bad_read
      (taken script_driver (behind ∷ []) two)
      (finished (negsuc 0) read_failed after_read)
    × Reports script_driver
        (read_task 500 0 1)
        bad_read
        (taken script_driver (behind ∷ []) two)
        (finished (negsuc 0) read_failed after_read)
run_task_lem_example =
    run_task_lem script_driver 1 1 0 bad_read (taken script_driver (behind ∷ []) two)
      (finished (negsuc 0) read_failed after_read) refl read_fails

event_turn_success_example :
    (w : World Script) × (event_turn script_driver 1 1 0 all ≡ ok (goes_on w))
    × (w.ctx.state ≡ state_blocked)
    × (requests script_driver w ≡ bad_read ∷ behind ∷ [])
    × (completions script_driver w ≡ vh_done ∷ [])
    × (w.ctx.comq.request.status ≡ queue_ready)
    × (w.ctx.rem_reqid ≡ 2 ∷ 1 ∷ 0 ∷ [])
    × (vh_done.msgid ≡ vh_command.msgid)
    × ((r : ℕ) × (s : CommandStatus) × (vh_done.result ≡ some (r, s)))
event_turn_success_example =
    event_turn_success script_driver 1 1 0 all (taken script_driver (bad_read ∷ behind ∷ []) all)
      vh_command vh_done (bad_read ∷ behind ∷ []) (pos 0) refl refl vh_runs refl

event_turn_failure_example :
    (w : World Script) × (event_turn script_driver 1 1 0 two ≡ ok (returned w))
    × (w.ctx.state ≡ state_exit)
    × (requests script_driver w ≡ [])
    × ((c : Command Task) → push_request c w.ctx.comq ≡ (1, w.ctx.comq))
    × (completions script_driver w ≡ read_failed ∷ set_result 0 command_unfinished behind ∷ [])
    × (read_failed.msgid ≡ bad_read.msgid)
    × ((r : ℕ) × (s : CommandStatus) × (read_failed.result ≡ some (r, s)))
event_turn_failure_example =
    event_turn_failure script_driver 1 1 0 two after_read bad_read read_failed (behind ∷ [])
      (negsuc 0) refl refl read_fails refl

-- The loop from `all` ends here.
abbrev last_world : World Script
last_world = record all {
  vh = store (λ a. a) 500 (9 ∷ []);
  ctx = record (context []) {
    state = state_exit;
    comq = record {
      request = record { queue = []; status = queue_closed };
      completion = record {
        queue = vh_done ∷ read_failed ∷ set_result 0 command_unfinished behind ∷ [];
        status = queue_ready;
      };
    };
  };
}

loop_returns : event_loop script_driver 1 1 0 4 all ≡ ok (returned last_world)
unfolding event_loop event_turn pop_request pop run_task run_handler run_vh run_read read_mem
    conclude stop push_completion push set_request_status set_status set_completion drain
    pop_no_wait
loop_returns = refl

event_loop-order_example :
    (known script_driver last_world ≡ 0 ∷ 1 ∷ 2 ∷ []) × IsEnd script_driver (returned last_world)
event_loop-order_example =
    event_loop-order script_driver 1 1 0 4 all (returned last_world)
      ((λ id e. cc), ((λ id e. cc), ((λ id e. cc), tt))) loop_returns

event_loop-total_example : (t : Turn script_driver) × (event_loop script_driver 1 1 0 4 all ≡ ok t)
event_loop-total_example =
    event_loop-total script_driver 1 1 0 4 all (refl, (refl, (refl, tt))) (omega arith)

abbrev quiet : World Script
quiet = scripted (context []) []

call_vh_async-wait_example :
    (id : ℕ) × (ctx : Context) × (w : World Script) × (ctx' : Context) × (call_vh_async 64 2
        quiet.ctx
      ≡ some (id, ctx))
    × (event_turn script_driver 1 1 0 (record quiet { ctx = ctx }) ≡ ok (goes_on w))
    × (w.vh ≡ quiet.vh)
    × (call_wait_result id w.ctx ≡ ok (answered command_ok (some 66) ctx'))
call_vh_async-wait_example =
    call_vh_async-wait script_driver 1 1 0 quiet 64 2 (omega arith) refl (λ e. absurd (omega arith))
      refl refl tt

is_out : contains 2 all.ctx.rem_reqid ≡ true
unfolding contains
is_out = refl

is_pending : contains 2 (0 ∷ 1 ∷ 2 ∷ []) ≡ true
unfolding contains
is_pending = refl

-- The request behind the transfer that fails is answered.
requests_answered_example :
    (t : Turn script_driver) × (event_loop script_driver 1 1 0 4 all ≡ ok t)
    × ((s : CommandStatus) × (r : ℕ) × (ctx : Context) × (call_wait_result 2
            (end_world script_driver t).ctx
          ≡ ok (answered s (some r) ctx)))
requests_answered_example =
    requests_answered script_driver 1 1 0 4 all 2 refl tt (refl, (refl, (refl, tt)))
      (refl, (refl, (refl, tt))) (omega arith) is_out is_pending
