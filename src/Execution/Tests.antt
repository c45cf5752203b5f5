-- ===== src/Execution/Tests.antt =====
-- Concrete runs of the pseudo thread.
use veoffload.Base.{ℕ, ◌+◌, ◌≡◌, ◌⊎◌, refl, true, false, List, [], ◌∷◌, pos, ok}
use veoffload.Queues.Blocking.{Command, command_exception, new_command, set_result, queue_ready}
use veoffload.Queues.Comm.{new_comm}
use veoffload.Context.State.{
  Context, Task, call_task, state_running, state_blocked, new_context, contains,
}
use veoffload.Base.{negsuc, inl, arith}
use veoffload.Context.State.{state_exit}
use veoffload.Execution.Driver.{World, has_bits}
use veoffload.Execution.Filters.{default_filter, is_veo_block, status_exception, block_requested}
use veoffload.Execution.Exceptions.{
  judge, Handled, wait_for_exception, handle_single_exception, exception_handler, system_call,
  handle_raised, is_fatal, execute_ve,
}
use veoffload.Args.Setup.{
  CallArgs, empty_args, setup, get_stack_image, image_size, accumulate, fill, get_reg_vals,
  reg_vals, copyin,
}
use veoffload.Args.Layout.{params, buffers, placed, any_in, any_out, sizes}
use veoffload.Args.Layout.Whole.{prepared}
use veoffload.Execution.Calls.{update_args, do_call, enter, unblock}
use veoffload.Execution.Handlers.{finished, run_call}
use veoffload.Execution.Tasks.{call_value, run_call_lem}
use veoffload.Execution.Blocks.{Kept}
use veoffload.Execution.Trace.{at_once, later, Served, ends, resumes}
use veoffload.Execution.Served.{execute_ve_settles}
use veoffload.Execution.Runs.{Run, resumed, stops, afterwards, now, calls, served, blocks}
use veoffload.Execution.RunEnds.{execute_ve-Run, Run-execute_ve}
use veoffload.Execution.Loop.{returned}
use veoffload.Execution.Start.{with_running, with_exit, start_event_loop, start_event_loop_failure}
use veoffload.Execution.Script.{
  Event, Script, interrupted, system_call_event, block_event, fatal_event, script_driver, scripted,
}

abbrev running : Context
running = record (new_context false) { state = state_running }

-- A wait that is interrupted, a system call that is not filtered, and a block request.
abbrev events : List Event
events = interrupted ∷ system_call_event 1 0 ∷ block_event ∷ []

abbrev before : World Script
before = scripted running events

abbrev blocked_end : Handled script_driver
blocked_end = record {
  status = pos 1;
  exs = 0x100;
  world = record before {
    ve = record { now = block_event; next = [] };
    ctx = record running { state = state_blocked };
  };
}

before_run : Served script_driver before blocked_end
unfolding judge handle_raised system_call default_filter is_fatal has_bits contains is_veo_block
before_run = resumes (later refl (at_once refl)) refl (ends (at_once refl) refl)

execute_ve_settles_example :
    ((n : ℕ) × ((p f exs : ℕ)
        → execute_ve script_driver (n + p) (n + f) exs before ≡ ok blocked_end))
    × Kept script_driver before blocked_end.world
    × (((pos 1 ≡ pos block_requested) × (state_blocked ≡ state_blocked))
        ⊎ ((pos 1 ≡ status_exception) × (is_fatal script_driver.numbers 0x100 ≡ true)))
execute_ve_settles_example = execute_ve_settles script_driver before blocked_end refl before_run

settled_in_three : execute_ve script_driver 3 3 0 before ≡ ok blocked_end
unfolding execute_ve exception_handler handle_single_exception wait_for_exception judge
    handle_raised system_call default_filter is_fatal has_bits contains is_veo_block
settled_in_three = refl

-- The first system call is served, and the second one asks for a block.
run : Run script_driver before blocked_end
unfolding contains
run =
    resumed (afterwards (inl (refl, refl)) (now (refl, (λ e. absurd (omega arith)))))
      (calls (λ e. absurd (omega arith)) (served (λ e. cc) (λ e. absurd (ground arith))))
      (λ e. absurd (ground arith))
      (stops (now (refl, (λ e. absurd (omega arith))))
        (calls (λ e. absurd (omega arith)) (blocks (λ e. cc) (refl, refl)))
        (λ e. absurd (ground arith)))

execute_ve-Run_example : Run script_driver before blocked_end
execute_ve-Run_example = execute_ve-Run script_driver 3 3 0 before blocked_end refl settled_in_three

Run-execute_ve_example :
    (n : ℕ) × ((p f exs : ℕ) → execute_ve script_driver (n + p) (n + f) exs before ≡ ok blocked_end)
Run-execute_ve_example = Run-execute_ve script_driver before blocked_end refl run

abbrev idle : List (Command Task) → Context
idle requests = record (new_context false) {
  state = state_blocked;
  ve_sp = 65536;
  rem_reqid = 1 ∷ 0 ∷ [];
  comq = record new_comm { request = record { queue = requests; status = queue_ready } };
}

abbrev call_command : Command Task
call_command = new_command 0 (call_task 64 0)

abbrev call_world : World Script
call_world = scripted (idle []) events

-- The stack pointer is lowered by the empty image.
abbrev called_args : CallArgs
called_args = prepared (λ a. a) 65360 empty_args []

abbrev called : World Script
called = record call_world {
  ctx = record (idle []) { state = state_running; ve_sp = 65360 };
  args = update_args (λ i. empty_args) 0 called_args;
}

called_lem : do_call script_driver 64 0 call_world ≡ ok called
unfolding do_call enter unblock setup get_stack_image image_size accumulate fill get_reg_vals
    reg_vals copyin params buffers placed any_in any_out sizes
called_lem = refl

abbrev called_end : Handled script_driver
called_end = record {
  status = pos 1;
  exs = 0x100;
  world = record called {
    ve = record { now = block_event; next = [] };
    ctx = record called.ctx { state = state_blocked };
  };
}

called-Served : Served script_driver called called_end
unfolding judge handle_raised system_call default_filter is_fatal has_bits contains is_veo_block
called-Served = resumes (later refl (at_once refl)) refl (ends (at_once refl) refl)

run_call_lem_example :
    (n : ℕ) × ((p f exs : ℕ)
      → ((pos 1 ≡ pos block_requested)
          × (run_call script_driver (n + p) (n + f) exs 64 0 call_command call_world
              ≡ call_value script_driver 0 call_command called_end.world))
        ⊎ ((pos 1 ≡ status_exception)
            × (run_call script_driver (n + p) (n + f) exs 64 0 call_command call_world
                ≡ ok (
                    finished
                      (pos 1)
                      (set_result 0x100 command_exception call_command)
                      called_end.world))))
run_call_lem_example =
    run_call_lem script_driver 64 0 call_command call_world called called_end called_lem
      called-Served

-- A new context with a request, whose VE thread meets a fatal exception at once.
abbrev unlucky : World Script
unlucky = scripted (idle (call_command ∷ [])) (fatal_event ∷ [])

abbrev unlucky_end : Handled script_driver
unlucky_end = record {
  status = negsuc 0;
  exs = 0x200;
  world = record (with_running script_driver unlucky) {
    ve = record { now = fatal_event; next = [] };
  };
}

unlucky-Served : Served script_driver (with_running script_driver unlucky) unlucky_end
unfolding judge handle_raised system_call default_filter is_fatal has_bits contains is_veo_block
unlucky-Served = ends (at_once refl) refl

start_event_loop_failure_example :
    (n : ℕ) × ((p f exs event_exs rounds : ℕ)
      → start_event_loop script_driver (n + p) (n + f) exs event_exs rounds unlucky
        ≡ ok (returned (with_exit script_driver unlucky_end.world)))
    × (state_exit ≡ state_exit)
    × (unlucky_end.world.ctx.comq ≡ unlucky.ctx.comq)
start_event_loop_failure_example =
    start_event_loop_failure script_driver unlucky unlucky_end refl unlucky-Served refl
