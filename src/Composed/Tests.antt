-- ===== src/Composed/Tests.antt =====
-- Runs of a worker: two transfers, of which the second one fails, and a call.
use veoffload.Base.{ℕ, suc, ◌+◌, false, ◌≡◌, refl, [], ◌∷◌, arith, ok, pos}
use veoffload.Args.Setup.{
  CallArgs, empty_args, setup, get_stack_image, image_size, accumulate, fill, get_reg_vals,
  reg_vals, copyin, copyout,
}
use veoffload.Args.Layout.{params, buffers, placed, any_in, any_out, sizes}
use veoffload.Args.Layout.Whole.{prepared}
use veoffload.Queues.Blocking.{command_ok, set_result}
use veoffload.Context.State.{new_context, state_blocked, state_running, contains}
use veoffload.Context.Answers.{claimed}
use veoffload.Execution.Driver.{World, has_bits}
use veoffload.Execution.Filters.{default_filter, is_veo_block}
use veoffload.Execution.Exceptions.{judge, Handled, system_call, handle_raised, is_fatal}
use veoffload.Execution.Calls.{update_args, do_call, enter, unblock, collect_return_value}
use veoffload.Execution.Handlers.{finished, finish_call}
use veoffload.Execution.Trace.{at_once, later, Served, ends, resumes}
use veoffload.Execution.Script.{
  Script, script_driver, scripted, interrupted, system_call_event, block_event,
}
use veoffload.Proc.Worker.{do_on_context}
use veoffload.Composed.Pseudo.{pseudo_worker}
use veoffload.Composed.Serve.{idle}
use veoffload.Composed.Transfers.{reads, writes, replay, run, view}
use veoffload.Composed.Refines.{run-refines}
use veoffload.Composed.Calls.{the_command, entered}
use veoffload.Composed.Values.{do_on_context_value}

abbrev idle_worker : World Script
idle_worker = scripted (record (new_context false) { state = state_blocked }) []

run-refines_example :
    view (run script_driver 1 1 0 2 0 (writes 100 500 2 ∷ reads 600 0 4 ∷ []) idle_worker)
    ≡ replay script_driver (writes 100 500 2 ∷ reads 600 0 4 ∷ []) (idle_worker.vh, idle_worker.ve)
run-refines_example =
    run-refines script_driver 1 1 0 0 0 (writes 100 500 2 ∷ reads 600 0 4 ∷ []) idle_worker
      (omega arith) refl refl

-- A worker whose VE serves a system call and then stops at a block request, with the value 77.
abbrev caller : World Script
caller =
    scripted (record (new_context false) { state = state_blocked; ve_sp = 65536 })
      (interrupted ∷ system_call_event 1 0 ∷ block_event ∷ [])

abbrev start : World Script
start = entered script_driver 0 64 empty_args caller

-- The stack pointer is lowered by the empty image.
abbrev image : CallArgs
image = prepared (λ a. a) 65360 empty_args []

abbrev called : World Script
called = record start {
  ctx = record start.ctx { state = state_running; ve_sp = 65360 };
  args = update_args start.args 0 image;
}

called_lem : do_call script_driver 64 0 start ≡ ok called
unfolding do_call enter unblock setup get_stack_image image_size accumulate fill get_reg_vals
    reg_vals copyin params buffers placed any_in any_out sizes
called_lem = refl

abbrev called_end : Handled script_driver
called_end = record {
  status = pos 1;
  exs = 0x100;
  world = record called {
    ve = record { now = block_event; next = [] };
    ctx = record called.ctx { state = state_blocked };
  };
}

called-Served : Served script_driver called called_end
unfolding judge handle_raised system_call default_filter is_fatal has_bits contains is_veo_block
called-Served = resumes (later refl (at_once refl)) refl (ends (at_once refl) refl)

abbrev collected : World Script
collected = record called_end.world {
  ctx = record called_end.world.ctx { ve_sp = 4096 };
  args = update_args called_end.world.args 0 image;
}

collected_lem :
    finish_call script_driver 0 (the_command script_driver 0 64 empty_args caller) called_end.world
    ≡ ok (
        finished
          (pos 0)
          (set_result 77 command_ok (the_command script_driver 0 64 empty_args caller))
          collected)
unfolding finish_call collect_return_value copyout any_out
collected_lem = refl

do_on_context_value_example :
    (n : ℕ) × ((p f exs rounds : ℕ)
      → do_on_context
          (pseudo_worker script_driver (n + p) (n + f) exs (suc (suc rounds)) 0)
          64
          empty_args
          caller
        ≡ (ok 77, record collected { ctx = claimed 0 (idle collected.ctx) }))
do_on_context_value_example =
    do_on_context_value script_driver 0 64 empty_args caller called collected called_end 77
      (omega arith) refl refl (λ e. absurd (omega arith)) called_lem called-Served refl
      collected_lem
