-- ===== src/Proc/CreateTests.antt =====
-- A VH process that creates a VE process, and tries again.
use veoffload.Base.{ℕ, ◌≡◌, refl, sym, List, [], ◌∷◌, none, true, pos, ok, err, exception}
use veoffload.Args.Setup.{
  set_int, put, grow, setup, get_reg_vals, get_stack_image, image_size, accumulate, fill, reg_vals,
  copyin,
}
use veoffload.Args.Image.{set_stack_image, set_scalar, size_on_stack, get_reg_val}
use veoffload.Context.State.{new_context, contains}
use veoffload.Execution.Driver.{has_bits}
use veoffload.Execution.Script.{Script, script_driver, scripted, system_call_event, block_event}
use veoffload.Spawn.Sample.{sample_host}
use veoffload.Proc.Handle.{Functions, ProcHandle}
use veoffload.Proc.Create.{
  Creator, Creation, on_ve, on_main, keep_world, as_pair, just_world, wait_for_block,
  find_ve_number, after_prefix,
}
use veoffload.Proc.Arguments.{cpu_args}
use veoffload.Nodes.Text.{stoi}
use veoffload.Execution.Clone.{await_child, clone_child, handle_clone_request}
use veoffload.Execution.Exceptions.{
  execute_ve, exception_handler, handle_single_exception, wait_for_exception, judge, handle_raised,
  is_fatal, system_call,
}
use veoffload.Execution.Filters.{default_filter, hook_clone_filter, is_veo_block, is_clone_request}
use veoffload.Execution.Calls.{do_call, enter, unblock, collect_return_value}
use veoffload.Spawn.Area.{
  node_num, get_ve_node_num, use_area, map_area, make_area, init_lhm_shm_area,
  close_syscall_args_file, or_abort, init_rwlock,
}
use veoffload.Spawn.Helper.{
  map_ptrace_page, register_handler, await_start, start_proc, make_stack, load_helper, set_up_space,
  await_ack, request_proc, use_args_file, request_helper, spawn_helper,
}
use veoffload.Proc.Start.{
  create, with_main, refuse, spawn, set_up, new_handle, receive_functions, recv_funcs, receive,
  funcs_size, create_worker, clone_worker,
}
use veoffload.Proc.Single.{create_counts, create_again}

abbrev functions : Functions
functions = record {
  version = 4;
  load_library = 10;
  find_sym = 20;
  alloc_buff = 30;
  free_buff = 40;
  create_thread = 50;
  call_func = 70;
  exit = 80;
  create_thread_with_attr = 60;
  load_library_err = 90;
}

abbrev creator : Creator Script
creator = record {
  host = sample_host (λ d. d) (λ d. d);
  os = script_driver;
  handle_create = λ d. (none, d);
  handle_free = λ d. d;
  tid_counter = λ d. 1;
  version2 = 2;
  version3 = 3;
  version4 = 4;
  size2 = 64;
  size3 = 72;
  size4 = 80;
  decode = λ bytes. functions;
}

-- The VE stops at its first block, then at `clone`, then at a block again.
abbrev before : Creation Script
before = record {
  proc_no = 0;
  main = scripted (new_context true) (block_event ∷ system_call_event 56 0 ∷ block_event ∷ []);
  worker = none;
}

abbrev created : ProcHandle
created = record { sym_name = []; funcs = functions; num_child_threads = 1; ve_number = pos 5 }

-- "veos5.sock" and "/dev/veslot5".
abbrev socket : List ℕ
socket = 118 ∷ 101 ∷ 111 ∷ 115 ∷ 53 ∷ 46 ∷ 115 ∷ 111 ∷ 99 ∷ 107 ∷ []

abbrev device : List ℕ
device = 47 ∷ 100 ∷ 101 ∷ 118 ∷ 47 ∷ 118 ∷ 101 ∷ 115 ∷ 108 ∷ 111 ∷ 116 ∷ 53 ∷ []

first_time : (create creator 2 2 0 0 socket device (97 ∷ []) [] before).0 ≡ ok created
unfolding create with_main refuse spawn set_up new_handle receive_functions recv_funcs receive
    funcs_size create_worker clone_worker on_ve on_main keep_world as_pair just_world wait_for_block
    await_child clone_child handle_clone_request find_ve_number after_prefix stoi cpu_args set_int
    put grow spawn_helper map_ptrace_page init_rwlock or_abort init_lhm_shm_area get_ve_node_num
    node_num make_area map_area use_area request_helper use_args_file request_proc await_ack
    close_syscall_args_file set_up_space load_helper make_stack start_proc await_start
    register_handler execute_ve exception_handler handle_single_exception wait_for_exception judge
    handle_raised is_fatal has_bits system_call default_filter hook_clone_filter is_veo_block
    is_clone_request do_call enter unblock collect_return_value setup get_reg_vals contains
    get_stack_image image_size accumulate fill set_stack_image set_scalar size_on_stack reg_vals
    get_reg_val copyin
first_time = refl

-- The state of a later call.
abbrev later : Creation Script
later = record before { proc_no = 1 }

-- "veos6.sock" and "/dev/veslot6".
abbrev other_socket : List ℕ
other_socket = 118 ∷ 101 ∷ 111 ∷ 115 ∷ 54 ∷ 46 ∷ 115 ∷ 111 ∷ 99 ∷ 107 ∷ []

abbrev other_device : List ℕ
other_device = 47 ∷ 100 ∷ 101 ∷ 118 ∷ 47 ∷ 118 ∷ 101 ∷ 115 ∷ 108 ∷ 111 ∷ 116 ∷ 54 ∷ []

create_again_example :
    let again = create creator 2 2 0 0 other_socket other_device (98 ∷ []) [] later in
    (again.0 ≡ err (exception 0)) × (again.1.main.ve ≡ later.main.ve) × (again.1.proc_no ≡ 1)
create_again_example =
    create_again creator 2 2 0 0 2 2 0 0 socket device (97 ∷ []) [] other_socket other_device
      (98 ∷ []) [] before later created first_time
      (sym (create_counts creator 2 2 0 0 socket device (97 ∷ []) [] before created first_time))
      refl
