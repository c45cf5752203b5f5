-- ===== src/Api/Tests.antt =====
-- A process whose worker has exited, with an ID outstanding.
use veoffload.Base.{false, ◌≡◌, refl, none, [], ◌∷◌, assertion, pos, negsuc, Memory}
use veoffload.Steps.Keeps.{Gives, FailsWith}
use veoffload.Context.State.{Context, state_exit, new_context, contains, request_id_invalid}
use veoffload.Execution.Driver.{World}
use veoffload.Execution.Script.{Script, script_driver, scripted}
use veoffload.Proc.Worker.{Worker, VhAccess, enosys}
use veoffload.Proc.Handle.{ProcHandle, Text, find_symbol}
use veoffload.Composed.Pseudo.{pseudo_worker}
use veoffload.Api.Reply.{plain, with_errno}
use veoffload.Api.Process.{
  veo_load_library, veo_get_sym, veo_alloc_mem, veo_free_mem, veo_read_mem, veo_write_mem,
}
use veoffload.Api.Contexts.{veo_context_open}
use veoffload.Api.Exited.{view, worker_exited}

abbrev gone : World Script
gone = scripted (record (new_context false) { state = state_exit; rem_reqid = 0 ∷ [] }) []

abbrev no_memory : VhAccess (World Script)
no_memory = record { store_bytes = λ a bytes n. n; memcpy = λ dst src size n. n }

abbrev handle : ProcHandle
handle = record {
  sym_name = [];
  funcs = record {
    version = 4;
    load_library = 10;
    find_sym = 20;
    alloc_buff = 30;
    free_buff = 40;
    create_thread = 50;
    call_func = 70;
    exit = 80;
    create_thread_with_attr = 60;
    load_library_err = 90;
  };
  num_child_threads = 0;
  ve_number = pos 0;
}

abbrev hello : Text
hello = record { address = 500; chars = 104 ∷ 105 ∷ [] }

unknown_hello : find_symbol (3, 104 ∷ 105 ∷ []) [] ≡ none
unfolding find_symbol
unknown_hello = refl

no_claim : contains request_id_invalid gone.ctx.rem_reqid ≡ false
unfolding contains
no_claim = refl

abbrev exited : Worker (World Script)
exited = pseudo_worker script_driver 1 1 0 1 0

worker_exited_example :
    Gives view
      (view gone)
      (with_errno 0 enosys)
      (veo_load_library exited no_memory 4 700 800 hello handle gone)
    × Gives {F = ProcHandle × (Context × Memory × Script)}
        (λ q. (q.0, view (q.1)))
        (handle, view gone)
        (with_errno 0 enosys)
        (veo_get_sym exited 3 hello (handle, gone))
    × Gives view (view gone) (with_errno 0 enosys) (veo_context_open exited 1 handle gone)
    × Gives view (view gone) (plain (negsuc 1, none)) (veo_alloc_mem exited 64 handle gone)
    × Gives view (view gone) (plain (negsuc 0)) (veo_free_mem exited 100 handle gone)
    × FailsWith view (view gone) assertion (veo_read_mem exited 100 200 64 gone)
    × FailsWith view (view gone) assertion (veo_write_mem exited 100 200 64 gone)
worker_exited_example =
    worker_exited script_driver 1 1 0 1 0 no_memory 4 700 800 1 3 100 200 64 hello handle gone refl
      no_claim refl unknown_hello
