-- ===== src/Proc/Start.antt =====
-- The constructor of `ProcHandle`, from `veos_handle_create` to the start of the worker.
use veoffload.Base.{
  ℕ, ◌+◌, true, false, List, [], ltb, ◌==◌, if◌then◌else◌, none, some, ℤ, ok, exception, int32,
  assertion,
}
use veoffload.Steps.{Step, give, fail, lift, change, call, ◌>>=◌, ◌>>◌}
use veoffload.Context.State.{new_context, state_running}
use veoffload.Execution.Clone.{handle_clone_request}
use veoffload.Execution.Filters.{hook_clone_filter, is_clone_request}
use veoffload.Execution.Exceptions.{exception_handler, is_zero}
use veoffload.Execution.Calls.{do_call, unblock, collect_return_value, update_args}
use veoffload.Execution.Handlers.{to_u64}
use veoffload.Spawn.Helper.{spawn_helper}
use veoffload.Proc.Handle.{Functions, ProcHandle}
use veoffload.Proc.Arguments.{cpu_args, any_cpu}
use veoffload.Proc.Create.{
  Creator, Creation, find_ve_number, on_ve, on_main, throw_errno, as_pair, just_world,
  wait_for_block,
}

module _ {D : Type 0} (c : Creator D) where
  -- The size of the functions of a version; the versions below the second one are refused.
  unfoldable pub funcs_size : ℕ → Step (Creation D) ℕ
  funcs_size version =
      if ltb version c.version2
      then fail assertion
      else (if version == c.version2
          then give c.size2
          else (if version == c.version3
              then give c.size3
              else (if version == c.version4 then give c.size4 else throw_errno c)))

  unfoldable pub receive : (funcs_addr size : ℕ) → D → (ℤ × List ℕ) × D
  receive funcs_addr size d = let r = c.os.recv_data funcs_addr size d in ((r.0, r.1), r.2)

  -- `ve_recv_data` into `funcs`.
  unfoldable pub recv_funcs : (funcs_addr size : ℕ) → Step (Creation D) Functions
  unfolding receive
  recv_funcs funcs_addr size = do
    r ← on_ve c (call (receive funcs_addr size))
    if is_zero (r.0) then give (c.decode (r.1)) else throw_errno c

  -- From the first block request to the addresses of the functions of veorun.
  unfoldable pub receive_functions : (patience fuel exs : ℕ) → Step (Creation D) Functions
  receive_functions patience fuel exs = do
    wait_for_block c patience fuel exs
    funcs_addr ← on_main c (collect_return_value c.os)
    first ← recv_funcs funcs_addr 8
    size ← funcs_size first.version
    recv_funcs funcs_addr size

  -- The part after the VE stopped at `clone`.
  unfoldable pub clone_worker : (patience fuel exs : ℕ) → Step (Creation D) (Unit {0})
  clone_worker patience fuel exs = do
    change (λ s. record s { worker = some (new_context false) })
    tid ← on_ve c (handle_clone_request c.os fuel)
    change (λ s. record s { main = unblock c.os (to_u64 tid) s.main })
    wait_for_block c patience fuel exs

  -- The call of `create_thread` and the worker. `name` stands for the local argument object.
  unfoldable pub create_worker :
      (patience fuel exs name : ℕ) → Functions → Step (Creation D) (Unit {0})
  create_worker patience fuel exs name funcs = do
    args ← lift (cpu_args any_cpu)
    change (λ s. record s { main = record s.main { args = update_args s.main.args name args } })
    _ ← on_main c (λ w. just_world c (do_call c.os funcs.create_thread name w))
    h ←
        on_main c
          (λ w. as_pair c (exception_handler c.os patience fuel (hook_clone_filter c.os) exs w))
    if is_clone_request c.os h.status then clone_worker patience fuel h.exs else fail (exception 0)

  -- The end of the constructor: the new handle.
  unfoldable pub new_handle : List ℕ → Functions → Step (Creation D) ProcHandle
  new_handle vedev funcs s = (
    ok (record {
      sym_name = [];
      funcs = funcs;
      num_child_threads = c.tid_counter s.main.ve;
      ve_number = find_ve_number vedev;
    }),
    s,
  )

  -- What follows `spawn_helper`: the process is counted, and the main thread runs.
  unfoldable pub set_up :
      (patience fuel exs name : ℕ) → (vedev : List ℕ) → Step (Creation D) ProcHandle
  set_up patience fuel exs name vedev = do
    change (λ s. record s {
      proc_no = int32 (s.proc_no + 1);
      main = record s.main { ctx = record s.main.ctx { state = state_running } };
    })
    funcs ← receive_functions patience fuel exs
    create_worker patience fuel exs name funcs
    new_handle vedev funcs

  -- `veos_handle_free` and the throw.
  unfoldable pub refuse : {A : Type 0} → Step (Creation D) A
  refuse = do on_ve c (change c.handle_free); fail (exception 0)

  unfoldable pub spawn :
      (patience fuel exs name : ℕ)
      → (ossock vedev binname environ : List ℕ) → Step (Creation D) ProcHandle
  spawn patience fuel exs name ossock vedev binname environ = do
    rv ← on_ve c (spawn_helper c.host ossock binname environ)
    if is_zero rv then set_up patience fuel exs name vedev else refuse

  unfoldable pub with_main :
      (patience fuel exs name : ℕ)
      → (ossock vedev binname environ : List ℕ) → Step (Creation D) ProcHandle
  with_main patience fuel exs name ossock vedev binname environ s =
      let s' = record s { main = record s.main { ctx = new_context true }; worker = none } in
      if s.proc_no == 0
      then spawn patience fuel exs name ossock vedev binname environ s'
      else refuse s'

  -- The constructor. `main` is the state of the new object; what it holds before plays no part.
  unfoldable pub create :
      (patience fuel exs name : ℕ)
      → (ossock vedev binname environ : List ℕ) → Step (Creation D) ProcHandle
  create patience fuel exs name ossock vedev binname environ = do
    failed ← on_ve c (call c.handle_create)
    elim failed [
      | some e ↦ fail (exception e)
      | none ↦ with_main patience fuel exs name ossock vedev binname environ
    ]
