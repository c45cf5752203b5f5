-- ===== src/Spawn/Helper.antt =====
-- `spawn_helper`.
use veoffload.Base.{
  ℕ, ◌-◌, List, ltb, ◌==◌, if◌then◌else◌, length, take, ℤ, pos, exception, out_of_range,
}
use veoffload.Steps.{Step, give, fail, change, call, ◌>>=◌, ◌>>◌}
use veoffload.Execution.Clone.{is_negative}
use veoffload.Execution.Exceptions.{is_zero}
use veoffload.Spawn.Host.{Host, NewProc}
use veoffload.Spawn.Area.{init_lhm_shm_area, close_syscall_args_file, init_rwlock, map_failed}
use veoffload.Spawn.Auxiliary.{env_array}

module _ {H : Type 0} (host : Host H) where
  -- The page for ptrace, from `mmap` to `memset`.
  unfoldable pub map_ptrace_page : Step H (Unit {0})
  map_ptrace_page = do
    mapped ← call host.map_private
    if mapped.0 == map_failed
        then fail (exception (mapped.1))
        else (if mapped.0 == host.ptrace_private_data
            then change (host.clear_page (mapped.0))
            else (do change (host.unmap (mapped.0)); fail (exception (mapped.1))))

  -- A request that failed: the process is cleaned up.
  unfoldable pub give_up : ℤ → Step H ℤ
  give_up retval = do change host.cleanup; give retval

  -- The signal handler.
  unfoldable pub register_handler : Step H ℤ
  register_handler = do
    retval ← call host.sigaction_sigcont
    if is_negative retval then give_up retval else give (pos 0)

  unfoldable pub await_start : Step H ℤ
  await_start = do
    retval ← call host.recv_start
    if is_negative retval then give retval else register_handler

  unfoldable pub start_proc : Step H ℤ
  start_proc = do
    retval ← call host.send_start
    if is_negative retval then give retval else await_start

  unfoldable pub make_stack : (helper_name environ : List ℕ) → Step H ℤ
  make_stack helper_name environ = do
    retval ←
        call
          (host.init_stack helper_name (env_array host.getauxval host.at_quickcall_vaddr environ))
    if is_zero retval then start_proc else give_up retval

  -- From `pse_load_binary` on.
  unfoldable pub load_helper : (helper_name environ : List ℕ) → Step H ℤ
  load_helper helper_name environ = do
    retval ← call (host.load_binary helper_name)
    if is_zero retval then make_stack helper_name environ else give_up retval

  -- What follows the acknowledgement of VEOS.
  unfoldable pub set_up_space : (helper_name environ : List ℕ) → Step H ℤ
  set_up_space helper_name environ = do
    change (host.set_syscall_area_offset 0)
    retval ← call host.init_vemva_header
    if is_zero retval then load_helper helper_name environ else give retval

  unfoldable pub await_ack : ℤ → (sfile_name helper_name environ : List ℕ) → Step H ℤ
  await_ack fd sfile_name helper_name environ = do
    retval ← call host.recv_load_binary
    close_syscall_args_file host fd sfile_name
    if is_negative retval then give retval else set_up_space helper_name environ

  unfoldable pub new_proc : ℕ → (helper_name sfile_name : List ℕ) → NewProc
  new_proc node helper_name sfile_name = record {
    node_id = node;
    exec_path = helper_name;
    exe_name = take (host.acct_comm - 1) (host.base_name helper_name);
    sfile_name = take (host.s_file_len - 1) (host.base_name sfile_name);
  }

  -- From the request for a new process on.
  unfoldable pub request_proc : ℤ → ℕ → (sfile_name helper_name environ : List ℕ) → Step H ℤ
  request_proc fd node sfile_name helper_name environ = do
    retval ← call (host.send_new_proc (new_proc node helper_name sfile_name))
    if is_negative retval
        then (do close_syscall_args_file host fd sfile_name; give retval)
        else await_ack fd sfile_name helper_name environ

  unfoldable pub use_args_file : ℤ × ℕ × List ℕ → (helper_name environ : List ℕ) → Step H ℤ
  use_args_file (ret, node, sfile_name) helper_name environ =
      if is_negative ret
      then fail (exception 0)
      else request_proc ret node sfile_name helper_name environ

  -- The part with the file of the system call arguments. The copy of a name of PATH_MAX characters or
  -- more has no zero at its end, so that it is read past the end.
  unfoldable pub request_helper : (binname environ : List ℕ) → ℤ × ℕ × List ℕ → Step H ℤ
  request_helper binname environ area =
      if ltb (length binname) host.path_max
      then use_args_file area binname environ
      else fail out_of_range

  -- `spawn_helper`, for the name of the socket of VEOS and the environment.
  unfoldable pub spawn_helper : (sock_name binname environ : List ℕ) → Step H ℤ
  spawn_helper sock_name binname environ = do
    map_ptrace_page
    change host.init_tids
    init_rwlock host
    area ← init_lhm_shm_area host sock_name
    request_helper binname environ area
