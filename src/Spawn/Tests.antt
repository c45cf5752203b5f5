-- ===== src/Spawn/Tests.antt =====
-- A process that is started with the descriptors 1 and 2 open.
use veoffload.Base.{ℕ, ◌≤◌, ◌≡◌, refl, ap, List, [], ◌∷◌, length, ℤ, pos, ok}
use veoffload.Spawn.Host.{Host}
use veoffload.Spawn.Sample.{sample_host}
use veoffload.Spawn.Descriptors.{IsHost}
use veoffload.Spawn.Area.{
  node_num, get_ve_node_num, use_area, map_area, make_area, init_lhm_shm_area,
  close_syscall_args_file, or_abort, init_rwlock,
}
use veoffload.Spawn.Auxiliary.{env_array, env_num}
use veoffload.Spawn.Helper.{
  map_ptrace_page, register_handler, await_start, start_proc, make_stack, load_helper, set_up_space,
  await_ack, request_proc, use_args_file, request_helper, spawn_helper,
}
use veoffload.Spawn.Bounds.{length-env_array}
use veoffload.Spawn.Leaks.{spawn_helper-files}

abbrev tail : List ℤ → List ℤ
tail [] = []
tail (fd ∷ fds) = fds

abbrev host : Host (List ℤ)
host = sample_host (λ fds. pos 3 ∷ fds) tail

host-IsHost : IsHost host (λ fds. fds)
host-IsHost = record {
  make_temp_opens = λ dir node h e. refl;
  close_closes = λ fd h fs e. ap tail e;
  map_private_keeps = λ h. refl;
  unmap_keeps = λ a h. refl;
  clear_page_keeps = λ a h. refl;
  init_tids_keeps = λ h. refl;
  rwlockattr_init_keeps = λ h. refl;
  rwlockattr_setkind_keeps = λ h. refl;
  rwlock_init_keeps = λ h. refl;
  rwlockattr_destroy_keeps = λ h. refl;
  truncate_keeps = λ fd n h. refl;
  map_shared_keeps = λ fd n h. refl;
  set_shm_lhm_addr_keeps = λ a h. refl;
  unlink_keeps = λ name h. refl;
  send_new_proc_keeps = λ p h. refl;
  recv_load_binary_keeps = λ h. refl;
  set_syscall_area_offset_keeps = λ o h. refl;
  init_vemva_header_keeps = λ h. refl;
  load_binary_keeps = λ name h. refl;
  init_stack_keeps = λ argv env h. refl;
  send_start_keeps = λ h. refl;
  recv_start_keeps = λ h. refl;
  sigaction_sigcont_keeps = λ h. refl;
  cleanup_keeps = λ h. refl;
}

-- "veos5.sock".
abbrev socket : List ℕ
socket = 118 ∷ 101 ∷ 111 ∷ 115 ∷ 53 ∷ 46 ∷ 115 ∷ 111 ∷ 99 ∷ 107 ∷ []

node_five : get_ve_node_num socket ≡ ok 5
unfolding get_ve_node_num node_num
node_five = refl

started : (spawn_helper host socket (97 ∷ []) (500 ∷ []) (pos 1 ∷ pos 2 ∷ [])).0 ≡ ok (pos 0)
unfolding spawn_helper map_ptrace_page init_rwlock or_abort init_lhm_shm_area get_ve_node_num
    node_num make_area map_area use_area request_helper use_args_file request_proc await_ack
    close_syscall_args_file set_up_space load_helper make_stack start_proc await_start
    register_handler
started = refl

spawn_helper-files_example :
    (spawn_helper host socket (97 ∷ []) (500 ∷ []) (pos 1 ∷ pos 2 ∷ [])).1 ≡ pos 1 ∷ pos 2 ∷ []
spawn_helper-files_example =
    spawn_helper-files host (λ fds. fds) host-IsHost socket (97 ∷ []) (500 ∷ [])
      (pos 1 ∷ pos 2 ∷ []) (pos 0) started

length-env_array_example :
    length (env_array (λ t. t) 28 (500 ∷ 600 ∷ [])) ≤ env_num (500 ∷ 600 ∷ [])
length-env_array_example = length-env_array (λ t. t) 28 (500 ∷ 600 ∷ [])
