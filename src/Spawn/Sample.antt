-- ===== src/Spawn/Sample.antt =====
-- A host for tests, on which every call succeeds. The opening and the closing of a file are arguments.
use veoffload.Base.{ℕ, [], ◌∷◌, pos}
use veoffload.Spawn.Host.{Host}

abbrev pub page : ℕ
page = 4096

abbrev pub sample_host : {H : Type 0} → (H → H) → (H → H) → Host H
sample_host opens closes = record {
  base_name = λ s. s;
  dir_name = λ s. s;
  getauxval = λ t. t;
  path_max = 4096;
  acct_comm = 16;
  s_file_len = 256;
  at_quickcall_vaddr = 28;
  ptrace_private_data = page;
  map_private = λ h. ((page, 0), h);
  unmap = λ a h. h;
  clear_page = λ a h. h;
  init_tids = λ h. h;
  rwlockattr_init = λ h. (0, h);
  rwlockattr_setkind = λ h. (0, h);
  rwlock_init = λ h. (0, h);
  rwlockattr_destroy = λ h. (0, h);
  make_temp = λ dir node h. ((pos 3, 97 ∷ []), opens h);
  truncate = λ fd n h. (pos 0, h);
  map_shared = λ fd n h. (8192, h);
  set_shm_lhm_addr = λ a h. h;
  close = λ fd h. closes h;
  unlink = λ name h. h;
  send_new_proc = λ p h. (pos 0, h);
  recv_load_binary = λ h. (pos 0, h);
  set_syscall_area_offset = λ o h. h;
  init_vemva_header = λ h. (pos 0, h);
  load_binary = λ name h. (pos 0, h);
  init_stack = λ argv env h. (pos 0, h);
  send_start = λ h. (pos 0, h);
  recv_start = λ h. (pos 0, h);
  sigaction_sigcont = λ h. (pos 0, h);
  cleanup = λ h. h;
}
