-- ===== src/Spawn/Host.antt =====
-- The calls of the operating system, of libved and of libvepseudo that start a VE process.
use veoffload.Base.{ℕ, List, ℤ}

-- The part of `new_ve_proc` that does not hold constants of the source or numbers of the system. The
-- other parts, and the structure that `pse_load_binary` fills, belong to the state.
pub record NewProc : Type 0 where
  pub node_id : ℕ
  pub exec_path : List ℕ
  pub exe_name : List ℕ
  pub sfile_name : List ℕ

-- `H` is the state of the system. A status is an `int`, a text has no zero at its end.
pub record Host (H : Type 0) : Type 0 where
  -- `basename` and `dirname`.
  pub base_name : List ℕ → List ℕ
  pub dir_name : List ℕ → List ℕ
  pub getauxval : ℕ → ℕ
  -- PATH_MAX, ACCT_COMM, S_FILE_LEN and AT_QUICKCALL_VADDR.
  pub path_max : ℕ
  pub acct_comm : ℕ
  pub s_file_len : ℕ
  pub at_quickcall_vaddr : ℕ
  -- `mmap` of the page at PTRACE_PRIVATE_DATA: the address and errno; `memset` of the page.
  pub ptrace_private_data : ℕ
  pub map_private : H → (ℕ × ℕ) × H
  pub unmap : ℕ → H → H
  pub clear_page : ℕ → H → H
  -- `global_tid_info[0]` and `tid_counter` of the main thread.
  pub init_tids : H → H
  -- The functions of a `pthread_rwlock_t` and its attributes.
  pub rwlockattr_init : H → ℕ × H
  pub rwlockattr_setkind : H → ℕ × H
  pub rwlock_init : H → ℕ × H
  pub rwlockattr_destroy : H → ℕ × H
  -- `mkstemp` for "<dir>/veos<node>-tmp/ve_exec_XXXXXX": a file descriptor and the name of the file.
  pub make_temp : List ℕ → ℕ → H → (ℤ × List ℕ) × H
  pub truncate : ℤ → ℕ → H → ℤ × H
  pub map_shared : ℤ → ℕ → H → ℕ × H
  pub set_shm_lhm_addr : ℕ → H → H
  pub close : ℤ → H → H
  pub unlink : List ℕ → H → H
  -- The requests to VEOS, and the functions of libvepseudo.
  pub send_new_proc : NewProc → H → ℤ × H
  pub recv_load_binary : H → ℤ × H
  pub set_syscall_area_offset : ℕ → H → H
  pub init_vemva_header : H → ℤ × H
  pub load_binary : List ℕ → H → ℤ × H
  pub init_stack : (argv env : List ℕ) → H → ℤ × H
  pub send_start : H → ℤ × H
  pub recv_start : H → ℤ × H
  pub sigaction_sigcont : H → ℤ × H
  -- `process_thread_cleanup`.
  pub cleanup : H → H
