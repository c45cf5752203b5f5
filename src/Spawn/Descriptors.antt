-- ===== src/Spawn/Descriptors.antt =====
-- What `spawn_helper` relies on of the calls that open and close file descriptors.
use veoffload.Base.{ℕ, ◌≡◌, false, List, ◌∷◌, ℤ}
use veoffload.Execution.Clone.{is_negative}
use veoffload.Spawn.Host.{Host, NewProc}

-- How the calls change the open file descriptors, of which the last one opened stands first: only
-- `mkstemp` opens one, and `close` closes the one that it is given.
pub record IsHost {H : Type 0} (host : Host H) (files : H → List ℤ) : Type 0 where
  pub make_temp_opens :
      (dir : List ℕ) (node : ℕ) (h : H)
      → is_negative ((host.make_temp dir node h).0).0 ≡ false
      → files (host.make_temp dir node h).1 ≡ ((host.make_temp dir node h).0).0 ∷ files h
  pub close_closes :
      (fd : ℤ) (h : H) (fs : List ℤ) → files h ≡ fd ∷ fs → files (host.close fd h) ≡ fs
  pub map_private_keeps : (h : H) → files (host.map_private h).1 ≡ files h
  pub unmap_keeps : (a : ℕ) (h : H) → files (host.unmap a h) ≡ files h
  pub clear_page_keeps : (a : ℕ) (h : H) → files (host.clear_page a h) ≡ files h
  pub init_tids_keeps : (h : H) → files (host.init_tids h) ≡ files h
  pub rwlockattr_init_keeps : (h : H) → files (host.rwlockattr_init h).1 ≡ files h
  pub rwlockattr_setkind_keeps : (h : H) → files (host.rwlockattr_setkind h).1 ≡ files h
  pub rwlock_init_keeps : (h : H) → files (host.rwlock_init h).1 ≡ files h
  pub rwlockattr_destroy_keeps : (h : H) → files (host.rwlockattr_destroy h).1 ≡ files h
  pub truncate_keeps : (fd : ℤ) (n : ℕ) (h : H) → files (host.truncate fd n h).1 ≡ files h
  pub map_shared_keeps : (fd : ℤ) (n : ℕ) (h : H) → files (host.map_shared fd n h).1 ≡ files h
  pub set_shm_lhm_addr_keeps : (a : ℕ) (h : H) → files (host.set_shm_lhm_addr a h) ≡ files h
  pub unlink_keeps : (name : List ℕ) (h : H) → files (host.unlink name h) ≡ files h
  pub send_new_proc_keeps : (p : NewProc) (h : H) → files (host.send_new_proc p h).1 ≡ files h
  pub recv_load_binary_keeps : (h : H) → files (host.recv_load_binary h).1 ≡ files h
  pub set_syscall_area_offset_keeps :
      (o : ℕ) (h : H) → files (host.set_syscall_area_offset o h) ≡ files h
  pub init_vemva_header_keeps : (h : H) → files (host.init_vemva_header h).1 ≡ files h
  pub load_binary_keeps : (name : List ℕ) (h : H) → files (host.load_binary name h).1 ≡ files h
  pub init_stack_keeps :
      (argv env : List ℕ) (h : H) → files (host.init_stack argv env h).1 ≡ files h
  pub send_start_keeps : (h : H) → files (host.send_start h).1 ≡ files h
  pub recv_start_keeps : (h : H) → files (host.recv_start h).1 ≡ files h
  pub sigaction_sigcont_keeps : (h : H) → files (host.sigaction_sigcont h).1 ≡ files h
  pub cleanup_keeps : (h : H) → files (host.cleanup h) ≡ files h
