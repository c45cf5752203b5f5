-- ===== src/Spawn/Files.antt =====
-- The file descriptors that `spawn_helper` leaves open.
use veoffload.Base.{ℕ, ◌≡◌, refl, ◌∙◌, Bool-cases, inl, inr, List, ◌∷◌, ℤ, pos}
use veoffload.Steps.{give}
use veoffload.Steps.Keeps.{Keeps, if-Keeps}
use veoffload.Execution.Clone.{is_negative}
use veoffload.Execution.Exceptions.{is_zero}
use veoffload.Spawn.Host.{Host}
use veoffload.Spawn.Descriptors.{IsHost}
use veoffload.Spawn.Auxiliary.{env_array}
use veoffload.Spawn.Area.{close_syscall_args_file}
use veoffload.Spawn.Helper.{
  give_up, register_handler, await_start, start_proc, make_stack, load_helper, set_up_space,
  await_ack, new_proc, request_proc,
}

module _ {H : Type 0} (host : Host H) (files : H → List ℤ) (is_host : IsHost host files) where
  give_up-Keeps : (rv : ℤ) → Keeps files (give_up host rv)
  unfolding give_up
  give_up-Keeps rv h = is_host.cleanup_keeps h

  register_handler-Keeps : Keeps files (register_handler host)
  unfolding register_handler
  register_handler-Keeps h =
      let rv = (host.sigaction_sigcont h).0 in
      if-Keeps files (is_negative rv) (give_up host rv) (give (pos 0)) (give_up-Keeps rv)
        (λ h. refl) ((host.sigaction_sigcont h).1)
      ∙ is_host.sigaction_sigcont_keeps h

  await_start-Keeps : Keeps files (await_start host)
  unfolding await_start
  await_start-Keeps h =
      let rv = (host.recv_start h).0 in
      if-Keeps files (is_negative rv) (give rv) (register_handler host) (λ h. refl)
        register_handler-Keeps ((host.recv_start h).1)
      ∙ is_host.recv_start_keeps h

  start_proc-Keeps : Keeps files (start_proc host)
  unfolding start_proc
  start_proc-Keeps h =
      let rv = (host.send_start h).0 in
      if-Keeps files (is_negative rv) (give rv) (await_start host) (λ h. refl) await_start-Keeps
        ((host.send_start h).1)
      ∙ is_host.send_start_keeps h

  make_stack-Keeps : (name env : List ℕ) → Keeps files (make_stack host name env)
  unfolding make_stack
  make_stack-Keeps name env h =
      let values = env_array host.getauxval host.at_quickcall_vaddr env in
      let rv = (host.init_stack name values h).0 in
      if-Keeps files (is_zero rv) (start_proc host) (give_up host rv) start_proc-Keeps
        (give_up-Keeps rv) ((host.init_stack name values h).1)
      ∙ is_host.init_stack_keeps name values h

  load_helper-Keeps : (name env : List ℕ) → Keeps files (load_helper host name env)
  unfolding load_helper
  load_helper-Keeps name env h =
      let rv = (host.load_binary name h).0 in
      if-Keeps files (is_zero rv) (make_stack host name env) (give_up host rv)
        (make_stack-Keeps name env) (give_up-Keeps rv) ((host.load_binary name h).1)
      ∙ is_host.load_binary_keeps name h

  set_up_space-Keeps : (name env : List ℕ) → Keeps files (set_up_space host name env)
  unfolding set_up_space
  set_up_space-Keeps name env h =
      let h₁ = host.set_syscall_area_offset 0 h in
      let rv = (host.init_vemva_header h₁).0 in
      if-Keeps files (is_zero rv) (load_helper host name env) (give rv) (load_helper-Keeps name env)
        (λ h. refl) ((host.init_vemva_header h₁).1)
      ∙ is_host.init_vemva_header_keeps h₁
      ∙ is_host.set_syscall_area_offset_keeps 0 h

  close_syscall_args_file_lem :
      (fd : ℤ) (name : List ℕ) (h : H) (fs : List ℤ)
      → files h ≡ fd ∷ fs
      → files ((close_syscall_args_file host fd name h).1) ≡ fs
  unfolding close_syscall_args_file
  close_syscall_args_file_lem fd name h fs e =
      is_host.unlink_keeps name (host.close fd h) ∙ is_host.close_closes fd h fs e

  await_ack_lem :
      (fd : ℤ) (sfile name env : List ℕ) (h : H) (fs : List ℤ)
      → files h ≡ fd ∷ fs
      → files ((await_ack host fd sfile name env h).1) ≡ fs
  unfolding await_ack close_syscall_args_file
  await_ack_lem fd sfile name env h fs e =
      let rv = (host.recv_load_binary h).0 in
      let h₁ = (host.recv_load_binary h).1 in
      if-Keeps files (is_negative rv) (give rv) (set_up_space host name env) (λ h. refl)
        (set_up_space-Keeps name env) (host.unlink sfile (host.close fd h₁))
      ∙ is_host.unlink_keeps sfile (host.close fd h₁)
      ∙ is_host.close_closes fd h₁ fs (is_host.recv_load_binary_keeps h ∙ e)

  pub request_proc_lem :
      (fd : ℤ) (node : ℕ) (sfile name env : List ℕ) (h : H) (fs : List ℤ)
      → files h ≡ fd ∷ fs
      → files ((request_proc host fd node sfile name env h).1) ≡ fs
  unfolding request_proc close_syscall_args_file
  request_proc_lem fd node sfile name env h fs e =
      let request = new_proc host node name sfile in
      let r = host.send_new_proc request h in
      let still : files (r.1) ≡ fd ∷ fs = is_host.send_new_proc_keeps request h ∙ e in
      elim (Bool-cases (is_negative (r.0))) [
        | inl refused ↦ rw refused (close_syscall_args_file_lem fd sfile (r.1) fs still)
        | inr sent ↦ rw sent (await_ack_lem fd sfile name env (r.1) fs still)
      ]
