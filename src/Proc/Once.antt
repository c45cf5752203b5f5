-- ===== src/Proc/Once.antt =====
-- A VH process creates one VE process at most.
use veoffload.Base.{
  ℕ, ◌+◌, false, Bool-cases, List, ltb, ◌==◌, if◌then◌else◌, some, ℤ, Result, ok, err, ◌≡◌, refl,
  sym, ◌∙◌, ap, inl, inr, exception, assertion, int32,
}
use veoffload.Steps.{Step, give, fail, lift, change, call, ◌>>=◌, ◌>>◌}
use veoffload.Steps.Keeps.{Keeps, bind-Keeps, then-Keeps, if-Keeps, step-ok}
use veoffload.Context.State.{new_context, state_running}
use veoffload.Execution.Clone.{handle_clone_request}
use veoffload.Execution.Driver.{World}
use veoffload.Execution.Filters.{hook_clone_filter, is_clone_request}
use veoffload.Execution.Exceptions.{
  Handled, exception_handler, execute_ve, is_block_request, is_zero,
}
use veoffload.Execution.Calls.{do_call, unblock, collect_return_value, update_args}
use veoffload.Execution.Handlers.{to_u64}
use veoffload.Spawn.Helper.{spawn_helper}
use veoffload.Proc.Handle.{Functions, ProcHandle}
use veoffload.Proc.Arguments.{cpu_args, any_cpu}
use veoffload.Proc.Create.{
  Creator, Creation, on_ve, on_main, keep_world, throw_errno, as_pair, just_world, wait_for_block,
}
use veoffload.Proc.Start.{
  funcs_size, recv_funcs, receive, receive_functions, clone_worker, create_worker, new_handle,
  set_up, refuse, spawn,
}

module _ {D : Type 0} (c : Creator D) where
  abbrev pub count : Creation D → ℕ
  count s = s.proc_no

  pub on_ve-Keeps : {A : Type 0} (m : Step D A) → Keeps count (on_ve c m)
  unfolding on_ve
  on_ve-Keeps m s = refl

  keep_world-Keeps :
      {A : Type 0} (s : Creation D) (r : Result (A × World D))
      → count ((keep_world c s r).1) ≡ count s
  unfolding keep_world
  keep_world-Keeps s (ok (a, w)) = refl
  keep_world-Keeps s (err fault) = refl

  on_main-Keeps : {A : Type 0} (f : World D → Result (A × World D)) → Keeps count (on_main c f)
  unfolding on_main
  on_main-Keeps f s = keep_world-Keeps s (f s.main)

  throw_errno-Keeps : (A : Type 0) → Keeps count (throw_errno c {A = A})
  unfolding throw_errno
  throw_errno-Keeps A s = refl

  wait_for_block-Keeps : (p f exs : ℕ) → Keeps count (wait_for_block c p f exs)
  unfolding wait_for_block
  wait_for_block-Keeps p f exs =
      bind-Keeps count (on_main c (λ w. as_pair c (execute_ve c.os p f exs w)))
        (λ h. if is_block_request c.os h then give tt else throw_errno c)
        (on_main-Keeps (λ w. as_pair c (execute_ve c.os p f exs w)))
        (λ h.
          if-Keeps count (is_block_request c.os h) (give tt) (throw_errno c) (λ s. refl)
            (throw_errno-Keeps _))

  funcs_size-Keeps : (v : ℕ) → Keeps count (funcs_size c v)
  unfolding funcs_size
  funcs_size-Keeps v =
      if-Keeps count (ltb v c.version2) (fail assertion) _ (λ s. refl)
        (if-Keeps count (v == c.version2) (give c.size2) _ (λ s. refl)
          (if-Keeps count (v == c.version3) (give c.size3) _ (λ s. refl)
            (if-Keeps count (v == c.version4) (give c.size4) (throw_errno c) (λ s. refl)
              (throw_errno-Keeps _))))

  recv_funcs-Keeps : (a n : ℕ) → Keeps count (recv_funcs c a n)
  unfolding recv_funcs
  recv_funcs-Keeps a n =
      bind-Keeps count (on_ve c (call (receive c a n)))
        (λ r. if is_zero (r.0) then give (c.decode (r.1)) else throw_errno c)
        (on_ve-Keeps (call (receive c a n)))
        (λ r.
          if-Keeps count (is_zero (r.0)) (give (c.decode (r.1))) (throw_errno c) (λ s. refl)
            (throw_errno-Keeps _))

  receive_functions-Keeps : (p f exs : ℕ) → Keeps count (receive_functions c p f exs)
  unfolding receive_functions
  receive_functions-Keeps p f exs =
      let size_part : ℕ → Functions → Step (Creation D) Functions =
        λ a first. funcs_size c first.version >>= recv_funcs c a in
      let rest : ℕ → Step (Creation D) Functions = λ a. recv_funcs c a 8 >>= size_part a in
      then-Keeps count (wait_for_block c p f exs) (on_main c (collect_return_value c.os) >>= rest)
        (wait_for_block-Keeps p f exs)
        (bind-Keeps count (on_main c (collect_return_value c.os)) rest
          (on_main-Keeps (collect_return_value c.os))
          (λ a. bind-Keeps count (recv_funcs c a 8) (size_part a) (recv_funcs-Keeps a 8) (λ first.
            bind-Keeps count (funcs_size c first.version) (recv_funcs c a)
              (funcs_size-Keeps first.version) (recv_funcs-Keeps a))))

  clone_worker-Keeps : (p f exs : ℕ) → Keeps count (clone_worker c p f exs)
  unfolding clone_worker
  clone_worker-Keeps p f exs s =
      let s₁ = record s { worker = some (new_context false) } in
      let resume : ℤ → Step (Creation D) (Unit {0}) = λ tid.
        change (λ s. record s { main = unblock c.os (to_u64 tid) s.main })
        >> wait_for_block c p f exs in
      bind-Keeps count (on_ve c (handle_clone_request c.os f)) resume
        (on_ve-Keeps (handle_clone_request c.os f))
        (λ tid s.
          wait_for_block-Keeps p f exs (record s { main = unblock c.os (to_u64 tid) s.main }))
        s₁

  abbrev until_clone : (p f exs : ℕ) → World D → Result (Handled c.os × World D)
  until_clone p f exs w = as_pair c (exception_handler c.os p f (hook_clone_filter c.os) exs w)

  abbrev after_clone : (p f exs : ℕ) → Handled c.os → Step (Creation D) (Unit {0})
  after_clone p f exs h =
      if is_clone_request c.os h.status then clone_worker c p f h.exs else fail (exception 0)

  create_worker-Keeps :
      (p f exs name : ℕ) (funcs : Functions) → Keeps count (create_worker c p f exs name funcs)
  unfolding create_worker
  create_worker-Keeps p f exs name funcs =
      let start : World D → Result (Unit {0} × World D) =
        λ w. just_world c (do_call c.os funcs.create_thread name w) in
      let run = on_main c (until_clone p f exs) >>= after_clone p f exs in
      bind-Keeps count (lift (cpu_args any_cpu)) _ (λ s. refl)
        (λ a s.
          then-Keeps count (on_main c start) run (on_main-Keeps start)
            (bind-Keeps count (on_main c (until_clone p f exs)) (after_clone p f exs)
              (on_main-Keeps (until_clone p f exs))
              (λ h.
                if-Keeps count (is_clone_request c.os h.status) (clone_worker c p f h.exs)
                  (fail (exception 0)) (clone_worker-Keeps p f h.exs) (λ s. refl)))
            (record s { main = record s.main { args = update_args s.main.args name a } }))

  count-set_up :
      (p f exs name : ℕ) (vedev : List ℕ) (s : Creation D)
      → count ((set_up c p f exs name vedev s).1) ≡ int32 (count s + 1)
  unfolding set_up new_handle
  count-set_up p f exs name vedev s =
      let finish : Functions → Step (Creation D) ProcHandle =
        λ funcs. create_worker c p f exs name funcs >> new_handle c vedev funcs in
      bind-Keeps count (receive_functions c p f exs) finish (receive_functions-Keeps p f exs)
        (λ funcs.
          then-Keeps count (create_worker c p f exs name funcs) (new_handle c vedev funcs)
            (create_worker-Keeps p f exs name funcs) (λ s. refl))
        (record s {
          proc_no = int32 (s.proc_no + 1);
          main = record s.main { ctx = record s.main.ctx { state = state_running } };
        })

  pub count-spawn :
      (p f exs name : ℕ) (ossock vedev bin env : List ℕ) (s : Creation D) (h : ProcHandle)
      → (spawn c p f exs name ossock vedev bin env s).0 ≡ ok h
      → count ((spawn c p f exs name ossock vedev bin env s).1) ≡ int32 (count s + 1)
  unfolding spawn refuse on_ve
  count-spawn p f exs name ossock vedev bin env s h e =
      let go_on : ℤ → Step (Creation D) ProcHandle =
        λ rv. if is_zero rv then set_up c p f exs name vedev else refuse c in
      let start = on_ve c (spawn_helper c.host ossock bin env) in
      let (rv, found, last) = step-ok start go_on s h e in
      let e' : (go_on rv ((start s).1)).0 ≡ ok h = sym (ap (λ q. q.0) last) ∙ e in
      elim (Bool-cases (is_zero rv)) [
        | inl spawned ↦
            ap (λ q. count (q.1)) last
            ∙ rw spawned (count-set_up p f exs name vedev ((start s).1))
            ∙ ap (λ n. int32 (n + 1)) (on_ve-Keeps (spawn_helper c.host ossock bin env) s)
        | inr failed ↦ absurd (let b : err (exception 0) ≡ ok h = rw failed at e' in cc)
      ]
