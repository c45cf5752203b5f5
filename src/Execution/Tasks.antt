-- ===== src/Execution/Tasks.antt =====
-- What running a command leaves: its own result, and everything else in place.
use veoffload.Base.{
  ℕ, ◌+◌, arith, ◌≡◌, refl, sym, ◌∙◌, ap, subst, ◌⊎◌, inl, inr, ℤ, pos, ok, err, exception,
  if◌then◌else◌, ok_inj, bind-ok, ◌>>=◌, ◌>>◌, veo_assert, ◌==◌, Result, Bool-cases,
}
use veoffload.Queues.Blocking.{Command, CommandStatus, command_ok, command_exception, set_result}
use veoffload.Context.State.{
  Task, call_task, vh_task, read_task, write_task, open_task, close_task, state_blocked,
}
use veoffload.Execution.Driver.{Driver, World}
use veoffload.Args.Setup.{copyout}
use veoffload.Execution.Calls.{do_call, unblock, collect_return_value, read_mem}
use veoffload.Execution.Exceptions.{Handled, execute_ve, exception_handler}
use veoffload.Execution.Filters.{status_exception, block_requested, hook_clone_filter}
use veoffload.Execution.Blocks.{Settled}
use veoffload.Execution.Frame.{exception_handler-Kept, hook_clone_filter-IsFrame}
use veoffload.Execution.Ends.{
  Quiet, Quiet-trans, Done, do_call_lem, do_call-Quiet, execute_ve_lem, end_call-Done, Kept-Quiet,
  unblock_lem, unblock_running, end_call_block, end_call_exception,
}
use veoffload.Execution.Trace.{Served}
use veoffload.Execution.Served.{execute_ve_settles}
use veoffload.Execution.Clone.{is_negative, handle_clone_request}
use veoffload.Execution.Handlers.{
  to_u64, Outcome, finished, run_task, run_handler, run_call, run_open, run_close, run_vh, run_read,
  run_write, finish_call, end_call, end_open, open_child, note_unexpected,
}

module _ {D : Type 0} (os : Driver D) where
  -- The value that `_callOpenContext` gives: a negative thread ID, or the new context.
  abbrev open_value : ℤ → D → ℕ
  open_value tid d = if is_negative tid then to_u64 tid else os.context_address d

  pub end_open_block :
      (tid : ℤ) (cmd : Command Task) (h : Handled os)
      → h.status ≡ pos block_requested
      → end_open os tid cmd h
        ≡ ok (finished (pos 0) (set_result (open_value tid h.world.ve) command_ok cmd) h.world)
  unfolding end_open
  end_open_block tid cmd h e = rw (e, end_open) refl

  pub end_open_exception :
      (tid : ℤ) (cmd : Command Task) (h : Handled os)
      → h.status ≡ status_exception
      → end_open os tid cmd h ≡ err (exception 0)
  unfolding end_open
  end_open_exception tid cmd h e = rw (e, end_open) refl

  -- The result that is noted is overwritten at the end.
  pub note_unexpected_lem :
      (h : Handled os) (cmd : Command Task) (r : ℕ) (s : CommandStatus)
      → set_result r s (note_unexpected os h cmd) ≡ set_result r s cmd
  unfolding note_unexpected
  note_unexpected_lem h cmd r s = ground arith

  end_open-Done :
      (tid : ℤ) (cmd cmd' : Command Task) (u : World D) (h : Handled os) (o : Outcome os)
      → ((r : ℕ) (s : CommandStatus) → set_result r s cmd' ≡ set_result r s cmd)
      → Quiet os u h.world
      → Settled os h
      → end_open os tid cmd' h ≡ ok o
      → Done os cmd u o
  end_open-Done tid cmd cmd' u h o m quiet (inl (status, blocked)) e =
      subst (Done os cmd u) (ok_inj (sym (end_open_block tid cmd' h status) ∙ e))
        (ap (λ c. c.msgid) (m 0 command_ok), (_, command_ok, m _ command_ok), quiet, inr blocked)
  end_open-Done tid cmd cmd' u h o m quiet (inr (status, fatal)) e =
      let impossible : err (exception 0) ≡ ok o = sym (end_open_exception tid cmd' h status) ∙ e in
      absurd cc

  run_open-Done :
      (p f exs addr args : ℕ) (cmd : Command Task) (w : World D) (o : Outcome os)
      → run_open os p f exs addr args cmd w ≡ ok o
      → Done os cmd w o
  unfolding run_open open_child
  run_open-Done p f exs addr args cmd w o e =
      let filter = hook_clone_filter os in
      let (v, called, e₁) =
        bind-ok (do_call os addr args w)
          (λ v. exception_handler os p f filter exs v >>= open_child os p f cmd) o e in
      let (h, ran, e₂) =
        bind-ok (exception_handler os p f filter exs v) (open_child os p f cmd) o e₁ in
      let c = handle_clone_request os f h.world.ve in
      let (tid, cloned, e₃) =
        bind-ok (c.0)
          (λ tid.
            execute_ve os p f h.exs (unblock os (to_u64 tid) (record h.world { ve = c.1 }))
            >>= end_open os tid (note_unexpected os h cmd))
          o e₂ in
      let next = unblock os (to_u64 tid) (record h.world { ve = c.1 }) in
      let (h₂, ran₂, e₄) =
        bind-ok (execute_ve os p f h.exs next) (end_open os tid (note_unexpected os h cmd)) o e₃ in
      let (quiet₂, settled) =
        execute_ve_lem os p f h.exs next h₂
          (unblock_running os (to_u64 tid) (record h.world { ve = c.1 })) ran₂ in
      let quiet₁ =
        Kept-Quiet os v h.world
          (exception_handler-Kept os filter (hook_clone_filter-IsFrame os) p f exs v h ran) in
      let quiet = Quiet-trans os w v h₂.world (do_call-Quiet os addr args w v called) (
        Quiet-trans os v h.world h₂.world quiet₁ (
          Quiet-trans os h.world next h₂.world
            (unblock_lem os (to_u64 tid) (record h.world { ve = c.1 })) quiet₂)) in
      end_open-Done tid cmd (note_unexpected os h cmd) w h₂ o (note_unexpected_lem h cmd) quiet
        settled e₄

  run_call-Done :
      (p f exs addr args : ℕ) (cmd : Command Task) (w : World D) (o : Outcome os)
      → run_call os p f exs addr args cmd w ≡ ok o
      → Done os cmd w o
  unfolding run_call
  run_call-Done p f exs addr args cmd w o e =
      let (v, called, e₁) =
        bind-ok (do_call os addr args w) (λ v. execute_ve os p f exs v >>= end_call os args cmd) o
          e in
      let (h, ran, e₂) = bind-ok (execute_ve os p f exs v) (end_call os args cmd) o e₁ in
      let running = ap (λ k. k.state) (do_call_lem os addr args w v called) in
      let (quiet, settled) = execute_ve_lem os p f exs v h running ran in
      end_call-Done os args cmd w h o
        (Quiet-trans os w v h.world (do_call-Quiet os addr args w v called) quiet) settled e₂

  run_vh-Done :
      (func arg : ℕ) (cmd : Command Task) (w : World D)
      → w.ctx.state ≡ state_blocked
      → Done os cmd w (run_vh os func arg cmd w)
  unfolding run_vh
  run_vh-Done func arg cmd w b = (refl, (_, _, refl), (refl, refl, refl, refl), inr b)

  run_read-Done :
      (dst src size : ℕ) (cmd : Command Task) (w : World D)
      → w.ctx.state ≡ state_blocked
      → Done os cmd w (run_read os dst src size cmd w)
  unfolding run_read
  run_read-Done dst src size cmd w b = (refl, (_, _, refl), (refl, refl, refl, refl), inr b)

  run_write-Done :
      (dst src size : ℕ) (cmd : Command Task) (w : World D)
      → w.ctx.state ≡ state_blocked
      → Done os cmd w (run_write os dst src size cmd w)
  unfolding run_write
  run_write-Done dst src size cmd w b = (refl, (_, _, refl), (refl, refl, refl, refl), inr b)

  run_close-Done :
      (id : ℕ) (cmd : Command Task) (w : World D)
      → cmd.handler ≡ close_task id
      → Done os cmd w (run_close os id w)
  unfolding run_close
  run_close-Done id cmd w e = (id, e, refl)

  -- A call whose `_doCall` succeeds ends with the run of the VE that follows.
  pub run_call_ends :
      (addr args : ℕ) (cmd : Command Task) (w v : World D) (h : Handled os)
      → do_call os addr args w ≡ ok v
      → Served os v h
      → (n : ℕ) × ((p f exs : ℕ)
          → ((h.status ≡ pos block_requested)
              × (run_call os (n + p) (n + f) exs addr args cmd w ≡ finish_call os args cmd h.world))
            ⊎ ((h.status ≡ status_exception)
                × (run_call os (n + p) (n + f) exs addr args cmd w
                    ≡ ok (finished (pos 1) (set_result h.exs command_exception cmd) h.world))))
  unfolding run_call
  run_call_ends addr args cmd w v h called served =
      let running = ap (λ k. k.state) (do_call_lem os addr args w v called) in
      let ((n, enough), kept, settled) = execute_ve_settles os v h running served in
      (
        n,
        λ p f exs. elim settled [
          | inl (status, blocked) ↦
              inl (status, rw (called, enough p f exs) (end_call_block os args cmd h status))
          | inr (status, fatal) ↦
              inr (status, rw (called, enough p f exs) (end_call_exception os args cmd h status))
        ],
      )

  -- The end of a call that stopped at a block request, `_collectReturnValue` and `copyout` written out:
  -- the first argument of the system call must be 0x14; the second one is the return value.
  abbrev pub call_value : ℕ → Command Task → World D → Result (Outcome os)
  call_value args cmd w = do
    veo_assert (os.syscall_arg 0 w.ve == 0x14)
    (a, memory, ve) ← copyout (λ src size buffer d. os.recv_data src size d) (w.args args) w.vh w.ve
    ok (
        finished (pos 0) (set_result (os.syscall_arg 1 w.ve) command_ok cmd) (record w {
          ctx = record w.ctx { ve_sp = os.syscall_arg 5 w.ve };
          args = λ j. if args == j then a else w.args j;
          vh = memory;
          ve = ve;
        }))

  finish_call_lem :
      (args : ℕ) (cmd : Command Task) (w : World D)
      → finish_call os args cmd w ≡ call_value args cmd w
  unfolding finish_call collect_return_value read_mem
  finish_call_lem args cmd w = elim (Bool-cases (os.syscall_arg 0 w.ve == 0x14)) [
    | inl asked ↦ rw asked refl
    | inr other ↦ rw other refl
  ]

  -- A call whose `_doCall` succeeds ends with the run of the VE that follows, for enough fuel. If that
  -- run ended in a block request, the handler gives 0 and the command has the value that the VE passed
  -- with the status `VEO_COMMAND_OK`, once its buffers are copied out; else the command has the EXS
  -- value and the status `VEO_COMMAND_EXCEPTION`, and the handler's status is 1. The status
  -- `VEO_COMMAND_ERROR` is never given.
  pub run_call_lem :
      (addr args : ℕ) (cmd : Command Task) (w v : World D) (h : Handled os)
      → do_call os addr args w ≡ ok v
      → Served os v h
      → (n : ℕ) × ((p f exs : ℕ)
          → ((h.status ≡ pos block_requested)
              × (run_call os (n + p) (n + f) exs addr args cmd w ≡ call_value args cmd h.world))
            ⊎ ((h.status ≡ status_exception)
                × (run_call os (n + p) (n + f) exs addr args cmd w
                    ≡ ok (finished (pos 1) (set_result h.exs command_exception cmd) h.world))))
  run_call_lem addr args cmd w v h called served =
      let (n, ended) = run_call_ends addr args cmd w v h called served in
      (
        n,
        λ p f exs. elim (ended p f exs) [
          | inl (status, e) ↦ inl (status, e ∙ finish_call_lem args cmd h.world)
          | inr last ↦ inr last
        ],
      )

  run_handler-Done :
      (p f exs : ℕ) (t : Task) (cmd : Command Task) (w : World D) (o : Outcome os)
      → w.ctx.state ≡ state_blocked
      → cmd.handler ≡ t
      → run_handler os p f exs t cmd w ≡ ok o
      → Done os cmd w o
  unfolding run_handler
  run_handler-Done p f exs (call_task addr args) cmd w o b t e =
      run_call-Done p f exs addr args cmd w o e
  run_handler-Done p f exs (vh_task func arg) cmd w o b t e =
      subst (Done os cmd w) (ok_inj e) (run_vh-Done func arg cmd w b)
  run_handler-Done p f exs (read_task dst src size) cmd w o b t e =
      subst (Done os cmd w) (ok_inj e) (run_read-Done dst src size cmd w b)
  run_handler-Done p f exs (write_task dst src size) cmd w o b t e =
      subst (Done os cmd w) (ok_inj e) (run_write-Done dst src size cmd w b)
  run_handler-Done p f exs (open_task addr args) cmd w o b t e =
      run_open-Done p f exs addr args cmd w o e
  run_handler-Done p f exs (close_task id) cmd w o b t e =
      subst (Done os cmd w) (ok_inj e) (run_close-Done id cmd w t)

  -- The frame of a command that is run while the context is BLOCKED: a handler that returns sets a
  -- result, leaves the queues and the request IDs, and, where its status is 0, the context BLOCKED.
  pub run_task-Done :
      (p f exs : ℕ) (cmd : Command Task) (w : World D) (o : Outcome os)
      → w.ctx.state ≡ state_blocked
      → run_task os p f exs cmd w ≡ ok o
      → Done os cmd w o
  unfolding run_task
  run_task-Done p f exs cmd w o b e = run_handler-Done p f exs cmd.handler cmd w o b refl e
