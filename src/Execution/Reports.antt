-- ===== src/Execution/Reports.antt =====
-- The result that each handler records, against what the VE, the VH function or the transfer gave.
use veoffload.Base.{
  ℕ, arith, ◌≡◌, refl, sym, ◌∙◌, ap, subst, ◌⊎◌, inl, inr, true, false, Bool-cases, ℤ, pos, ok, err,
  exception, ok_inj, bind-ok, ◌>>=◌, load, store, if◌then◌else◌,
}
use veoffload.Queues.Blocking.{
  Command, CommandStatus, command_ok, command_error, command_exception, set_result,
}
use veoffload.Context.State.{
  Task, call_task, vh_task, read_task, write_task, open_task, close_task, state_blocked,
}
use veoffload.Execution.Driver.{Driver, World}
use veoffload.Execution.Calls.{do_call, collect_return_value, read_mem, write_mem, unblock}
use veoffload.Execution.Clone.{is_negative, handle_clone_request}
use veoffload.Execution.Exceptions.{Handled, execute_ve, exception_handler, is_zero}
use veoffload.Execution.Filters.{status_exception, block_requested, hook_clone_filter}
use veoffload.Execution.Blocks.{Settled}
use veoffload.Execution.Ends.{
  Done, do_call_lem, execute_ve_lem, end_call_block, end_call_exception, unblock_running,
}
use veoffload.Execution.Trace.{Served}
use veoffload.Execution.Served.{execute_ve-Served}
use veoffload.Execution.Tasks.{
  run_task-Done, end_open_block, end_open_exception, note_unexpected_lem,
}
use veoffload.Execution.Handlers.{
  to_u64, Outcome, finished, exited, run_task, run_handler, run_call, run_open, run_close, run_vh,
  run_read, run_write, finish_call, end_call, end_open, open_child, note_unexpected,
}

module _ {D : Type 0} (os : Driver D) where
  -- A transfer that gave `rv`: the status of the handler, and the result of the command.
  abbrev IsTransfer : ℤ → Command Task → ℤ → Command Task → Type 0
  IsTransfer given cmd rv cmd' =
      (rv ≡ given)
      × (((given ≡ pos 0) × (cmd' ≡ set_result 0 command_ok cmd))
          ⊎ ((is_zero given ≡ false) × (cmd' ≡ set_result (to_u64 given) command_error cmd)))

  -- A call that went into the VE as `v` and came out as `h`: the VE asked for a block, with the return
  -- value in the second argument of that system call, or met a fatal exception.
  abbrev IsCall : Handled os → Command Task → ℤ → Command Task → Type 0
  IsCall h cmd rv cmd' =
      ((h.status ≡ pos block_requested)
        × (rv ≡ pos 0)
        × (cmd' ≡ set_result (os.syscall_arg 1 h.world.ve) command_ok cmd))
      ⊎ ((h.status ≡ status_exception)
          × (rv ≡ pos 1)
          × (cmd' ≡ set_result h.exs command_exception cmd))

  -- What a handler that was run in the world `w` reports. Only that of `close` does not return.
  abbrev pub Reports : Task → Command Task → World D → Outcome os → Type 0
  Reports (call_task addr args) cmd w (finished rv cmd' w') =
      (v : World D) × (h : Handled os) × (do_call os addr args w ≡ ok v)
      × Served os v h
      × IsCall h cmd rv cmd'
  Reports (vh_task func arg) cmd w (finished rv cmd' w') =
      let (value, memory) = os.vh_function func arg w.vh in
      (rv ≡ pos 0) × (cmd' ≡ set_result value command_ok cmd) × (w'.vh ≡ memory)
  Reports (read_task dst src size) cmd w (finished rv cmd' w') =
      let (given, bytes, ve) = os.recv_data src size w.ve in
      IsTransfer given cmd rv cmd' × (w'.vh ≡ store w.vh dst bytes) × (w'.ve ≡ ve)
  Reports (write_task dst src size) cmd w (finished rv cmd' w') =
      let (given, ve) = os.send_data dst (load w.vh src size) w.ve in
      IsTransfer given cmd rv cmd' × (w'.vh ≡ w.vh) × (w'.ve ≡ ve)
  Reports (open_task addr args) cmd w (finished rv cmd' w') =
      (fuel : ℕ) × (d : D) × (tid : ℤ) × ((handle_clone_request os fuel d).0 ≡ ok tid)
      × (rv ≡ pos 0)
      × (cmd'
          ≡ set_result (if is_negative tid then to_u64 tid else os.context_address w'.ve) command_ok
              cmd)
  Reports (close_task id) cmd w (finished rv cmd' w') = true ≡ false
  Reports (call_task addr args) cmd w (exited w') = true ≡ false
  Reports (vh_task func arg) cmd w (exited w') = true ≡ false
  Reports (read_task dst src size) cmd w (exited w') = true ≡ false
  Reports (write_task dst src size) cmd w (exited w') = true ≡ false
  Reports (open_task addr args) cmd w (exited w') = true ≡ false
  Reports (close_task id) cmd w (exited w') = w'.ve ≡ os.cleanup w.ve

  zero_lem : (rv : ℤ) → is_zero rv ≡ true → rv ≡ pos 0
  zero_lem (pos n) e = let z : n ≡ 0 = ground arith in ap pos z
  zero_lem (ℤ.negsuc n) e = absurd cc

  run_read-Reports :
      (dst src size : ℕ) (cmd : Command Task) (w : World D)
      → Reports (read_task dst src size) cmd w (run_read os dst src size cmd w)
  unfolding run_read read_mem
  run_read-Reports dst src size cmd w =
      let given = (os.recv_data src size w.ve).0 in
      elim (Bool-cases (is_zero given)) [
        | inl z ↦ let e = zero_lem given z in ((refl, inl (e, rw e refl)), refl, refl)
        | inr z ↦ ((refl, inr (z, rw z refl)), refl, refl)
      ]

  run_write-Reports :
      (dst src size : ℕ) (cmd : Command Task) (w : World D)
      → Reports (write_task dst src size) cmd w (run_write os dst src size cmd w)
  unfolding run_write write_mem
  run_write-Reports dst src size cmd w =
      let given = (os.send_data dst (load w.vh src size) w.ve).0 in
      elim (Bool-cases (is_zero given)) [
        | inl z ↦ let e = zero_lem given z in ((refl, inl (e, rw e refl)), refl, refl)
        | inr z ↦ ((refl, inr (z, rw z refl)), refl, refl)
      ]

  finish_call-result :
      (args : ℕ) (cmd cmd' : Command Task) (w w' : World D) (rv : ℤ)
      → finish_call os args cmd w ≡ ok (finished rv cmd' w')
      → (rv ≡ pos 0) × (cmd' ≡ set_result (os.syscall_arg 1 w.ve) command_ok cmd)
  unfolding finish_call collect_return_value
  finish_call-result args cmd cmd' w w' rv e = (ground arith, ground arith)

  finish_call-returns :
      (args : ℕ) (cmd : Command Task) (w w' : World D)
      → finish_call os args cmd w ≡ ok (exited w')
      → true ≡ false
  unfolding finish_call collect_return_value
  finish_call-returns args cmd w w' e = ground arith

  call-Reports :
      (addr args : ℕ) (cmd : Command Task) (w v : World D) (h : Handled os) (o : Outcome os)
      → do_call os addr args w ≡ ok v
      → Served os v h
      → Settled os h
      → end_call os args cmd h ≡ ok o
      → Reports (call_task addr args) cmd w o
  call-Reports addr args cmd w v h (finished rv cmd' w') called served (inl (status, b)) e =
      let (zero, set) =
        finish_call-result args cmd cmd' h.world w' rv
          (sym (end_call_block os args cmd h status) ∙ e) in
      (v, h, called, served, inl (status, zero, set))
  call-Reports addr args cmd w v h (exited w') called served (inl (status, b)) e =
      finish_call-returns args cmd h.world w' (sym (end_call_block os args cmd h status) ∙ e)
  call-Reports addr args cmd w v h o called served (inr (status, fatal)) e =
      subst (Reports (call_task addr args) cmd w)
        (ok_inj (sym (end_call_exception os args cmd h status) ∙ e))
        (v, h, called, served, inr (status, refl, refl))

  run_call-Reports :
      (p f exs addr args : ℕ) (cmd : Command Task) (w : World D) (o : Outcome os)
      → run_call os p f exs addr args cmd w ≡ ok o
      → Reports (call_task addr args) cmd w o
  unfolding run_call
  run_call-Reports p f exs addr args cmd w o e =
      let (v, called, e₁) =
        bind-ok (do_call os addr args w) (λ v. execute_ve os p f exs v >>= end_call os args cmd) o
          e in
      let (h, ran, e₂) = bind-ok (execute_ve os p f exs v) (end_call os args cmd) o e₁ in
      let running = ap (λ k. k.state) (do_call_lem os addr args w v called) in
      call-Reports addr args cmd w v h o called (execute_ve-Served os p f exs v h running ran)
        (execute_ve_lem os p f exs v h running ran).1 e₂

  open-Reports :
      (addr args fuel : ℕ) (cmd cmd' : Command Task) (w : World D) (d : D) (tid : ℤ)
      (h : Handled os) (o : Outcome os)
      → (handle_clone_request os fuel d).0 ≡ ok tid
      → ((r : ℕ) (s : CommandStatus) → set_result r s cmd' ≡ set_result r s cmd)
      → Settled os h
      → end_open os tid cmd' h ≡ ok o
      → Reports (open_task addr args) cmd w o
  open-Reports addr args fuel cmd cmd' w d tid h o cloned same (inl (status, b)) e =
      subst (Reports (open_task addr args) cmd w)
        (ok_inj (sym (end_open_block os tid cmd' h status) ∙ e))
        (fuel, d, tid, cloned, refl, same _ command_ok)
  open-Reports addr args fuel cmd cmd' w d tid h o cloned same (inr (status, fatal)) e =
      let impossible : err (exception 0) ≡ ok o =
        sym (end_open_exception os tid cmd' h status) ∙ e in
      absurd cc

  run_open-Reports :
      (p f exs addr args : ℕ) (cmd : Command Task) (w : World D) (o : Outcome os)
      → run_open os p f exs addr args cmd w ≡ ok o
      → Reports (open_task addr args) cmd w o
  unfolding run_open open_child
  run_open-Reports p f exs addr args cmd w o e =
      let filter = hook_clone_filter os in
      let (v, called, e₁) =
        bind-ok (do_call os addr args w)
          (λ v. exception_handler os p f filter exs v >>= open_child os p f cmd) o e in
      let (h, ran, e₂) =
        bind-ok (exception_handler os p f filter exs v) (open_child os p f cmd) o e₁ in
      let c = handle_clone_request os f h.world.ve in
      let (tid, cloned, e₃) =
        bind-ok (c.0)
          (λ tid.
            execute_ve os p f h.exs (unblock os (to_u64 tid) (record h.world { ve = c.1 }))
            >>= end_open os tid (note_unexpected os h cmd))
          o e₂ in
      let next = unblock os (to_u64 tid) (record h.world { ve = c.1 }) in
      let (h₂, ran₂, e₄) =
        bind-ok (execute_ve os p f h.exs next) (end_open os tid (note_unexpected os h cmd)) o e₃ in
      open-Reports addr args f cmd (note_unexpected os h cmd) w h.world.ve tid h₂ o cloned
        (note_unexpected_lem os h cmd)
        (execute_ve_lem os p f h.exs next h₂
          (unblock_running os (to_u64 tid) (record h.world { ve = c.1 })) ran₂).1
        e₄

  run_handler-Reports :
      (p f exs : ℕ) (t : Task) (cmd : Command Task) (w : World D) (o : Outcome os)
      → run_handler os p f exs t cmd w ≡ ok o
      → Reports t cmd w o
  unfolding run_handler run_vh run_close
  run_handler-Reports p f exs (call_task addr args) cmd w o e =
      run_call-Reports p f exs addr args cmd w o e
  run_handler-Reports p f exs (vh_task func arg) cmd w o e =
      subst (Reports (vh_task func arg) cmd w) (ok_inj e) (refl, refl, refl)
  run_handler-Reports p f exs (read_task dst src size) cmd w o e =
      subst (Reports (read_task dst src size) cmd w) (ok_inj e)
        (run_read-Reports dst src size cmd w)
  run_handler-Reports p f exs (write_task dst src size) cmd w o e =
      subst (Reports (write_task dst src size) cmd w) (ok_inj e)
        (run_write-Reports dst src size cmd w)
  run_handler-Reports p f exs (open_task addr args) cmd w o e =
      run_open-Reports p f exs addr args cmd w o e
  run_handler-Reports p f exs (close_task id) cmd w o e =
      subst (Reports (close_task id) cmd w) (ok_inj e) refl

  -- A command that is run while the context is BLOCKED. Where its handler returns, it has the result of
  -- that run, under its own message ID: a VH call the value of the function; a transfer 0 and
  -- `VEO_COMMAND_OK`, or the status of the transfer, where that is not 0, and `VEO_COMMAND_ERROR`, with
  -- the bytes where they belong; a call the value that the VE passed with its block request and
  -- `VEO_COMMAND_OK`, or the EXS value of a fatal exception and `VEO_COMMAND_EXCEPTION`; the opening of a
  -- context its address, or the negative number that `clone` gave, and `VEO_COMMAND_OK`. The handler
  -- leaves the queues, the outstanding request IDs and the next ID as they were, and, where its status
  -- is 0, the context BLOCKED. Only the handler of `close` does not return: it has pushed one
  -- completion, with the ID that it was made for, the result 0 and the status `VEO_COMMAND_OK`, the
  -- state is EXIT, and the VE was cleaned up.
  pub run_task_lem :
      (p f exs : ℕ) (cmd : Command Task) (w : World D) (o : Outcome os)
      → w.ctx.state ≡ state_blocked
      → run_task os p f exs cmd w ≡ ok o
      → Done os cmd w o × Reports cmd.handler cmd w o
  unfolding run_task
  run_task_lem p f exs cmd w o b e =
      (run_task-Done os p f exs cmd w o b e, run_handler-Reports p f exs cmd.handler cmd w o e)
