-- ===== src/Execution/Ends.antt =====
-- The parts of the handlers: what `_doCall` and `_executeVE` leave, and how a call ends.
use veoffload.Base.{ℕ, arith, ◌≡◌, refl, sym, ◌∙◌, ap, subst, ◌⊎◌, inl, inr, false, pos, ok, ok_inj}
use veoffload.Queues.Blocking.{
  Command, CommandStatus, command_ok, command_exception, new_command, set_result,
}
use veoffload.Queues.Comm.{push_completion}
use veoffload.Context.State.{
  ContextState, Task, close_task, state_running, state_blocked, state_exit,
}
use veoffload.Execution.Driver.{Driver, World}
use veoffload.Execution.Calls.{do_call, enter, unblock, collect_return_value}
use veoffload.Execution.Exceptions.{Handled, execute_ve, is_zero}
use veoffload.Execution.Filters.{status_exception, block_requested}
use veoffload.Execution.Blocks.{Kept, Settled}
use veoffload.Execution.Served.{execute_ve_settles, execute_ve-Served}
use veoffload.Execution.Handlers.{Outcome, finished, exited, finish_call, fail_call, end_call}

module _ {D : Type 0} (os : Driver D) where
  -- `_doCall` leaves the context RUNNING; it may move the stack pointer.
  pub do_call_lem :
      (addr args : ℕ) (w v : World D)
      → do_call os addr args w ≡ ok v
      → v.ctx ≡ record w.ctx { state = state_running; ve_sp = v.ctx.ve_sp }
  unfolding do_call enter unblock
  do_call_lem addr args w v e = ground arith

  -- The queues and the request IDs are as they were.
  abbrev pub Quiet : World D → World D → Type 0
  Quiet w w' =
      (w'.ctx.comq ≡ w.ctx.comq)
      × (w'.ctx.rem_reqid ≡ w.ctx.rem_reqid)
      × (w'.ctx.seq_no ≡ w.ctx.seq_no)
      × (w'.ctx.is_main_thread ≡ w.ctx.is_main_thread)

  pub Quiet-trans : (u v w : World D) → Quiet u v → Quiet v w → Quiet u w
  Quiet-trans u v w (q, r, s, m) (q', r', s', m') = (q' ∙ q, r' ∙ r, s' ∙ s, m' ∙ m)

  context-Quiet :
      (w w' : World D) (s : ContextState) (sp : ℕ)
      → w'.ctx ≡ record w.ctx { state = s; ve_sp = sp }
      → Quiet w w'
  context-Quiet w w' s sp c = (
    ap (λ k. k.comq) c,
    ap (λ k. k.rem_reqid) c,
    ap (λ k. k.seq_no) c,
    ap (λ k. k.is_main_thread) c,
  )

  -- What a handler leaves: the command that it was given, with a result, and a context that is BLOCKED
  -- if the status is 0; or, where it never returns, a reply of its own and the state EXIT.
  abbrev pub Done : Command Task → World D → Outcome os → Type 0
  Done cmd w (finished rv cmd' w') =
      (cmd'.msgid ≡ cmd.msgid)
      × ((r : ℕ) × (s : CommandStatus) × (cmd' ≡ set_result r s cmd))
      × Quiet w w'
      × ((is_zero rv ≡ false) ⊎ (w'.ctx.state ≡ state_blocked))
  Done cmd w (exited w') =
      (id : ℕ) × (cmd.handler ≡ close_task id)
      × (w'.ctx ≡ record w.ctx {
        state = state_exit;
        ve_sp = w'.ctx.ve_sp;
        comq =
            push_completion (set_result 0 command_ok (new_command id (close_task id))) w.ctx.comq;
      })

  pub finish_call-Done :
      (args : ℕ) (cmd : Command Task) (w : World D) (o : Outcome os)
      → w.ctx.state ≡ state_blocked
      → finish_call os args cmd w ≡ ok o
      → Done cmd w o
  unfolding finish_call collect_return_value
  finish_call-Done args cmd w (finished rv cmd' w') blocked e = (
    ground arith,
    (os.syscall_arg 1 w.ve, command_ok, ground arith),
    (ground arith, ground arith, ground arith, ground arith),
    inr (ground arith),
  )
  finish_call-Done args cmd w (exited w') blocked e = absurd (ground arith)

  pub unblock_lem : (sr0 : ℕ) (w : World D) → Quiet w (unblock os sr0 w)
  unfolding unblock
  unblock_lem sr0 w = (refl, refl, refl, refl)

  pub unblock_running : (sr0 : ℕ) (w : World D) → (unblock os sr0 w).ctx.state ≡ state_running
  unfolding unblock
  unblock_running sr0 w = refl

  pub Kept-Quiet : (w w' : World D) → Kept os w w' → Quiet w w'
  Kept-Quiet w w' (c, m, a) = context-Quiet w w' w'.ctx.state w.ctx.ve_sp c

  pub do_call-Quiet : (addr args : ℕ) (w v : World D) → do_call os addr args w ≡ ok v → Quiet w v
  do_call-Quiet addr args w v e =
      let c = do_call_lem addr args w v e in context-Quiet w v state_running v.ctx.ve_sp c

  -- What `_executeVE` leaves from RUNNING.
  pub execute_ve_lem :
      (p f exs : ℕ) (w : World D) (h : Handled os)
      → w.ctx.state ≡ state_running
      → execute_ve os p f exs w ≡ ok h
      → Quiet w h.world × Settled os h
  execute_ve_lem p f exs w h run e =
      let (enough, kept, settled) =
        execute_ve_settles os w h run (execute_ve-Served os p f exs w h run e) in
      (Kept-Quiet w h.world kept, settled)

  pub Done-shift :
      (cmd : Command Task) (u w : World D) (o : Outcome os)
      → Quiet u w
      → Done cmd w o
      → Done cmd u o
  Done-shift cmd u w (finished rv cmd' w') quiet (m, r, quiet', state) =
      (m, r, Quiet-trans u w w' quiet quiet', state)
  Done-shift cmd u w (exited w') (q, r, s, m) (id, h, reply) =
      (id, h, rw (← q, ← r, ← s, ← m) reply)

  pub end_call_block :
      (args : ℕ) (cmd : Command Task) (h : Handled os)
      → h.status ≡ pos block_requested
      → end_call os args cmd h ≡ finish_call os args cmd h.world
  unfolding end_call
  end_call_block args cmd h e = rw (e, end_call) refl

  pub fail_call_lem :
      (cmd : Command Task) (h : Handled os)
      → h.status ≡ status_exception
      → fail_call os h cmd ≡ finished (pos 1) (set_result h.exs command_exception cmd) h.world
  unfolding fail_call
  fail_call_lem cmd h e = rw (e, fail_call) refl

  pub end_call_exception :
      (args : ℕ) (cmd : Command Task) (h : Handled os)
      → h.status ≡ status_exception
      → end_call os args cmd h
        ≡ ok (finished (pos 1) (set_result h.exs command_exception cmd) h.world)
  unfolding end_call
  end_call_exception args cmd h e = rw (e, end_call) (ap ok (fail_call_lem cmd h e))

  pub end_call-Done :
      (args : ℕ) (cmd : Command Task) (u : World D) (h : Handled os) (o : Outcome os)
      → Quiet u h.world
      → Settled os h
      → end_call os args cmd h ≡ ok o
      → Done cmd u o
  end_call-Done args cmd u h o quiet (inl (status, blocked)) e =
      Done-shift cmd u h.world o quiet
        (finish_call-Done args cmd h.world o blocked (sym (end_call_block args cmd h status) ∙ e))
  end_call-Done args cmd u h o quiet (inr (status, fatal)) e =
      subst (Done cmd u) (ok_inj (sym (end_call_exception args cmd h status) ∙ e))
        (refl, (h.exs, command_exception, refl), quiet, inl refl)
