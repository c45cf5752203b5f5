-- ===== src/Composed/Values.antt =====
-- The value of a function that the process handle calls, and an exception in it.
use veoffload.Base.{
  ℕ, suc, ◌+◌, ◌^◌, ◌<◌, ◌≡◌, ◌≢◌, sym, ◌∙◌, ap₂, subst, inl, inr, ok, err, exception, pos, negsuc,
}
use veoffload.Args.Setup.{CallArgs}
use veoffload.Queues.Blocking.{set_result, command_ok}
use veoffload.Queues.Comm.{new_comm}
use veoffload.Context.State.{state_blocked}
use veoffload.Context.Issue.{next_id}
use veoffload.Context.Answers.{claimed}
use veoffload.Execution.Driver.{Driver, World}
use veoffload.Execution.Filters.{block_requested, status_exception}
use veoffload.Execution.Exceptions.{Handled}
use veoffload.Execution.Calls.{do_call}
use veoffload.Execution.Handlers.{finished, finish_call, run_task, run_handler}
use veoffload.Execution.Trace.{Served}
use veoffload.Execution.Tasks.{run_call_ends}
use veoffload.Proc.Worker.{do_on_context, enosys}
use veoffload.Composed.Pseudo.{pseudo_worker}
use veoffload.Composed.Serve.{idle, idle_world}
use veoffload.Composed.Calls.{the_command, entered, do_on_context-success, do_on_context-failure}

module _ {D : Type 0} (os : Driver D) (name func : ℕ) (args : CallArgs) where
  idle_lem : (w : World D) → w.ctx.state ≡ state_blocked → w.ctx.comq ≡ new_comm → idle_world w ≡ w
  idle_lem w blocked empty =
      ap₂ (λ s q. record w { ctx = record w.ctx { state = s; comq = q } }) (sym blocked) (sym empty)

  -- On a worker that is BLOCKED, with both queues open and empty: where `_doCall` succeeds, the VE runs
  -- to a block request, and the return value and the copy-out are collected, `doOnContext` gives that
  -- return value, for enough fuel. The memory, the arguments and the VE are then as the copy-out left
  -- them, and the worker is BLOCKED with open, empty queues again.
  pub do_on_context_value :
      (w v u : World D) (h : Handled os) (ret : ℕ)
      → w.ctx.seq_no < 2 ^ 64
      → w.ctx.state ≡ state_blocked
      → w.ctx.comq ≡ new_comm
      → func ≢ 0
      → do_call os func name (entered os name func args w) ≡ ok v
      → Served os v h
      → h.status ≡ pos block_requested
      → finish_call os name (the_command os name func args w) h.world
        ≡ ok (finished (pos 0) (set_result ret command_ok (the_command os name func args w)) u)
      → (n : ℕ) × ((p f exs rounds : ℕ)
          → do_on_context (pseudo_worker os (n + p) (n + f) exs (suc (suc rounds)) name) func args w
            ≡ (ok ret, record u { ctx = claimed (next_id w.ctx.seq_no) (idle u.ctx) }))
  unfolding run_task run_handler
  do_on_context_value w v u h ret small blocked empty nonzero called served status collected =
      let (n, runs) =
        run_call_ends os func name (the_command os name func args w) (entered os name func args w) v
          h called served in
      (
        n,
        λ p f exs rounds. elim (runs p f exs) [
          | inl (block, ran) ↦
              subst
                (λ w'.
                  do_on_context (pseudo_worker os (n + p) (n + f) exs (suc (suc rounds)) name) func
                    args w'
                  ≡ (ok ret, record u { ctx = claimed (next_id w.ctx.seq_no) (idle u.ctx) }))
                (idle_lem w blocked empty)
                (do_on_context-success os name func args w (n + p) (n + f) exs rounds ret u small
                  nonzero (ran ∙ collected))
          | inr (fatal, ran) ↦
              absurd (let b : pos block_requested ≡ negsuc 0 = sym status ∙ fatal in cc)
        ],
      )

  -- Where the VE meets a fatal exception instead, `doOnContext` throws with ENOSYS.
  pub do_on_context_exception :
      (w v : World D) (h : Handled os)
      → w.ctx.seq_no < 2 ^ 64
      → w.ctx.state ≡ state_blocked
      → w.ctx.comq ≡ new_comm
      → func ≢ 0
      → do_call os func name (entered os name func args w) ≡ ok v
      → Served os v h
      → h.status ≡ status_exception
      → (n : ℕ) × ((p f exs rounds : ℕ)
          → (do_on_context
              (pseudo_worker os (n + p) (n + f) exs (suc (suc rounds)) name)
              func
              args
              w).0
            ≡ err (exception enosys))
  unfolding run_task run_handler
  do_on_context_exception w v h small blocked empty nonzero called served status =
      let (n, runs) =
        run_call_ends os func name (the_command os name func args w) (entered os name func args w) v
          h called served in
      (
        n,
        λ p f exs rounds. elim (runs p f exs) [
          | inl (block, ran) ↦
              absurd (let b : pos block_requested ≡ negsuc 0 = sym block ∙ status in cc)
          | inr (fatal, ran) ↦
              subst
                (λ w'.
                  (do_on_context (pseudo_worker os (n + p) (n + f) exs (suc (suc rounds)) name) func
                    args w').0
                  ≡ err (exception enosys))
                (idle_lem w blocked empty)
                (do_on_context-failure os name func args w (n + p) (n + f) exs rounds h.exs h.world
                  small nonzero ran)
        ],
      )
