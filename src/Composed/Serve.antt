-- ===== src/Composed/Serve.antt =====
-- A memory transfer that the worker serves from an idle context.
use veoffload.Base.{ℕ, suc, ◌≡◌, refl, ◌∙◌, true, false, [], some, ok, ℤ, Memory, eqb_refl}
use veoffload.Queues.Blocking.{Command, new_command, set_result, CommandStatus, queue_closed, push}
use veoffload.Queues.Comm.{new_comm, push_completion}
use veoffload.Context.State.{Context, Task, state_blocked, state_exit, contains}
use veoffload.Context.Issue.{next_id, issued, requested, contains-insert}
use veoffload.Context.Answers.{claimed, wait-completed}
use veoffload.Execution.Driver.{Driver, World}
use veoffload.Execution.Exceptions.{is_zero}
use veoffload.Execution.Handlers.{finished, run_task}
use veoffload.Execution.Loop.{goes_on, waiting, returned, event_turn, event_loop}
use veoffload.Execution.Turns.{
  taken, succeeded, failed, event_turn_run, conclude_success, conclude_failure,
}
use veoffload.Execution.Order.{event_turn_idle}
use veoffload.Execution.Rounds.{event_loop_step, rest_of}
use veoffload.Composed.Pseudo.{wait_result, loop_world, picked}

-- The context is BLOCKED, and both queues are open and empty.
abbrev pub idle : Context → Context
idle ctx = record ctx { state = state_blocked; comq = new_comm }

module _ {D : Type 0} where
  abbrev pub idle_world : World D → World D
  idle_world w = record w { ctx = idle w.ctx }

  abbrev pub asked : Task → World D → World D
  asked task w = record w { ctx = requested task (idle w.ctx) }

  -- Both queues are open and empty.
  abbrev pub quiet_world : World D → World D
  quiet_world w = record w { ctx = record w.ctx { comq = new_comm } }

  -- The command of the request.
  abbrev pub asked_command : Task → World D → Command Task
  asked_command task w = new_command (next_id w.ctx.seq_no) task

  -- The transfer was made, and the command is not completed: the memory and the VE are new.
  abbrev pub moved : World D → Memory → D → World D
  moved w vh ve = record w { vh = vh; ve = ve; ctx = issued (idle w.ctx) }

  -- The result of the transfer was handed out.
  abbrev pub served : World D → Memory → D → World D
  served w vh ve = record (moved w vh ve) {
    ctx = claimed (next_id w.ctx.seq_no) (issued (idle w.ctx));
  }

module _ {D : Type 0} (os : Driver D) (p f exs rounds name : ℕ) where
  pub listed_lem : (w : World D) → contains (next_id w.ctx.seq_no) (issued w.ctx).rem_reqid ≡ true
  listed_lem w =
      contains-insert (next_id w.ctx.seq_no) (next_id w.ctx.seq_no) w.ctx.rem_reqid
      ∙ rw (eqb_refl (next_id w.ctx.seq_no))

  -- The command of the request, with the result that it was given.
  abbrev pub answered_command : Task → World D → ℕ → CommandStatus → Command Task
  answered_command task w r s = set_result r s (asked_command task w)

  loop_success :
      (task : Task) (w u : World D) (rv : ℤ) (r : ℕ) (s : CommandStatus)
      → run_task os p f exs (asked_command task w) (taken os [] (asked task w))
        ≡ ok (finished rv (answered_command task w r s) (idle_world u))
      → is_zero rv ≡ true
      → event_loop os p f exs (suc (suc rounds)) (asked task w)
        ≡ ok (waiting (succeeded os (answered_command task w r s) (idle_world u)))
  unfolding rest_of
  loop_success task w u rv r s ran z =
      let done = succeeded os (answered_command task w r s) (idle_world u) in
      let turn : event_turn os p f exs (asked task w) ≡ ok (goes_on done) =
        event_turn_run os p f exs (asked task w) (asked_command task w) [] refl refl
        ∙ rw ran (conclude_success os rv (answered_command task w r s) (idle_world u) z) in
      let rest : event_turn os p f exs done ≡ ok (waiting done) =
        event_turn_idle os p f exs done refl refl in
      event_loop_step os p f exs (suc rounds) (asked task w)
      ∙ rw turn (event_loop_step os p f exs rounds done ∙ rw rest refl)

  loop_failure :
      (task : Task) (w u : World D) (rv : ℤ) (r : ℕ) (s : CommandStatus)
      → run_task os p f exs (asked_command task w) (taken os [] (asked task w))
        ≡ ok (finished rv (answered_command task w r s) (quiet_world u))
      → is_zero rv ≡ false
      → event_loop os p f exs (suc (suc rounds)) (asked task w)
        ≡ ok (returned (failed os (answered_command task w r s) (quiet_world u)))
  unfolding rest_of
  loop_failure task w u rv r s ran z =
      let turn : event_turn os p f exs (asked task w)
          ≡ ok (returned (failed os (answered_command task w r s) (quiet_world u))) =
        event_turn_run os p f exs (asked task w) (asked_command task w) [] refl refl
        ∙ rw ran (conclude_failure os rv (answered_command task w r s) (quiet_world u) z) in
      event_loop_step os p f exs (suc rounds) (asked task w) ∙ rw turn refl

  -- A command that is successful, and leaves the ID outstanding and the context idle:
  -- `callWaitResult` answers with its result, and the context is idle again.
  pub answer_success :
      (task : Task) (w u : World D) (rv : ℤ) (r : ℕ) (s : CommandStatus)
      → run_task os p f exs (asked_command task w) (taken os [] (asked task w))
        ≡ ok (finished rv (answered_command task w r s) (idle_world u))
      → is_zero rv ≡ true
      → contains (next_id w.ctx.seq_no) u.ctx.rem_reqid ≡ true
      → wait_result os p f exs (suc (suc rounds)) name (next_id w.ctx.seq_no) (asked task w)
        ≡ (s, some r, record u { ctx = claimed (next_id w.ctx.seq_no) (idle u.ctx) })
  unfolding wait_result loop_world picked push_completion push
  answer_success task w u rv r s ran z listed =
      let answer = (wait-completed (idle u.ctx) (asked_command task w) r s listed tt).0 in
      rw (loop_success task w u rv r s ran z, answer) refl

  -- A command that fails: `callWaitResult` answers with its result all the same.
  pub answer_failure :
      (task : Task) (w u : World D) (rv : ℤ) (r : ℕ) (s : CommandStatus)
      → run_task os p f exs (asked_command task w) (taken os [] (asked task w))
        ≡ ok (finished rv (answered_command task w r s) (quiet_world u))
      → is_zero rv ≡ false
      → contains (next_id w.ctx.seq_no) u.ctx.rem_reqid ≡ true
      → (wait_result os p f exs (suc (suc rounds)) name (next_id w.ctx.seq_no) (asked task w)).0 ≡ s
  unfolding wait_result loop_world picked push_completion push
  answer_failure task w u rv r s ran z listed =
      let left = record u.ctx {
        state = state_exit;
        comq = record new_comm { request = record { queue = []; status = queue_closed } };
      } in
      let answer = (wait-completed left (asked_command task w) r s listed tt).0 in
      rw (loop_failure task w u rv r s ran z, answer) refl

  -- A transfer that succeeds, and one that fails.
  pub wait_success :
      (task : Task) (w : World D) (rv : ℤ) (r : ℕ) (s : CommandStatus) (vh : Memory) (ve : D)
      → run_task os p f exs (asked_command task w) (taken os [] (asked task w))
        ≡ ok (finished rv (answered_command task w r s) (moved w vh ve))
      → is_zero rv ≡ true
      → wait_result os p f exs (suc (suc rounds)) name (next_id w.ctx.seq_no) (asked task w)
        ≡ (s, some r, served w vh ve)
  wait_success task w rv r s vh ve ran z =
      answer_success task w (moved w vh ve) rv r s ran z (listed_lem w)

  pub wait_failure :
      (task : Task) (w : World D) (rv : ℤ) (r : ℕ) (s : CommandStatus) (vh : Memory) (ve : D)
      → run_task os p f exs (asked_command task w) (taken os [] (asked task w))
        ≡ ok (finished rv (answered_command task w r s) (moved w vh ve))
      → is_zero rv ≡ false
      → (wait_result os p f exs (suc (suc rounds)) name (next_id w.ctx.seq_no) (asked task w)).0 ≡ s
  wait_failure task w rv r s vh ve ran z =
      answer_failure task w (moved w vh ve) rv r s ran z (listed_lem w)
