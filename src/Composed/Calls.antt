-- ===== src/Composed/Calls.antt =====
-- `doOnContext` over the queues and the pseudo thread of the worker: the function runs on the VE.
use veoffload.Base.{
  ℕ, suc, ◌^◌, ◌<◌, ◌≡◌, ◌≢◌, refl, sym, ◌∙◌, ap, ap₂, true, inl, inr, [], ok, err, exception, pos,
  Option,
}
use veoffload.Args.Setup.{CallArgs}
use veoffload.Queues.Blocking.{
  Command, set_result, command_ok, command_exception, queue_ready, CommandStatus,
}
use veoffload.Context.State.{Task, call_task, state_blocked, contains}
use veoffload.Context.Requests.{call_async}
use veoffload.Context.Issue.{next_id, requests_lem}
use veoffload.Context.Answers.{claimed}
use veoffload.Execution.Driver.{Driver, World}
use veoffload.Execution.Calls.{update_args}
use veoffload.Execution.Handlers.{finished, run_task}
use veoffload.Execution.Tasks.{run_task-Done}
use veoffload.Execution.Turns.{taken}
use veoffload.Proc.Worker.{do_on_context, require_ok, enosys}
use veoffload.Composed.Pseudo.{request, pseudo_worker}
use veoffload.Composed.Serve.{
  idle, idle_world, quiet_world, asked, asked_command, listed_lem, answer_success, answer_failure,
}

require_exception :
    (status : CommandStatus) (ret : Option ℕ)
    → status ≡ command_exception
    → require_ok status ret ≡ err (exception enosys)
unfolding require_ok
require_exception status ret e = rw e refl

module _ {D : Type 0} (os : Driver D) (name func : ℕ) (args : CallArgs) (w : World D) where
  -- The world with the arguments of the caller.
  abbrev pub given : World D
  given = record w { args = update_args w.args name args }

  abbrev pub the_task : Task
  the_task = call_task func name

  abbrev pub the_command : Command Task
  the_command = asked_command the_task given

  -- The world in which the pseudo thread runs the command.
  abbrev pub entered : World D
  entered = taken os [] (asked the_task given)

  call_request :
      w.ctx.seq_no < 2 ^ 64
      → func ≢ 0
      → request (call_async func name) (idle_world given)
        ≡ (next_id w.ctx.seq_no, asked the_task given)
  unfolding request
  call_request h nonzero =
      rw ((requests_lem (idle w.ctx) queue_ready func name h refl refl nonzero).0, request) refl

  -- A successful command leaves an idle context.
  success_idle :
      (p f exs r : ℕ) (s : CommandStatus) (u : World D)
      → run_task os p f exs the_command entered
        ≡ ok (finished (pos 0) (set_result r s the_command) u)
      → (idle_world u ≡ u) × (contains (next_id w.ctx.seq_no) u.ctx.rem_reqid ≡ true)
  success_idle p f exs r s u ran =
      let (m, result, (c, rem, n, main), state) =
        run_task-Done os p f exs the_command entered _ refl ran in
      let blocked : u.ctx.state ≡ state_blocked = elim state [
        | inl bad ↦ absurd cc
        | inr still ↦ still
      ] in
      (
        ap₂ (λ s q. record u { ctx = record u.ctx { state = s; comq = q } }) (sym blocked) (sym c),
        ap (contains (next_id w.ctx.seq_no)) rem ∙ listed_lem os 0 0 0 0 0 given,
      )

  failure_quiet :
      (p f exs r : ℕ) (s : CommandStatus) (u : World D)
      → run_task os p f exs the_command entered
        ≡ ok (finished (pos 1) (set_result r s the_command) u)
      → (quiet_world u ≡ u) × (contains (next_id w.ctx.seq_no) u.ctx.rem_reqid ≡ true)
  failure_quiet p f exs r s u ran =
      let (m, result, (c, rem, n, main), state) =
        run_task-Done os p f exs the_command entered _ refl ran in
      (
        ap (λ q. record u { ctx = record u.ctx { comq = q } }) (sym c),
        ap (contains (next_id w.ctx.seq_no)) rem ∙ listed_lem os 0 0 0 0 0 given,
      )

  -- What `doOnContext` makes of a run of the command that is successful.
  pub do_on_context-success :
      (p f exs rounds r : ℕ) (u : World D)
      → w.ctx.seq_no < 2 ^ 64
      → func ≢ 0
      → run_task os p f exs the_command entered
        ≡ ok (finished (pos 0) (set_result r command_ok the_command) u)
      → do_on_context (pseudo_worker os p f exs (suc (suc rounds)) name) func args (idle_world w)
        ≡ (ok r, record u { ctx = claimed (next_id w.ctx.seq_no) (idle u.ctx) })
  unfolding do_on_context pseudo_worker require_ok
  do_on_context-success p f exs rounds r u h nonzero ran =
      let (same, listed) = success_idle p f exs r command_ok u ran in
      let ran' : run_task os p f exs the_command entered
          ≡ ok (finished (pos 0) (set_result r command_ok the_command) (idle_world u)) =
        ran ∙ ap (λ v. ok (finished (pos 0) (set_result r command_ok the_command) v)) (sym same) in
      rw
        (
          call_request h nonzero,
          answer_success os p f exs rounds name the_task given u (pos 0) r command_ok ran' refl
              listed,
        )
        refl

  pub do_on_context-failure :
      (p f exs rounds r : ℕ) (u : World D)
      → w.ctx.seq_no < 2 ^ 64
      → func ≢ 0
      → run_task os p f exs the_command entered
        ≡ ok (finished (pos 1) (set_result r command_exception the_command) u)
      → (do_on_context
          (pseudo_worker os p f exs (suc (suc rounds)) name)
          func
          args
          (idle_world w)).0
        ≡ err (exception enosys)
  unfolding do_on_context pseudo_worker
  do_on_context-failure p f exs rounds r u h nonzero ran =
      let (same, listed) = failure_quiet p f exs r command_exception u ran in
      let ran' : run_task os p f exs the_command entered
          ≡ ok (finished (pos 1) (set_result r command_exception the_command) (quiet_world u)) =
        ran
        ∙ ap (λ v. ok (finished (pos 1) (set_result r command_exception the_command) v))
            (sym same) in
      let status =
        answer_failure os p f exs rounds name the_task given u (pos 1) r command_exception ran' refl
          listed in
      rw (call_request h nonzero) (require_exception _ _ status)
