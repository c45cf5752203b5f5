-- ===== src/Execution/Turns.antt =====
-- A round of the event loop, by the end of its command.
use veoffload.Base.{
  ℕ, ◌≡◌, refl, ◌∙◌, ap, inl, inr, true, false, some, List, [], ◌∷◌, ◌++◌, map, ℤ, ok, ◌>>=◌,
}
use veoffload.Queues.Blocking.{
  Command, CommandStatus, command_unfinished, set_result, queue_closed, push, pop, set_status,
}
use veoffload.Queues.Comm.{
  CommQueue, pop_request, push_completion, push_request, set_request_status,
}
use veoffload.Queues.Drain.{unfinished, set_completion_lem}
use veoffload.Context.State.{ContextState, Task, state_blocked, state_exit}
use veoffload.Execution.Driver.{Driver, World}
use veoffload.Execution.Exceptions.{is_zero, is_blocked}
use veoffload.Execution.Handlers.{finished, run_task}
use veoffload.Execution.Tasks.{run_task-Done}
use veoffload.Execution.Loop.{goes_on, returned, with_comq, stop, conclude, event_turn}

pub has_result :
    (cmd cmd' : Command Task)
    → ((r : ℕ) × (s : CommandStatus) × (cmd' ≡ set_result r s cmd))
    → (r : ℕ) × (s : CommandStatus) × (cmd'.result ≡ some (r, s))
has_result cmd cmd' (r, s, e) = (r, s, ap (λ c. c.result) e)

module _ {D : Type 0} (os : Driver D) where
  abbrev pub requests : World D → List (Command Task)
  requests w = w.ctx.comq.request.queue

  abbrev pub completions : World D → List (Command Task)
  completions w = w.ctx.comq.completion.queue

  -- The world in which the command runs: it was taken from the request queue.
  abbrev pub taken : List (Command Task) → World D → World D
  taken rest w =
      with_comq os (record w.ctx.comq { request = record w.ctx.comq.request { queue = rest } }) w

  pub pop_request_lem :
      (q : CommQueue Task) (cmd : Command Task) (rest : List (Command Task))
      → q.request.queue ≡ cmd ∷ rest
      → pop_request q ≡ some (cmd, record q { request = record q.request { queue = rest } })
  unfolding pop_request pop
  pop_request_lem q cmd rest e = rw (e, pop_request, pop) refl

  is_blocked_lem : (s : ContextState) → s ≡ state_blocked → is_blocked s ≡ true
  is_blocked_lem s e = ap is_blocked e

  pub event_turn_run :
      (p f exs : ℕ) (w : World D) (cmd : Command Task) (rest : List (Command Task))
      → w.ctx.state ≡ state_blocked
      → requests w ≡ cmd ∷ rest
      → event_turn os p f exs w ≡ (run_task os p f exs cmd (taken rest w) >>= conclude os)
  unfolding event_turn
  event_turn_run p f exs w cmd rest blocked q =
      rw (is_blocked_lem w.ctx.state blocked, pop_request_lem w.ctx.comq cmd rest q, event_turn)
        refl

  -- The world after a command that was successful.
  abbrev pub succeeded : Command Task → World D → World D
  succeeded cmd v =
      with_comq os
        (record v.ctx.comq {
          completion = record v.ctx.comq.completion { queue = completions v ++ cmd ∷ [] };
        })
        v

  -- The world after a command that failed.
  abbrev pub failed : Command Task → World D → World D
  failed cmd v = record v {
    ctx = record v.ctx {
      state = state_exit;
      comq = record {
        request = record { queue = []; status = queue_closed };
        completion = record v.ctx.comq.completion {
          queue = (completions v ++ cmd ∷ []) ++ map unfinished (requests v);
        };
      };
    };
  }

  pub conclude_success :
      (rv : ℤ) (cmd : Command Task) (v : World D)
      → is_zero rv ≡ true
      → conclude os (finished rv cmd v) ≡ ok (goes_on (succeeded cmd v))
  unfolding conclude push_completion push
  conclude_success rv cmd v z = rw (z, conclude) refl

  pub conclude_failure :
      (rv : ℤ) (cmd : Command Task) (v : World D)
      → is_zero rv ≡ false
      → conclude os (finished rv cmd v) ≡ ok (returned (failed cmd v))
  unfolding conclude stop push_completion push set_request_status set_status
  conclude_failure rv cmd v z =
      rw
        (
          z,
          conclude,
          stop,
          set_completion_lem (push_completion cmd (set_request_status queue_closed v.ctx.comq)),
        )
        refl

  -- A command at the head of the request queue that runs and returns 0 while the context is BLOCKED:
  -- the loop goes on, BLOCKED. The command is the last completion, with a result and its own message
  -- ID; the other requests and completions, the status of the request queue and the outstanding IDs are
  -- as they were.
  pub event_turn_success :
      (p f exs : ℕ) (w v : World D) (cmd cmd' : Command Task) (rest : List (Command Task)) (rv : ℤ)
      → w.ctx.state ≡ state_blocked
      → requests w ≡ cmd ∷ rest
      → run_task os p f exs cmd (taken rest w) ≡ ok (finished rv cmd' v)
      → is_zero rv ≡ true
      → (w' : World D) × (event_turn os p f exs w ≡ ok (goes_on w'))
        × (w'.ctx.state ≡ state_blocked)
        × (requests w' ≡ rest)
        × (completions w' ≡ completions w ++ cmd' ∷ [])
        × (w'.ctx.comq.request.status ≡ w.ctx.comq.request.status)
        × (w'.ctx.rem_reqid ≡ w.ctx.rem_reqid)
        × (cmd'.msgid ≡ cmd.msgid)
        × ((r : ℕ) × (s : CommandStatus) × (cmd'.result ≡ some (r, s)))
  event_turn_success p f exs w v cmd cmd' rest rv blocked q ran z =
      let (m, result, (c, r, n, main), state) =
        run_task-Done os p f exs cmd (taken rest w) _ blocked ran in
      let still : v.ctx.state ≡ state_blocked = elim state [
        | inl failed ↦ absurd cc
        | inr still ↦ still
      ] in
      (
        succeeded cmd' v,
        event_turn_run p f exs w cmd rest blocked q ∙ rw ran (conclude_success rv cmd' v z),
        still,
        ap (λ k. k.request.queue) c,
        ap (λ k. k.completion.queue ++ cmd' ∷ []) c,
        ap (λ k. k.request.status) c,
        r,
        m,
        has_result cmd cmd' result,
      )

  -- A command at the head of the request queue that runs and returns another status while the context
  -- is BLOCKED: the loop returns with the state EXIT. No request is left and the request queue is
  -- closed, so that every later `pushRequest` is refused. The command, with a result and its own
  -- message ID, is completed first; after it every other request, in order, with the status
  -- `VEO_COMMAND_UNFINISHED`.
  pub event_turn_failure :
      (p f exs : ℕ) (w v : World D) (cmd cmd' : Command Task) (rest : List (Command Task)) (rv : ℤ)
      → w.ctx.state ≡ state_blocked
      → requests w ≡ cmd ∷ rest
      → run_task os p f exs cmd (taken rest w) ≡ ok (finished rv cmd' v)
      → is_zero rv ≡ false
      → (w' : World D) × (event_turn os p f exs w ≡ ok (returned w'))
        × (w'.ctx.state ≡ state_exit)
        × (requests w' ≡ [])
        × ((c : Command Task) → push_request c w'.ctx.comq ≡ (1, w'.ctx.comq))
        × (completions w'
            ≡ (completions w ++ cmd' ∷ []) ++ map (set_result 0 command_unfinished) rest)
        × (cmd'.msgid ≡ cmd.msgid)
        × ((r : ℕ) × (s : CommandStatus) × (cmd'.result ≡ some (r, s)))
  unfolding push_request
  event_turn_failure p f exs w v cmd cmd' rest rv blocked q ran z =
      let (m, result, (c, r, n, main), state) =
        run_task-Done os p f exs cmd (taken rest w) _ blocked ran in
      (
        failed cmd' v,
        event_turn_run p f exs w cmd rest blocked q ∙ rw ran (conclude_failure rv cmd' v z),
        refl,
        refl,
        λ c. refl,
        ap (λ k. (k.completion.queue ++ cmd' ∷ []) ++ map unfinished k.request.queue) c,
        m,
        has_result cmd cmd' result,
      )
