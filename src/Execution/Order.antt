-- ===== src/Execution/Order.antt =====
-- The event loop as a whole: it completes the requests in their order, and loses none.
use veoffload.Base.{
  ℕ, ◌≡◌, refl, sym, ◌∙◌, ap, subst, inl, inr, true, false, Bool-cases, List, [], ◌∷◌, ◌++◌, map,
  ok, ok_inj, bind-ok, append_assoc, append-nil, map-append, arith,
}
use veoffload.Queues.Blocking.{
  Command, command_ok, command_unfinished, new_command, set_result, push, pop,
}
use veoffload.Queues.Comm.{pop_request, push_completion}
use veoffload.Context.State.{
  ContextState, Task, close_task, state_unknown, state_running, state_syscall, state_blocked,
  state_exit,
}
use veoffload.Execution.Driver.{Driver, World}
use veoffload.Execution.Exceptions.{is_zero, is_blocked}
use veoffload.Execution.Handlers.{Outcome, finished, exited, run_task}
use veoffload.Execution.Ends.{Done}
use veoffload.Execution.Tasks.{run_task-Done}
use veoffload.Execution.Loop.{Turn, goes_on, waiting, returned, ended, conclude, event_turn}
use veoffload.Execution.Turns.{
  requests, completions, taken, event_turn_run, conclude_success, conclude_failure,
}

abbrev pub ids : List (Command Task) → List ℕ
ids cs = map (λ c. c.msgid) cs

-- The handlers of `close` were made for the message ID of their command.
abbrev pub IsOwn : List (Command Task) → Type 0
IsOwn [] = Unit {0}
IsOwn (c ∷ cs) = ((id : ℕ) → c.handler ≡ close_task id → c.msgid ≡ id) × IsOwn cs

ids-unfinished :
    (cs : List (Command Task)) → ids (map (set_result 0 command_unfinished) cs) ≡ ids cs
ids-unfinished [] = refl
ids-unfinished (c ∷ cs) = ap (◌∷◌ c.msgid) (ids-unfinished cs)

pub is_blocked_iff : (s : ContextState) → is_blocked s ≡ true → s ≡ state_blocked
is_blocked_iff state_unknown e = cc
is_blocked_iff state_running e = cc
is_blocked_iff state_syscall e = cc
is_blocked_iff state_blocked e = refl
is_blocked_iff state_exit e = cc

module _ {D : Type 0} (os : Driver D) where
  abbrev pub end_world : Turn os → World D
  end_world (goes_on w) = w
  end_world (waiting w) = w
  end_world (returned w) = w
  end_world (ended w) = w

  -- All IDs that are known to the queues, the completed ones first.
  abbrev pub known : World D → List ℕ
  known w = ids (completions os w) ++ ids (requests os w)

  abbrev pub Conserved : World D → World D → Type 0
  Conserved w w' = (known w' ≡ known w) × IsOwn (requests os w')

  move_lem :
      (cs : List (Command Task)) (c : Command Task) (rs : List (Command Task))
      → ids (cs ++ c ∷ []) ++ ids rs ≡ ids cs ++ c.msgid ∷ ids rs
  move_lem cs c rs =
      rw (map-append (λ (c : Command Task). c.msgid) cs (c ∷ []))
        (append_assoc (ids cs) (c.msgid ∷ []) (ids rs))

  pub event_turn_idle :
      (p f exs : ℕ) (w : World D)
      → w.ctx.state ≡ state_blocked
      → requests os w ≡ []
      → event_turn os p f exs w ≡ ok (waiting w)
  unfolding event_turn pop_request pop
  event_turn_idle p f exs w blocked q = ground arith

  pub event_turn_left :
      (p f exs : ℕ) (w : World D)
      → is_blocked w.ctx.state ≡ false
      → event_turn os p f exs w ≡ ok (returned w)
  unfolding event_turn
  event_turn_left p f exs w other = rw (other, event_turn) refl

  -- The IDs once the command at the head was completed as `c`.
  moved_lem :
      (w : World D) (cmd c : Command Task) (rest : List (Command Task))
      → requests os w ≡ cmd ∷ rest
      → c.msgid ≡ cmd.msgid
      → ids (completions os w ++ c ∷ []) ++ ids rest ≡ known w
  moved_lem w cmd c rest q m =
      move_lem (completions os w) c rest
      ∙ ap (λ i. ids (completions os w) ++ i ∷ ids rest) m
      ∙ ap (λ rs. ids (completions os w) ++ ids rs) (sym q)

  drained_lem :
      (cs rs : List (Command Task))
      → ids (cs ++ map (set_result 0 command_unfinished) rs) ++ [] ≡ ids cs ++ ids rs
  drained_lem cs rs =
      append-nil (ids (cs ++ map (set_result 0 command_unfinished) rs))
      ∙ map-append (λ (c : Command Task). c.msgid) cs (map (set_result 0 command_unfinished) rs)
      ∙ ap (λ is. ids cs ++ is) (ids-unfinished rs)

  conclude-Conserved :
      (w : World D) (cmd : Command Task) (rest : List (Command Task)) (o : Outcome os) (t : Turn os)
      → requests os w ≡ cmd ∷ rest
      → IsOwn (cmd ∷ rest)
      → Done os cmd (taken os rest w) o
      → conclude os o ≡ ok t
      → Conserved w (end_world t)
  unfolding conclude push_completion push
  conclude-Conserved w cmd rest (finished rv cmd' v) t q own (m, result, (c, r, n, main), state) e =
      elim (Bool-cases (is_zero rv)) [
        | inl z ↦
            subst (λ t. Conserved w (end_world t))
              (ok_inj (sym (conclude_success os rv cmd' v z) ∙ e))
              (
                ap (λ k. ids (k.completion.queue ++ cmd' ∷ []) ++ ids k.request.queue) c
                    ∙ moved_lem w cmd cmd' rest q m,
                subst (λ k. IsOwn k.request.queue) (sym c) own.1,
              )
        | inr z ↦
            subst (λ t. Conserved w (end_world t))
              (ok_inj (sym (conclude_failure os rv cmd' v z) ∙ e))
              (
                drained_lem (completions os v ++ cmd' ∷ []) (requests os v)
                    ∙ ap (λ k. ids (k.completion.queue ++ cmd' ∷ []) ++ ids k.request.queue) c
                    ∙ moved_lem w cmd cmd' rest q m,
                tt,
              )
      ]
  conclude-Conserved w cmd rest (exited v) t q own (id, h, c) e =
      subst (λ t. Conserved w (end_world t)) (ok_inj e)
        (
          ap (λ k. ids k.comq.completion.queue ++ ids k.comq.request.queue) c
              ∙ moved_lem w cmd (set_result 0 command_ok (new_command id (close_task id))) rest q
                  (sym (own.0 id h)),
          subst (λ k. IsOwn k.comq.request.queue) (sym c) own.1,
        )

  blocked-Conserved :
      (p f exs : ℕ) (w : World D) (t : Turn os) (rs : List (Command Task))
      → w.ctx.state ≡ state_blocked
      → requests os w ≡ rs
      → IsOwn rs
      → event_turn os p f exs w ≡ ok t
      → Conserved w (end_world t)
  blocked-Conserved p f exs w t [] blocked q own e =
      subst (λ t. Conserved w (end_world t))
        (ok_inj (sym (event_turn_idle p f exs w blocked q) ∙ e)) (refl, subst IsOwn (sym q) own)
  blocked-Conserved p f exs w t (cmd ∷ rest) blocked q own e =
      let (o, ran, last) =
        bind-ok (run_task os p f exs cmd (taken os rest w)) (conclude os) t
          (sym (event_turn_run os p f exs w cmd rest blocked q) ∙ e) in
      conclude-Conserved w cmd rest o t q own
        (run_task-Done os p f exs cmd (taken os rest w) o blocked ran) last

  pub event_turn-Conserved :
      (p f exs : ℕ) (w : World D) (t : Turn os)
      → IsOwn (requests os w)
      → event_turn os p f exs w ≡ ok t
      → Conserved w (end_world t)
  event_turn-Conserved p f exs w t own e = elim (Bool-cases (is_blocked w.ctx.state)) [
    | inl b ↦
        blocked-Conserved p f exs w t (requests os w) (is_blocked_iff w.ctx.state b) refl own e
    | inr b ↦
        subst (λ t. Conserved w (end_world t)) (ok_inj (sym (event_turn_left p f exs w b) ∙ e))
          (refl, own)
  ]
