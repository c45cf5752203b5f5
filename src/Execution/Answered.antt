-- ===== src/Execution/Answered.antt =====
-- Every command in the completion queue has a result, and no request is left behind.
use veoffload.Base.{
  ℕ, ◌≡◌, refl, sym, ◌∙◌, ap, subst, inl, inr, Bool, true, false, Bool-cases, List, [], ◌∷◌, ◌++◌,
  map, some, ok, ok_inj, bind-ok,
}
use veoffload.Queues.Blocking.{Command, CommandStatus, command_unfinished, set_result}
use veoffload.Context.State.{
  Task, call_task, vh_task, read_task, write_task, open_task, close_task, state_blocked,
}
use veoffload.Execution.Driver.{Driver, World}
use veoffload.Execution.Exceptions.{is_zero}
use veoffload.Execution.Handlers.{Outcome, finished, exited, run_task}
use veoffload.Execution.Ends.{Done}
use veoffload.Execution.Tasks.{run_task-Done}
use veoffload.Execution.Loop.{Turn, goes_on, waiting, returned, ended, conclude, event_turn}
use veoffload.Execution.Turns.{
  requests, completions, taken, event_turn_run, conclude_success, conclude_failure, has_result,
}
use veoffload.Execution.Order.{event_turn_idle}

abbrev pub is_close : Task → Bool
is_close (call_task addr args) = false
is_close (vh_task func arg) = false
is_close (read_task dst src size) = false
is_close (write_task dst src size) = false
is_close (open_task addr args) = false
is_close (close_task id) = true

-- None of the commands is that of `close`.
abbrev pub NoClose : List (Command Task) → Type 0
NoClose [] = Unit {0}
NoClose (c ∷ cs) = (is_close c.handler ≡ false) × NoClose cs

abbrev pub HasResult : Command Task → Type 0
HasResult c = (r : ℕ) × (s : CommandStatus) × (c.result ≡ some (r, s))

abbrev pub AllResults : List (Command Task) → Type 0
AllResults [] = Unit {0}
AllResults (c ∷ cs) = HasResult c × AllResults cs

append-AllResults :
    (cs ds : List (Command Task)) → AllResults cs → AllResults ds → AllResults (cs ++ ds)
append-AllResults [] ds h k = k
append-AllResults (c ∷ cs) ds h k = (h.0, append-AllResults cs ds h.1 k)

unfinished-AllResults :
    (cs : List (Command Task)) → AllResults (map (set_result 0 command_unfinished) cs)
unfinished-AllResults [] = tt
unfinished-AllResults (c ∷ cs) = ((0, command_unfinished, refl), unfinished-AllResults cs)

module _ {D : Type 0} (os : Driver D) where
  -- What a turn of the loop may leave, with the outstanding IDs `ids`: the loop goes on with the rest,
  -- or has taken every request.
  abbrev pub Leaves : List ℕ → Turn os → Type 0
  Leaves ids (goes_on w) =
      (w.ctx.state ≡ state_blocked)
      × AllResults (completions os w)
      × NoClose (requests os w)
      × (w.ctx.rem_reqid ≡ ids)
  Leaves ids (waiting w) =
      (requests os w ≡ []) × AllResults (completions os w) × (w.ctx.rem_reqid ≡ ids)
  Leaves ids (returned w) =
      (requests os w ≡ []) × AllResults (completions os w) × (w.ctx.rem_reqid ≡ ids)
  Leaves ids (ended w) = true ≡ false

  conclude-Leaves :
      (w : World D) (cmd : Command Task) (rest : List (Command Task)) (o : Outcome os) (t : Turn os)
      → AllResults (completions os w)
      → NoClose (cmd ∷ rest)
      → Done os cmd (taken os rest w) o
      → conclude os o ≡ ok t
      → Leaves w.ctx.rem_reqid t
  unfolding conclude
  conclude-Leaves w cmd rest (finished rv cmd' v) t all none (m, result, (c, r, n, main), state) e =
      let before : AllResults (completions os v) =
        subst (λ k. AllResults k.completion.queue) (sym c) all in
      let after =
        append-AllResults (completions os v) (cmd' ∷ []) before (has_result cmd cmd' result, tt) in
      elim (Bool-cases (is_zero rv)) [
        | inl z ↦
            subst (Leaves w.ctx.rem_reqid) (ok_inj (sym (conclude_success os rv cmd' v z) ∙ e)) (
              elim state [ inl bad ↦ absurd cc | inr still ↦ still ],
              after,
              subst (λ k. NoClose k.request.queue) (sym c) none.1,
              r,
            )
        | inr z ↦
            subst (Leaves w.ctx.rem_reqid) (ok_inj (sym (conclude_failure os rv cmd' v z) ∙ e)) (
              refl,
              append-AllResults (completions os v ++ cmd' ∷ [])
                  (map (set_result 0 command_unfinished) (requests os v)) after
                  (unfinished-AllResults (requests os v)),
              r,
            )
      ]
  conclude-Leaves w cmd rest (exited v) t all none (id, h, c) e =
      absurd (let b : true ≡ false = sym (ap is_close h) ∙ none.0 in cc)

  pub event_turn-Leaves :
      (p f exs : ℕ) (w : World D) (t : Turn os) (rs : List (Command Task))
      → w.ctx.state ≡ state_blocked
      → requests os w ≡ rs
      → AllResults (completions os w)
      → NoClose rs
      → event_turn os p f exs w ≡ ok t
      → Leaves w.ctx.rem_reqid t
  event_turn-Leaves p f exs w t [] blocked q all none e =
      subst (Leaves w.ctx.rem_reqid) (ok_inj (sym (event_turn_idle os p f exs w blocked q) ∙ e))
        (q, all, refl)
  event_turn-Leaves p f exs w t (cmd ∷ rest) blocked q all none e =
      let (o, ran, last) =
        bind-ok (run_task os p f exs cmd (taken os rest w)) (conclude os) t
          (sym (event_turn_run os p f exs w cmd rest blocked q) ∙ e) in
      conclude-Leaves w cmd rest o t all none
        (run_task-Done os p f exs cmd (taken os rest w) o blocked ran) last
