-- ===== src/Context/Results.antt =====
-- `callPeekResult` and `callWaitResult`.
use veoffload.Base.{ℕ, Option, none, some, ◌==◌, if◌then◌else◌, Result, ok, ◌>>=◌, int32}
use veoffload.Queues.Blocking.{
  Command, CommandStatus, command_error, command_unfinished, get_result,
}
use veoffload.Queues.Comm.{peek_completion, wait_completion}
use veoffload.Context.State.{Context, Task, contains, erase}

-- What a call gives: the status returned, what is written to `*retp` if anything, and the context; or
-- it waits for a completion.
pub data Answer : Type 0 where
  answered : CommandStatus → Option ℕ → Context → Answer
  waits : Context → Answer

-- A completed command answers with its result, which must have been set.
unfoldable pub answer : Command Task → Context → Result Answer
answer c ctx = do r ← get_result c; ok (answered (r.1) (some (r.0)) ctx)

unfoldable pub call_peek_result : ℕ → Context → Result Answer
unfolding answer
call_peek_result id ctx =
    if contains id ctx.rem_reqid
    then (elim (peek_completion id ctx.comq) [
      | none ↦ ok (answered command_unfinished none ctx)
      | some (c, comq) ↦
          if (erase id ctx.rem_reqid).0 == 0
          then ok (answered command_error none (record ctx { comq = comq }))
          else answer c (record ctx { comq = comq; rem_reqid = (erase id ctx.rem_reqid).1 })
    ])
    else ok (answered command_error none ctx)

-- `waitCompletion` and what follows it in `callWaitResult`.
unfoldable pub finish_wait : ℕ → Context → Result Answer
unfolding answer
finish_wait id ctx = elim (wait_completion id ctx.comq) [
  | none ↦ ok (waits ctx)
  | some (c, comq) ↦ answer c (record ctx { comq = comq })
]

-- `callWaitResult` gives up its claim on the ID before it waits.
unfoldable pub call_wait_result : ℕ → Context → Result Answer
unfolding finish_wait
call_wait_result id ctx =
    if contains id ctx.rem_reqid
    then (if (erase id ctx.rem_reqid).0 == 0
        then ok (answered command_error none ctx)
        else finish_wait id (record ctx { rem_reqid = (erase id ctx.rem_reqid).1 }))
    else ok (answered command_error none ctx)

-- `close` from `waitCompletion` on: `none` where it waits, else the result, converted to `int`.
unfoldable pub finish_close : ℕ → Context → Result (Option (ℕ × Context))
finish_close id ctx = elim (wait_completion id ctx.comq) [
  | none ↦ ok none
  | some (c, comq) ↦ (do r ← get_result c; ok (some (int32 (r.0), record ctx { comq = comq })))
]
