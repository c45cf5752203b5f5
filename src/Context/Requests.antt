-- ===== src/Context/Requests.antt =====
-- `callAsync`, `callVHAsync`, `_callOpenContext`, `asyncReadMem`, `asyncWriteMem` and `close`, as far
-- as the client's thread runs them. Nothing comes between the steps of one call here; `Threads` has the
-- interleavings. `none` means that the loop of `issueRequestID` ran out of fuel.
use veoffload.Base.{ℕ, ◌||◌, Option, none, some, ◌==◌, if◌then◌else◌}
use veoffload.Queues.Blocking.{new_command}
use veoffload.Queues.Comm.{push_request}
use veoffload.Context.State.{
  Context, Task, call_task, vh_task, read_task, write_task, open_task, close_task, is_exit,
  request_id_invalid, issue_request_id,
}

-- `if (pushRequest(req)) return VEO_REQUEST_ID_INVALID; return id`.
unfoldable pub push_or_refuse : Task → ℕ → Context → ℕ × Context
push_or_refuse task id ctx =
    let pushed = push_request (new_command id task) ctx.comq in
    (if pushed.0 == 0 then id else request_id_invalid, record ctx { comq = pushed.1 })

-- The part that the requests share: issue an ID, push the command.
unfoldable pub submit : Task → Context → Option (ℕ × Context)
unfolding push_or_refuse
submit task ctx = elim (issue_request_id ctx) [
  | none ↦ none
  | some (id, ctx') ↦ some (push_or_refuse task id ctx')
]

unfoldable pub call_async : ℕ → ℕ → Context → Option (ℕ × Context)
unfolding submit
call_async addr args ctx =
    if addr == 0 || is_exit ctx.state
    then some (request_id_invalid, ctx)
    else submit (call_task addr args) ctx

-- The status of `pushRequest` is dropped here.
unfoldable pub push_anyway : Task → ℕ → Context → ℕ × Context
push_anyway task id ctx =
    (id, record ctx { comq = (push_request (new_command id task) ctx.comq).1 })

unfoldable pub call_vh_async : ℕ → ℕ → Context → Option (ℕ × Context)
unfolding push_anyway
call_vh_async func arg ctx =
    if func == 0 || is_exit ctx.state
    then some (request_id_invalid, ctx)
    else (elim (issue_request_id ctx) [
      | none ↦ none
      | some (id, ctx') ↦ some (push_anyway (vh_task func arg) id ctx')
    ])

unfoldable pub call_open_context : ℕ → ℕ → Context → Option (ℕ × Context)
unfolding submit
call_open_context addr args ctx =
    if is_exit ctx.state then some (request_id_invalid, ctx) else submit (open_task addr args) ctx

unfoldable pub async_read_mem : ℕ → ℕ → ℕ → Context → Option (ℕ × Context)
unfolding submit
async_read_mem dst src size ctx =
    if is_exit ctx.state
    then some (request_id_invalid, ctx)
    else submit (read_task dst src size) ctx

unfoldable pub async_write_mem : ℕ → ℕ → ℕ → Context → Option (ℕ × Context)
unfolding submit
async_write_mem dst src size ctx =
    if is_exit ctx.state
    then some (request_id_invalid, ctx)
    else submit (write_task dst src size) ctx

-- `close` up to `waitCompletion`: `inl` where it returns zero at once, else the ID to wait for.
unfoldable pub begin_close : Context → Option (Option ℕ × Context)
begin_close ctx = if is_exit ctx.state then some (none, ctx) else (elim (issue_request_id ctx) [
  | none ↦ none
  | some (id, ctx') ↦
      let (waited, ctx'') = push_or_refuse (close_task id) id ctx' in some (some waited, ctx'')
])
