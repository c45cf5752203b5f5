-- ===== src/Composed/Pseudo.antt =====
-- The worker of a process handle, made of a context and its pseudo thread: the pseudo thread takes
-- the requests while the client waits for a result.
use veoffload.Base.{ℕ, Option, none, some, Result, ok, err}
use veoffload.Args.Setup.{CallArgs}
use veoffload.Queues.Blocking.{CommandStatus, command_unfinished}
use veoffload.Context.State.{Context, request_id_invalid}
use veoffload.Context.Requests.{call_async, call_open_context, async_read_mem, async_write_mem}
use veoffload.Context.Results.{Answer, answered, waits, call_wait_result}
use veoffload.Execution.Driver.{Driver, World}
use veoffload.Execution.Calls.{update_args}
use veoffload.Execution.Loop.{Turn, event_loop}
use veoffload.Execution.Order.{end_world}
use veoffload.Proc.Worker.{Worker}

module _ {D : Type 0} where
  -- A request on the client's side.
  unfoldable pub request : (Context → Option (ℕ × Context)) → World D → ℕ × World D
  request f w = elim (f w.ctx) [
    | none ↦ (request_id_invalid, w)
    | some (id, ctx) ↦ (id, record w { ctx = ctx })
  ]

module _ {D : Type 0} (os : Driver D) (patience fuel exs rounds name : ℕ) where
  -- The arguments of the caller are an object with a name.
  abbrev pub with_args : CallArgs → World D → World D
  with_args args w = record w { args = update_args w.args name args }

  -- Where the pseudo thread stops for a fault, the world stays.
  unfoldable pub loop_world : World D → Result (Turn os) → World D
  loop_world w (ok t) = end_world os t
  loop_world w (err fault) = w

  -- A call that would wait for ever, or stops for a fault, has no status in the source; the status
  -- here stands for that.
  unfoldable pub picked : World D → Result Answer → CommandStatus × Option ℕ × World D
  picked w (ok (answered status ret ctx)) = (status, ret, record w { ctx = ctx })
  picked w (ok (waits ctx)) = (command_unfinished, none, record w { ctx = ctx })
  picked w (err fault) = (command_unfinished, none, w)

  unfoldable pub wait_result : ℕ → World D → CommandStatus × Option ℕ × World D
  wait_result id w =
      let w' = loop_world w (event_loop os patience fuel exs rounds w) in
      picked w' (call_wait_result id w'.ctx)

  unfoldable pub pseudo_worker : Worker (World D)
  unfolding request wait_result
  pseudo_worker = record {
    call_async = λ func args w. request (call_async func name) (with_args args w);
    call_open_context = λ func args w. request (call_open_context func name) (with_args args w);
    async_read_mem = λ dst src size w. request (async_read_mem dst src size) w;
    async_write_mem = λ dst src size w. request (async_write_mem dst src size) w;
    call_wait_result = λ id w. wait_result id w;
  }
