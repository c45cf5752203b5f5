-- ===== src/Api/Exited.antt =====
-- The functions on a process whose worker has exited: its context is in the state EXIT.
use veoffload.Base.{
  ℕ, zero, suc, ◌≡◌, refl, ap, false, none, some, ltb, length, pos, negsuc, exception, assertion,
  Option, Memory, if◌then◌else◌, ◌==◌, arith,
}
use veoffload.Steps.{give}
use veoffload.Steps.Keeps.{FailsWith, Gives, bind-FailsWith, catching-Gives, catching-FailsWith}
use veoffload.Queues.Blocking.{command_error}
use veoffload.Context.State.{Context, state_exit, contains, request_id_invalid}
use veoffload.Context.Requests.{call_async, call_open_context, async_read_mem, async_write_mem}
use veoffload.Context.Results.{call_wait_result}
use veoffload.Execution.Driver.{Driver, World}
use veoffload.Execution.Exceptions.{is_blocked}
use veoffload.Execution.Loop.{event_loop}
use veoffload.Execution.Order.{event_turn_left}
use veoffload.Proc.Worker.{Worker, VhAccess, enosys}
use veoffload.Proc.Handle.{
  ProcHandle, Text, find_symbol, alloc_buff, free_buff, read_mem, write_mem, veo_symname_len_max,
}
use veoffload.Proc.Library.{load_library}
use veoffload.Proc.Open.{open_context}
use veoffload.Composed.Pseudo.{request, loop_world, picked, wait_result, with_args, pseudo_worker}
use veoffload.Api.Reply.{plain, with_errno, reply}
use veoffload.Api.Process.{
  veo_load_library, veo_get_sym, get_sym_step, veo_alloc_mem, veo_free_mem, veo_read_mem,
  veo_write_mem, minus_one,
}
use veoffload.Api.Contexts.{veo_context_open, check_pointer}
use veoffload.Api.Failure.{
  Refuses, load_library-failed, get_sym-failed, open_context-failed, alloc_buff-failed,
  free_buff-failed, read_mem-failed, write_mem-failed,
}

-- The context, the memory of the VH process, and the VE.
abbrev pub view : {D : Type 0} → World D → Context × Memory × D
view w = (w.ctx, w.vh, w.ve)

refused : Context → Option (ℕ × Context)
refused ctx = some (request_id_invalid, ctx)

-- Once the context has exited, a request is refused before it takes an ID.
requests_refused :
    (ctx : Context)
    → ctx.state ≡ state_exit
    → ((addr args : ℕ) → call_async addr args ctx ≡ refused ctx)
      × ((addr args : ℕ) → call_open_context addr args ctx ≡ refused ctx)
      × ((dst src size : ℕ) → async_read_mem dst src size ctx ≡ refused ctx)
      × ((dst src size : ℕ) → async_write_mem dst src size ctx ≡ refused ctx)
unfolding call_async call_open_context async_read_mem async_write_mem refused
requests_refused ctx e = (
  λ addr args. ground arith,
  λ addr args. rw (e, call_open_context),
  λ dst src size. rw (e, async_read_mem),
  λ dst src size. rw (e, async_write_mem),
)

module _ {D : Type 0} (os : Driver D) (p f exs rounds name : ℕ) where
  loop_exited :
      (n : ℕ) (w : World D)
      → w.ctx.state ≡ state_exit
      → loop_world os p f exs n name w (event_loop os p f exs n w) ≡ w
  unfolding loop_world event_loop
  loop_exited zero w gone = refl
  loop_exited (suc n) w gone = rw (event_turn_left os p f exs w (ap is_blocked gone)) refl

  -- The event loop has returned, and there is no claim on `VEO_REQUEST_ID_INVALID`.
  wait_exited :
      (w : World D)
      → w.ctx.state ≡ state_exit
      → contains request_id_invalid w.ctx.rem_reqid ≡ false
      → wait_result os p f exs rounds name request_id_invalid w ≡ (command_error, none, w)
  unfolding wait_result picked call_wait_result
  wait_exited w gone free = rw (loop_exited rounds w gone, free) refl

  abbrev worker : Worker (World D)
  worker = pseudo_worker os p f exs rounds name

  refused_answer :
      (g : Context → Option (ℕ × Context)) (w : World D)
      → w.ctx.state ≡ state_exit
      → contains request_id_invalid w.ctx.rem_reqid ≡ false
      → g w.ctx ≡ refused w.ctx
      → worker.call_wait_result (request g w).0 (request g w).1 ≡ (command_error, none, w)
  unfolding request pseudo_worker refused
  refused_answer g w gone free e = rw (e, request) (wait_exited w gone free)

  worker-Refuses :
      (w : World D)
      → w.ctx.state ≡ state_exit
      → contains request_id_invalid w.ctx.rem_reqid ≡ false
      → Refuses worker view w
  unfolding pseudo_worker
  worker-Refuses w gone free =
      let (calls, opens, reads, writes) = requests_refused w.ctx gone in
      (
        λ func args.
            rw
              (refused_answer (call_async func name) (with_args os p f exs rounds name args w) gone
                free (calls func name))
              ((λ e. cc), refl),
        λ func args.
            rw
              (refused_answer (call_open_context func name)
                (with_args os p f exs rounds name args w) gone free (opens func name))
              ((λ e. cc), refl),
        λ dst src size.
            rw (refused_answer (async_read_mem dst src size) w gone free (reads dst src size))
              ((λ e. cc), refl),
        λ dst src size.
            rw (refused_answer (async_write_mem dst src size) w gone free (writes dst src size))
              ((λ e. cc), refl),
      )

  -- Where the worker of a process has exited, the C functions on the process change neither its
  -- context, nor the memory of the VH process, nor the VE. For names of an admissible length, and a
  -- symbol that is not known, `veo_load_library`, `veo_get_sym` and `veo_context_open` give zero and
  -- set errno to ENOSYS; `veo_alloc_mem` gives -2 and stores nothing; `veo_free_mem` gives -1;
  -- `veo_read_mem` and `veo_write_mem` give nothing, since the process aborts.
  -- `VEO_REQUEST_ID_INVALID` is taken not to be an outstanding ID, which `issueRequestID` never makes it.
  pub worker_exited :
      (vh : VhAccess (World D)) (version4 ret_buff err_msg tid_counter libhdl dst src size : ℕ)
      (symbol : Text) (h : ProcHandle) (w : World D)
      → w.ctx.state ≡ state_exit
      → contains request_id_invalid w.ctx.rem_reqid ≡ false
      → ltb veo_symname_len_max (length symbol.chars) ≡ false
      → find_symbol (libhdl, symbol.chars) h.sym_name ≡ none
      → Gives view
          (view w)
          (with_errno 0 enosys)
          (veo_load_library worker vh version4 ret_buff err_msg symbol h w)
        × Gives {F = ProcHandle × (Context × Memory × D)}
            (λ q. (q.0, view (q.1)))
            (h, view w)
            (with_errno 0 enosys)
            (veo_get_sym worker libhdl symbol (h, w))
        × Gives view (view w) (with_errno 0 enosys) (veo_context_open worker tid_counter h w)
        × Gives view (view w) (plain (negsuc 1, none)) (veo_alloc_mem worker size h w)
        × Gives view (view w) (plain (negsuc 0)) (veo_free_mem worker dst h w)
        × FailsWith view (view w) assertion (veo_read_mem worker dst src size w)
        × FailsWith view (view w) assertion (veo_write_mem worker dst src size w)
  unfolding veo_load_library veo_get_sym veo_context_open veo_alloc_mem veo_free_mem veo_read_mem
      veo_write_mem reply
  worker_exited vh version4 ret_buff err_msg tid_counter libhdl dst src size symbol h w gone free
        short unknown =
      let no = worker-Refuses w gone free in
      let e = exception enosys in
      (
        catching-Gives view (view w) (λ e. with_errno 0 e) _ w enosys
            (bind-FailsWith view (view w)
              (load_library worker vh version4 ret_buff err_msg symbol h) (λ v. give (plain v)) w e
              (load_library-failed worker view w no vh version4 ret_buff err_msg symbol h short)),
        catching-Gives (λ q. (q.0, view (q.1))) (h, view w) (λ e. with_errno 0 e) _ (h, w) enosys
            (bind-FailsWith (λ q. (q.0, view (q.1))) (h, view w) (get_sym_step worker libhdl symbol)
              (λ v. give (plain v)) (h, w) e
              (get_sym-failed worker view w no libhdl symbol h short unknown)),
        catching-Gives view (view w) (λ e. with_errno 0 e) _ w enosys
            (bind-FailsWith view (view w) (open_context worker tid_counter h)
              (λ ctx. give (check_pointer ctx)) w e
              (open_context-failed worker view w no tid_counter h)),
        catching-Gives view (view w) (λ e. plain (negsuc 1, none)) _ w enosys
            (bind-FailsWith view (view w) (alloc_buff worker size h)
              (λ addr. give (plain (if addr == 0 then negsuc 0 else pos 0, some addr))) w e
              (alloc_buff-failed worker view w no size h)),
        catching-Gives view (view w) (λ e. plain (negsuc 0)) _ w enosys
            (bind-FailsWith view (view w) (free_buff worker dst h) (λ v. give (plain (pos 0))) w e
              (free_buff-failed worker view w no dst h)),
        catching-FailsWith view (view w) (λ e. give (plain minus_one)) _ w
            (bind-FailsWith view (view w) (read_mem worker dst src size) (λ v. give (plain v)) w
              assertion (read_mem-failed worker view w no dst src size)),
        catching-FailsWith view (view w) (λ e. give (plain minus_one)) _ w
            (bind-FailsWith view (view w) (write_mem worker dst src size) (λ v. give (plain v)) w
              assertion (write_mem-failed worker view w no dst src size)),
      )
