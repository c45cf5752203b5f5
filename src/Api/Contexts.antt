-- ===== src/Api/Contexts.antt =====
-- The functions of the C API on a context: `veo_context_open`, `veo_context_open_with_attr`,
-- `veo_context_close`, `veo_get_context_state`, the requests, and their results.
use veoffload.Base.{
  ℕ, ◌-◌, ◌^◌, Bool, false, ltb, ◌==◌, if◌then◌else◌, List, Option, none, some, Result, ok, err,
  out_of_fuel, int32,
}
use veoffload.Steps.{Step, give, ◌>>=◌, catching}
use veoffload.Queues.Blocking.{CommandStatus}
use veoffload.Context.State.{
  Context, state_unknown, state_running, state_syscall, state_blocked, state_exit,
  request_id_invalid,
}
use veoffload.Context.Requests.{call_async, call_vh_async, async_read_mem, async_write_mem}
use veoffload.Context.Results.{Answer, answered, waits, call_peek_result, call_wait_result}
use veoffload.Attr.Object.{ThreadContextAttr, einval}
use veoffload.Proc.Worker.{Worker, VhAccess, enosys}
use veoffload.Proc.Handle.{ProcHandle, Text}
use veoffload.Proc.Library.{is_negative64}
use veoffload.Proc.Open.{open_context, open_context_with_attr}
use veoffload.Api.Reply.{Reply, plain, with_errno, reply}
use veoffload.Api.Process.{get_sym_step}

-- `getState` as the number of the enumeration.
unfoldable pub veo_get_context_state : Context → ℕ
veo_get_context_state ctx = elim ctx.state [
  | state_unknown ↦ 0
  | state_running ↦ 1
  | state_syscall ↦ 2
  | state_blocked ↦ 3
  | state_exit ↦ 4
]

-- A pointer that stands for a negative number is an error: `errno = -rv; return NULL`.
unfoldable pub check_pointer : ℕ → Reply ℕ
check_pointer ctx = if is_negative64 ctx then with_errno 0 (int32 (2 ^ 64 - ctx)) else plain ctx

module _ {S : Type 0} (worker : Worker S) where
  unfoldable pub veo_context_open : (tid_counter : ℕ) → ProcHandle → Step S (Reply ℕ)
  veo_context_open tid_counter p =
      catching (λ e. give (with_errno 0 e))
        (do ctx ← open_context worker tid_counter p; give (check_pointer ctx))

  -- The part that has both objects.
  unfoldable pub open_checked :
      VhAccess S
      → (ℕ → ℕ → List ℕ)
      → (version3 attr_v3 tid_counter : ℕ) → ThreadContextAttr
      → ProcHandle
      → Step S (Reply ℕ)
  open_checked vh layout version3 attr_v3 tid_counter attr p =
      if ltb p.funcs.version version3
      then give (with_errno 0 enosys)
      else (catching (λ e. give (with_errno 0 e))
          (do
            ctx ← open_context_with_attr worker vh layout attr_v3 tid_counter attr p
            give (check_pointer ctx)))

  -- `none` is a null pointer. `version3` is `VEORUN_VERSION3` of veorun.h.
  unfoldable pub veo_context_open_with_attr :
      VhAccess S
      → (ℕ → ℕ → List ℕ)
      → (version3 attr_v3 tid_counter : ℕ) → Option ThreadContextAttr
      → Option ProcHandle
      → Step S (Reply ℕ)
  veo_context_open_with_attr vh layout version3 attr_v3 tid_counter none p =
      give (with_errno 0 einval)
  veo_context_open_with_attr vh layout version3 attr_v3 tid_counter (some attr) none =
      give (with_errno 0 einval)
  veo_context_open_with_attr vh layout version3 attr_v3 tid_counter (some attr) (some p) =
      open_checked vh layout version3 attr_v3 tid_counter attr p

-- A request of the context as a block; it cannot throw.
unfoldable pub request_step : (Context → Option (ℕ × Context)) → Step Context ℕ
request_step f ctx = elim (f ctx) [
  | none ↦ (err out_of_fuel, ctx)
  | some (id, ctx') ↦ (ok id, ctx')
]

-- `try { return request } catch (VEOException &e) { return VEO_REQUEST_ID_INVALID; }`.
unfoldable pub or_invalid : {S : Type 0} → Step S ℕ → Step S (Reply ℕ)
or_invalid m = catching (λ e. give (plain request_id_invalid)) (reply m)

unfoldable pub veo_call_async : (addr args : ℕ) → Step Context (Reply ℕ)
veo_call_async addr args = or_invalid (request_step (call_async addr args))

unfoldable pub veo_call_async_vh : (func arg : ℕ) → Step Context (Reply ℕ)
veo_call_async_vh func arg = or_invalid (request_step (call_vh_async func arg))

unfoldable pub veo_async_read_mem : (dst src size : ℕ) → Step Context (Reply ℕ)
veo_async_read_mem dst src size = or_invalid (request_step (async_read_mem dst src size))

unfoldable pub veo_async_write_mem : (dst src size : ℕ) → Step Context (Reply ℕ)
veo_async_write_mem dst src size = or_invalid (request_step (async_write_mem dst src size))

module _ {S : Type 0} (worker : Worker S) where
  -- The handle with the state of its worker, and the context of the client.
  pub record Client : Type 0 where
    pub proc : ProcHandle × S
    pub ctx : Context

  unfoldable pub on_proc : {A : Type 0} → Step (ProcHandle × S) A → Step Client A
  on_proc m s = let r = m s.proc in (r.0, record s { proc = r.1 })

  unfoldable pub on_ctx : {A : Type 0} → Step Context A → Step Client A
  on_ctx m s = let r = m s.ctx in (r.0, record s { ctx = r.1 })

  -- `callAsyncByName`.
  unfoldable pub call_async_by_name : (libhdl : ℕ) → Text → (args : ℕ) → Step Client ℕ
  call_async_by_name libhdl symname args = do
    addr ← on_proc (get_sym_step worker libhdl symname)
    on_ctx (request_step (call_async addr args))

  unfoldable pub veo_call_async_by_name : (libhdl : ℕ) → Text → (args : ℕ) → Step Client (Reply ℕ)
  veo_call_async_by_name libhdl symname args = or_invalid (call_async_by_name libhdl symname args)

-- What `veo_call_peek_result` and `veo_call_wait_result` give: the status with what is stored through
-- `retp`, or -1; or the call waits.
pub data Picked : Type 0 where
  picked : CommandStatus → Option ℕ → Picked
  internal_error : Picked
  still_waits : Picked

unfoldable pub pick : Context → Result Answer → Result Picked × Context
pick ctx (ok (answered status ret ctx')) = (ok (picked status ret), ctx')
pick ctx (ok (waits ctx')) = (ok still_waits, ctx')
pick ctx (err fault) = (err fault, ctx)

unfoldable pub veo_call_peek_result : ℕ → Step Context Picked
unfolding pick
veo_call_peek_result reqid =
    catching (λ e. give internal_error) (λ ctx. pick ctx (call_peek_result reqid ctx))

unfoldable pub veo_call_wait_result : ℕ → Step Context Picked
unfolding pick
veo_call_wait_result reqid =
    catching (λ e. give internal_error) (λ ctx. pick ctx (call_wait_result reqid ctx))

-- The main thread is not closed: `return -EINVAL`. Else `close` tells, as the bit pattern of an `int`;
-- the second result tells whether the object is deleted.
unfoldable pub veo_context_close :
    {S : Type 0} → (is_main_thread : Bool) → Step S ℕ → Step S (ℕ × Bool)
veo_context_close is_main_thread close =
    if is_main_thread then give (2 ^ 32 - einval, false) else (do rv ← close; give (rv, rv == 0))
