-- ===== src/Proc/Worker.antt =====
-- What the process handle needs of its worker, a thread context, and `doOnContext`.
use veoffload.Base.{ℕ, List, Option, none, some, Result, ok, err, uninitialised, exception}
use veoffload.Args.Setup.{CallArgs}
use veoffload.Queues.Blocking.{
  CommandStatus, command_ok, command_exception, command_error, command_unfinished,
}

-- The requests of the worker and `callWaitResult`, over a state `S` that holds the context, the VE and
-- the VH process: the pseudo thread of the worker runs between the request and its result. The result
-- is the status, and what is stored through `retp`.
pub record Worker (S : Type 0) : Type 0 where
  pub call_async : ℕ → CallArgs → S → ℕ × S
  pub call_open_context : ℕ → CallArgs → S → ℕ × S
  pub async_read_mem : (dst src size : ℕ) → S → ℕ × S
  pub async_write_mem : (dst src size : ℕ) → S → ℕ × S
  pub call_wait_result : ℕ → S → CommandStatus × Option ℕ × S

-- The memory of the VH process, where a function works on it itself.
pub record VhAccess (S : Type 0) : Type 0 where
  pub store_bytes : ℕ → List ℕ → S → S
  pub memcpy : (dst src size : ℕ) → S → S

-- `ENOSYS` on Linux.
abbrev pub enosys : ℕ
enosys = 38

-- `if (rv != VEO_COMMAND_OK) throw VEOException("request failed", ENOSYS); return ret`.
unfoldable pub require_ok : CommandStatus → Option ℕ → Result ℕ
require_ok command_ok none = err uninitialised
require_ok command_ok (some ret) = ok ret
require_ok command_exception ret = err (exception enosys)
require_ok command_error ret = err (exception enosys)
require_ok command_unfinished ret = err (exception enosys)

module _ {S : Type 0} (worker : Worker S) where
  -- `doOnContext`: what it returns or throws, and the state.
  unfoldable pub do_on_context : ℕ → CallArgs → S → Result ℕ × S
  do_on_context func args s =
      let request = worker.call_async func args s in
      let answer = worker.call_wait_result (request.0) (request.1) in
      (require_ok (answer.0) (answer.1), answer.2)
