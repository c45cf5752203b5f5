-- ===== src/Proc/Destroy.antt =====
-- `exitProc` on the client's side.
use veoffload.Base.{ℕ, ◌||◌, ◌==◌, if◌then◌else◌}
use veoffload.Steps.{Step, give, change, call, ◌>>=◌, ◌>>◌}
use veoffload.Context.State.{ContextState, state_exit, is_exit}
use veoffload.Proc.Handle.{ProcHandle}

-- What `exitProc` needs: the state of the main thread; the request with the handler of `Proc.Exit`,
-- which gives the invalid ID where the queue of the worker refuses it; `waitCompletion`, where the
-- pseudo thread of the worker runs; `process_thread_cleanup` and `veos_handle_free`.
pub record Exiter (S : Type 0) : Type 0 where
  pub main_state : S → ContextState
  pub set_main_state : ContextState → S → S
  pub call_exit : ℕ → S → ℕ × S
  pub wait_completion : ℕ → Step S (Unit {0})
  pub cleanup : S → S
  pub handle_free : S → S

module _ {S : Type 0} (exiter : Exiter S) where
  -- The part after the test.
  unfoldable pub leave : ProcHandle → Step S (Unit {0})
  leave p = do
    id ← call (exiter.call_exit p.funcs.exit)
    exiter.wait_completion id
    change exiter.cleanup
    change (exiter.set_main_state state_exit)
    change exiter.handle_free

  unfoldable pub exit_proc : ProcHandle → Step S (Unit {0})
  exit_proc p s =
      if (p.funcs.exit == 0) || is_exit (exiter.main_state s) then give tt s else leave p s
