-- ===== src/Proc/Open.antt =====
-- `openContext`, without attributes and with them.
use veoffload.Base.{ℕ, ◌-◌, ◌%◌, List, length, ltb, if◌then◌else◌}
use veoffload.Steps.{Step, lift, change, ◌>>=◌, ◌>>◌}
use veoffload.Args.Setup.{CallArgs}
use veoffload.Attr.Object.{ThreadContextAttr}
use veoffload.Proc.Worker.{Worker, VhAccess, require_ok}
use veoffload.Proc.Handle.{ProcHandle}
use veoffload.Proc.Arguments.{cpu_args, attr_args, any_cpu}

abbrev pub max_cpu_num : ℕ
max_cpu_num = 8

-- The CPU of a new context, as the bit pattern of an `int`. `tid_counter` is a counter of libvepseudo.
-- Both counters are taken not to be negative.
unfoldable pub choose_cpu : (tid_counter : ℕ) → ProcHandle → ℕ
choose_cpu tid_counter p =
    if ltb (max_cpu_num - 1) tid_counter then p.num_child_threads % max_cpu_num else any_cpu

module _ {S : Type 0} (worker : Worker S) where
  -- The request, its result, and the test of its status.
  unfoldable pub open_with : ℕ → CallArgs → Step S ℕ
  open_with func args s =
      let request = worker.call_open_context func args s in
      let answer = worker.call_wait_result (request.0) (request.1) in
      (require_ok (answer.0) (answer.1), answer.2)

  unfoldable pub open_context : ℕ → ProcHandle → Step S ℕ
  open_context tid_counter p = do
    args ← lift (cpu_args (choose_cpu tid_counter p))
    open_with p.funcs.create_thread args

  -- `attr_v3` is the address of the local structure, and `layout` gives its bytes for a CPU and a
  -- stack size: the structure is of veorun.h, which is not part of the repository.
  unfoldable pub open_context_with_attr :
      (VhAccess S)
      → (ℕ → ℕ → List ℕ)
      → (attr_v3 tid_counter : ℕ) → ThreadContextAttr
      → ProcHandle
      → Step S ℕ
  open_context_with_attr vh layout attr_v3 tid_counter attr p =
      let bytes = layout (choose_cpu tid_counter p) attr.stacksize in
      (do
        change (vh.store_bytes attr_v3 bytes)
        args ← lift (attr_args attr_v3 (length bytes))
        open_with p.funcs.create_thread_with_attr args)
