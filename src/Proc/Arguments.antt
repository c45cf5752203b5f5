-- ===== src/Proc/Arguments.antt =====
-- The arguments that `loadLibrary`, `loadLibraryError`, `openContext` and the constructor pass to the
-- functions of veorun.
use veoffload.Base.{ℕ, ◌+◌, ◌*◌, ◌-◌, ◌^◌, length, Result, ◌>>=◌, pos}
use veoffload.Args.Image.{u64_t, i32}
use veoffload.Args.Setup.{CallArgs, empty_args, set_int, set_stack, intent_in}
use veoffload.Proc.Handle.{Text, veo_symname_len_max}

abbrev pub err_msg_len : ℕ
err_msg_len = veo_symname_len_max * 2

unfoldable pub library_args : Text → Result CallArgs
library_args name = set_stack intent_in (pos 0) name.address (length name.chars + 1) empty_args

unfoldable pub error_args : ℕ → Result CallArgs
error_args buff = do a ← set_int u64_t (pos 0) buff empty_args; set_int i32 (pos 1) err_msg_len a

-- `args.set(0, cpu)`, for the bit pattern of an `int`.
unfoldable pub cpu_args : ℕ → Result CallArgs
cpu_args cpu = set_int i32 (pos 0) cpu empty_args

-- The bit pattern of the `int` -1.
abbrev pub any_cpu : ℕ
any_cpu = 2 ^ 32 - 1

-- The structure of attributes, of which veorun.h has the size, at its address.
unfoldable pub attr_args : (address size : ℕ) → Result CallArgs
attr_args address size = set_stack intent_in (pos 0) address size empty_args
