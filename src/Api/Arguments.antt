-- ===== src/Api/Arguments.antt =====
-- The functions of the C API on an argument object.
use veoffload.Base.{ℕ, ℤ, pos, negsuc, Result, ok, err}
use veoffload.Steps.{Step, give, ◌>>◌, catching}
use veoffload.Args.Image.{IntType, i64, u64_t, i32, u32, i16, u16, i8, u8}
use veoffload.Args.Setup.{
  CallArgs, Intent, set_int, set_double, set_float, set_stack, clear, empty_args,
}
use veoffload.Api.Reply.{Reply, plain}

-- A function of `CallArgs` on the object; where it throws, the object is as it was.
unfoldable pub update_step : (CallArgs → Result CallArgs) → Step CallArgs (Unit {0})
update_step f a = elim (f a) [ ok a' ↦ (ok tt, a') | err fault ↦ (err fault, a) ]

-- `try { set; return 0; } catch (VEOException &e) { return -1; }`.
unfoldable pub set_or_fail : (CallArgs → Result CallArgs) → Step CallArgs ℤ
set_or_fail f = catching (λ e. give (negsuc 0)) (do update_step f; give (pos 0))

-- `veo_args_set_`, for the integer types. The value is a bit pattern of the type.
unfoldable pub veo_args_set_int : IntType → ℤ → ℕ → Step CallArgs ℤ
veo_args_set_int t argnum val = set_or_fail (set_int t argnum val)

unfoldable pub veo_args_set_i64 : ℤ → ℕ → Step CallArgs ℤ
veo_args_set_i64 argnum val = veo_args_set_int i64 argnum val

unfoldable pub veo_args_set_u64 : ℤ → ℕ → Step CallArgs ℤ
veo_args_set_u64 argnum val = veo_args_set_int u64_t argnum val

unfoldable pub veo_args_set_i32 : ℤ → ℕ → Step CallArgs ℤ
veo_args_set_i32 argnum val = veo_args_set_int i32 argnum val

unfoldable pub veo_args_set_u32 : ℤ → ℕ → Step CallArgs ℤ
veo_args_set_u32 argnum val = veo_args_set_int u32 argnum val

unfoldable pub veo_args_set_i16 : ℤ → ℕ → Step CallArgs ℤ
veo_args_set_i16 argnum val = veo_args_set_int i16 argnum val

unfoldable pub veo_args_set_u16 : ℤ → ℕ → Step CallArgs ℤ
veo_args_set_u16 argnum val = veo_args_set_int u16 argnum val

unfoldable pub veo_args_set_i8 : ℤ → ℕ → Step CallArgs ℤ
veo_args_set_i8 argnum val = veo_args_set_int i8 argnum val

unfoldable pub veo_args_set_u8 : ℤ → ℕ → Step CallArgs ℤ
veo_args_set_u8 argnum val = veo_args_set_int u8 argnum val

-- The bits of a floating point number.
unfoldable pub veo_args_set_double : ℤ → ℕ → Step CallArgs ℤ
veo_args_set_double argnum bits = set_or_fail (set_double argnum bits)

unfoldable pub veo_args_set_float : ℤ → ℕ → Step CallArgs ℤ
veo_args_set_float argnum bits = set_or_fail (set_float argnum bits)

unfoldable pub veo_args_set_stack : Intent → ℤ → (buff len : ℕ) → Step CallArgs ℤ
veo_args_set_stack inout argnum buff len = set_or_fail (set_stack inout argnum buff len)

unfoldable pub veo_args_clear : CallArgs → CallArgs
veo_args_clear a = clear a

-- `veo_args_alloc`, where the memory is given. `veo_args_free` leaves nothing.
unfoldable pub veo_args_alloc : Reply CallArgs
veo_args_alloc = plain empty_args
