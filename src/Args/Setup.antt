-- ===== src/Args/Setup.antt =====
-- The class `CallArgs`: `clear`, `push_`, `set`, `setOnStack`, `getRegVal`, `getStackImage`, `setup`,
-- `copyin` and `copyout`.
use veoffload.Base.{
  ℕ, zero, suc, ◌+◌, ◌-◌, ◌*◌, Bool, true, false, ◌||◌, Option, none, some, List, [], ◌∷◌, ◌++◌,
  ltb, ◌==◌, if◌then◌else◌, length, set, replicate, Result, ok, err, null_pointer, out_of_range,
  length_error, ◌>>=◌, ◌>>◌, veo_assert, ℤ, pos, negsuc, sub64, int32, sign_extend32, Memory,
}
use veoffload.Args.Image.{
  Arg, IntType, i64, int_arg, double_arg, float_arg, on_stack, get_reg_val, size_on_stack,
  set_stack_image, copyout_from_stack_image, num_args_on_register, param_area_offset,
}

-- `none` is a null `unique_ptr`, as `resize` leaves it. The members below `arguments` are not
-- initialised by the constructors; `setup` sets them all.
pub record CallArgs : Type 0 where
  pub arguments : List (Option Arg)
  pub stack_top : ℕ
  pub stack_size : ℕ
  pub stack_buf : List ℕ
  pub copied_in : Bool
  pub copied_out : Bool

abbrev pub empty_args : CallArgs
empty_args = record {
  arguments = [];
  stack_top = 0;
  stack_size = 0;
  stack_buf = [];
  copied_in = false;
  copied_out = false;
}

pub clear : CallArgs → CallArgs
clear a = record a { arguments = [] }

-- `push_<int64_t>`, and the constructor that takes a list of `int64_t`.
unfoldable pub push : CallArgs → ℕ → CallArgs
push a val = record a { arguments = a.arguments ++ some (int_arg i64 val) ∷ [] }

unfoldable pub push_all : CallArgs → List ℕ → CallArgs
push_all a [] = a
push_all a (v ∷ vs) = push_all (push a v) vs

unfoldable pub of_list : List ℕ → CallArgs
of_list vs = push_all empty_args vs

-- `arguments.resize(n)` where `arguments.size() < n`.
unfoldable pub grow : ℕ → List (Option Arg) → List (Option Arg)
grow n args = if ltb (length args) n then args ++ replicate (n - length args) none else args

-- The common part of `set_` and `setOnStack`. The test compares a `size_t` with the `int`
-- `argnum + 1`: that is 0 for -1, where index -1 is then written, and a huge number below -1, which
-- `resize` refuses.
unfoldable pub put : ℤ → Arg → CallArgs → Result CallArgs
put (pos n) x a = ok (record a { arguments = set (grow (n + 1) a.arguments) n (some x) })
put (negsuc zero) x a = err out_of_range
put (negsuc (suc k)) x a = err length_error

unfoldable pub set_int : IntType → ℤ → ℕ → CallArgs → Result CallArgs
set_int t argnum val a = put argnum (int_arg t val) a

unfoldable pub set_double : ℤ → ℕ → CallArgs → Result CallArgs
set_double argnum bits a = put argnum (double_arg bits) a

unfoldable pub set_float : ℤ → ℕ → CallArgs → Result CallArgs
set_float argnum bits a = put argnum (float_arg bits) a

-- `enum veo_args_intent`.
pub data Intent : Type 0 where
  intent_in intent_inout intent_out : Intent

abbrev pub copies_in : Intent → Bool
copies_in intent_in = true
copies_in intent_inout = true
copies_in intent_out = false

abbrev pub copies_out : Intent → Bool
copies_out intent_in = false
copies_out intent_inout = true
copies_out intent_out = true

unfoldable pub set_stack : Intent → ℤ → ℕ → ℕ → CallArgs → Result CallArgs
set_stack inout argnum buff len a =
    put argnum (on_stack buff len (copies_in inout) (copies_out inout) none) a

-- `getRegVal`: the loop stops after `NUM_ARGS_ON_REGISTER` arguments. The number is that of the
-- arguments that may still follow.
unfoldable pub reg_vals : ℕ → List (Option Arg) → Result (List ℕ)
reg_vals left [] = ok []
reg_vals left (none ∷ rest) = err null_pointer
reg_vals zero (some x ∷ rest) = do v ← get_reg_val x; ok (v ∷ [])
reg_vals (suc left) (some x ∷ rest) = do v ← get_reg_val x; vs ← reg_vals left rest; ok (v ∷ vs)

unfoldable pub get_reg_vals : CallArgs → Result (List ℕ)
get_reg_vals a = reg_vals (num_args_on_register - 1) a.arguments

-- `std::accumulate` with an `int` start: each sum is a `size_t` that is cut to an `int`.
unfoldable pub accumulate : ℕ → List (Option Arg) → Result ℕ
accumulate acc [] = ok acc
accumulate acc (none ∷ rest) = err null_pointer
accumulate acc (some x ∷ rest) = accumulate (int32 (sign_extend32 acc + size_on_stack x)) rest

-- The size of the image is a sum of three `int`s, converted to `size_t`.
unfoldable pub image_size : List (Option Arg) → Result ℕ
image_size args = do
  data_size ← accumulate 0 args
  ok (sign_extend32 (int32 (param_area_offset + 8 * length args + data_size)))

pub record Filled : Type 0 where
  pub arguments : List (Option Arg)
  pub stack : List ℕ
  pub copied_in : Bool
  pub copied_out : Bool

-- The loop of `getStackImage` from argument number `n` on.
unfoldable pub fill : Memory → ℕ → ℕ → List ℕ → Bool → Bool → List (Option Arg) → Result Filled
fill m sp n stack ci co [] =
    ok (record { arguments = []; stack = stack; copied_in = ci; copied_out = co })
fill m sp n stack ci co (none ∷ rest) = err null_pointer
fill m sp n stack ci co (some x ∷ rest) = do
  i ← set_stack_image m sp n stack x
  f ← fill m sp (n + 1) i.stack (ci || i.copied_in) (co || i.copied_out) rest
  ok (record f { arguments = some i.arg ∷ f.arguments })

pub record StackImage : Type 0 where
  pub args : CallArgs
  pub sp : ℕ
  pub image : List ℕ

unfoldable pub get_stack_image : Memory → ℕ → CallArgs → Result StackImage
get_stack_image m sp a = do
  size ← image_size a.arguments
  let top = sub64 sp size
  f ←
      fill m top 0 (replicate (param_area_offset + 8 * length a.arguments) 0) false false
        a.arguments
  ok (record {
    args = record a {
      arguments = f.arguments;
      stack_top = top;
      stack_size = size;
      copied_in = f.copied_in;
      copied_out = f.copied_out;
    };
    sp = top;
    image = f.stack;
  })

-- `setup`: the new arguments and the new stack pointer.
unfoldable pub setup : Memory → ℕ → CallArgs → Result (CallArgs × ℕ)
setup m sp a = do
  s ← get_stack_image m sp a
  veo_assert (s.args.stack_size == length s.image)
  ok (record s.args { stack_buf = s.image }, s.sp)

-- The transfer functions are the caller's, over a state of theirs. Their status is dropped, as in
-- the source.
unfoldable pub copyin {ℓ} : {S : Type ℓ} → (ℕ → List ℕ → S → ℤ × S) → CallArgs → S → S
copyin xfer a s = if a.copied_in then (xfer a.stack_top a.stack_buf s).1 else s

unfoldable pub copyout_all : ℕ → List ℕ → Memory → List (Option Arg) → Result Memory
copyout_all sp img m [] = ok m
copyout_all sp img m (none ∷ rest) = err null_pointer
copyout_all sp img m (some x ∷ rest) = do
  m' ← copyout_from_stack_image sp img m x
  copyout_all sp img m' rest

-- `xfer` is given the address and the size, and the buffer that it overwrites.
unfoldable pub copyout {ℓ} :
    {S : Type ℓ}
    → (ℕ → ℕ → List ℕ → S → ℤ × List ℕ × S)
    → CallArgs
    → Memory
    → S
    → Result (CallArgs × Memory × S)
copyout xfer a m s =
    if a.copied_out
    then (let r = xfer a.stack_top a.stack_size a.stack_buf s in
        do
          m' ← copyout_all a.stack_top r.1 m a.arguments
          ok (record a { stack_buf = r.1 }, m', r.2))
    else ok (a, m, s)
