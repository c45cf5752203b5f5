-- ===== src/Args/Image.antt =====
-- One argument: `ArgBase` and its subclasses, and `set_value`.
use veoffload.Base.{
  ℕ, ◌+◌, ◌-◌, ◌*◌, ◌%◌, ◌^◌, Bool, true, false, Option, none, some, List, ◌++◌, ltb, leb,
  if◌then◌else◌, length, take, drop, replicate, Result, ok, err, uninitialised, out_of_range, ◌>>=◌,
  u64, sub64, le_bytes, Memory, load, store,
}

abbrev pub num_args_on_register : ℕ
num_args_on_register = 8

abbrev pub param_area_offset : ℕ
param_area_offset = 176

-- The integer types for which `CallArgs::set_` is instantiated.
pub data IntType : Type 0 where
  i64 u64_t i32 u32 i16 u16 i8 u8 : IntType

-- `sizeof(T)`.
abbrev pub size_of : IntType → ℕ
size_of i64 = 8
size_of u64_t = 8
size_of i32 = 4
size_of u32 = 4
size_of i16 = 2
size_of u16 = 2
size_of i8 = 1
size_of u8 = 1

-- `static_cast<int64_t>` of a value of the type, both as bit patterns.
abbrev pub to_int64 : IntType → ℕ → ℕ
to_int64 i64 v = v
to_int64 u64_t v = v
to_int64 i32 v = if ltb v (2 ^ 31) then v else v + (2 ^ 64 - 2 ^ 32)
to_int64 u32 v = v
to_int64 i16 v = if ltb v (2 ^ 15) then v else v + (2 ^ 64 - 2 ^ 16)
to_int64 u16 v = v
to_int64 i8 v = if ltb v (2 ^ 7) then v else v + (2 ^ 64 - 2 ^ 8)
to_int64 u8 v = v

-- `vemva` is not set by the constructor of `ArgOnStack`: `none` until `setStackImage`.
pub data Arg : Type 0 where
  int_arg : (t : IntType) (value : ℕ) → Arg
  double_arg : (bits : ℕ) → Arg
  float_arg : (bits : ℕ) → Arg
  on_stack : (buff len : ℕ) (copy_in copy_out : Bool) (vemva : Option ℕ) → Arg

-- The union of `ArgType<float>` holds `{0.0, f}`: the float is in the upper half.
abbrev pub float_image : ℕ → ℕ
float_image bits = bits * 2 ^ 32

-- `ArgBase::getRegVal`.
unfoldable pub get_reg_val : Arg → Result ℕ
get_reg_val (int_arg t v) = ok (to_int64 t v)
get_reg_val (double_arg bits) = ok bits
get_reg_val (float_arg bits) = ok (float_image bits)
get_reg_val (on_stack b l i o none) = err uninitialised
get_reg_val (on_stack b l i o (some a)) = ok a

-- The bytes of padding behind `n` bytes: `if (n % 8 > 0) 8 - (n % 8)`.
abbrev pub pad_size : ℕ → ℕ
pad_size n = if ltb 0 (n % 8) then 8 - n % 8 else 0

-- `ArgBase::sizeOnStack`.
unfoldable pub size_on_stack : Arg → ℕ
size_on_stack (int_arg t v) = 0
size_on_stack (double_arg bits) = 0
size_on_stack (float_arg bits) = 0
size_on_stack (on_stack b l i o a) = l + pad_size l

-- `std::string::replace(offset, count, bytes)`, which throws past the end of the string.
unfoldable pub replace : ℕ → ℕ → List ℕ → List ℕ → Result (List ℕ)
replace offset count bytes str =
    if leb offset (length str)
    then ok (take offset str ++ (bytes ++ drop (offset + count) str))
    else err out_of_range

-- `std::string::resize` to a greater size.
unfoldable pub extend : ℕ → List ℕ → List ℕ
extend offset str =
    if ltb (length str) offset then str ++ replicate (offset - length str) 0 else str

-- `set_value`: the value of `size` bytes, and zeros up to 8 bytes.
unfoldable pub set_value : ℕ → ℕ → ℕ → List ℕ → Result (List ℕ)
set_value offset size value str = do
  put ← replace offset size (le_bytes size value) (extend offset str)
  let pad = pad_size size
  if ltb 0 pad then replace (offset + size) pad (replicate pad 0) put else ok put

-- What `setStackImage` changes: the argument, the stack, and the two flags.
pub record Image : Type 0 where
  pub arg : Arg
  pub stack : List ℕ
  pub copied_in : Bool
  pub copied_out : Bool

-- `setStackImage` of the two `ArgType` kinds.
unfoldable pub set_scalar : ℕ → Arg → ℕ → ℕ → List ℕ → Result Image
set_scalar n a size value stack =
    if ltb n num_args_on_register
    then ok (record { arg = a; stack = stack; copied_in = false; copied_out = false })
    else (do
      stack' ← set_value (param_area_offset + n * 8) size value stack
      ok (record { arg = a; stack = stack'; copied_in = true; copied_out = false }))

-- The bytes that `ArgOnStack::setStackImage` appends.
unfoldable pub stack_bytes : Memory → ℕ → ℕ → Bool → List ℕ
stack_bytes m buff len copy_in =
    (if copy_in then load m buff len else replicate len 0) ++ replicate (pad_size len) 0

unfoldable pub set_on_stack : Memory → ℕ → ℕ → ℕ → ℕ → Bool → Bool → List ℕ → Result Image
set_on_stack m sp n buff len copy_in copy_out stack = do
  let vemva = u64 (sp + length stack)
  let stack' = stack ++ stack_bytes m buff len copy_in
  pointed ←
      (if ltb n num_args_on_register
        then ok stack'
        else set_value (param_area_offset + 8 * n) 8 vemva stack')
  ok (record {
    arg = on_stack buff len copy_in copy_out (some vemva);
    stack = pointed;
    copied_in = copy_in;
    copied_out = copy_out;
  })

-- `ArgBase::setStackImage` for the argument number `n`.
unfoldable pub set_stack_image : Memory → ℕ → ℕ → List ℕ → Arg → Result Image
set_stack_image m sp n stack (int_arg t v) = set_scalar n (int_arg t v) (size_of t) v stack
set_stack_image m sp n stack (double_arg bits) = set_scalar n (double_arg bits) 8 bits stack
set_stack_image m sp n stack (float_arg bits) =
    set_scalar n (float_arg bits) 8 (float_image bits) stack
set_stack_image m sp n stack (on_stack b l i o a) = set_on_stack m sp n b l i o stack

-- `memcpy` from `len` bytes of the image at `offset`, which must lie inside it.
unfoldable pub slice : ℕ → ℕ → List ℕ → Result (List ℕ)
slice offset len img =
    if leb (offset + len) (length img) then ok (take len (drop offset img)) else err out_of_range

-- `ArgBase::copyoutFromStackImage`.
unfoldable pub copyout_from_stack_image : ℕ → List ℕ → Memory → Arg → Result Memory
copyout_from_stack_image sp img m (int_arg t v) = ok m
copyout_from_stack_image sp img m (double_arg bits) = ok m
copyout_from_stack_image sp img m (float_arg bits) = ok m
copyout_from_stack_image sp img m (on_stack b l i false a) = ok m
copyout_from_stack_image sp img m (on_stack b l i true none) = err uninitialised
copyout_from_stack_image sp img m (on_stack b l i true (some a)) = do
  bytes ← slice (sub64 a sp) l img
  ok (store m b bytes)
