-- ===== src/Args/Layout.antt =====
-- The layout of the stack image, described apart from the loop that builds it: the register save
-- area, one word for each argument, and the buffers in the order of the arguments.
pub mod Step
pub mod Fill
pub mod Whole
use veoffload.Base.{
  ℕ, zero, suc, ◌+◌, ◌-◌, ◌*◌, ◌%◌, ◌≡◌, refl, sym, ap, ◌∙◌, Bool, true, false, ◌||◌, not, Option,
  none, some, List, [], ◌∷◌, ◌++◌, map, append-nil, append_assoc, arith, ltb, leb, if◌then◌else◌,
  length, take, drop, replicate, length-append, length-replicate, take-append_length,
  drop-append_length, replicate-add, length-le_bytes, length-load, Result, ok, err, ◌>>=◌, u64,
  le_bytes, Memory, load, Bool-cases, ◌⊎◌, inl, inr, ◌≤◌, ◌<◌, ap₂,
}
use veoffload.Args.Image.{
  Arg, IntType, i64, u64_t, i32, u32, i16, u16, i8, u8, int_arg, double_arg, float_arg, on_stack,
  float_image, size_of, pad_size, size_on_stack, replace, extend, set_value, Image, set_stack_image,
  set_scalar, set_on_stack, stack_bytes, param_area_offset,
}
use veoffload.Args.Setup.{Filled, fill}

-- A value of `size` bytes in its word of eight.
abbrev pub word : ℕ → ℕ → List ℕ
word size v = le_bytes size v ++ replicate (pad_size size) 0

-- The word of argument number `n`; `off` is where its buffer would start in the image.
abbrev pub param : ℕ → ℕ → ℕ → Arg → List ℕ
param sp n off (int_arg t v) = if ltb n 8 then replicate 8 0 else word (size_of t) v
param sp n off (double_arg bits) = if ltb n 8 then replicate 8 0 else word 8 bits
param sp n off (float_arg bits) = if ltb n 8 then replicate 8 0 else word 8 (float_image bits)
param sp n off (on_stack b l i o a) = if ltb n 8 then replicate 8 0 else word 8 (u64 (sp + off))

-- The bytes of an argument's buffer.
abbrev pub buffer : Memory → Arg → List ℕ
buffer m (int_arg t v) = []
buffer m (double_arg bits) = []
buffer m (float_arg bits) = []
buffer m (on_stack b l i o a) = stack_bytes m b l i

-- The argument once its buffer has an address on the VE.
abbrev pub place : ℕ → ℕ → Arg → Arg
place sp off (int_arg t v) = int_arg t v
place sp off (double_arg bits) = double_arg bits
place sp off (float_arg bits) = float_arg bits
place sp off (on_stack b l i o a) = on_stack b l i o (some (u64 (sp + off)))

abbrev pub wants_in : ℕ → Arg → Bool
wants_in n (int_arg t v) = not (ltb n 8)
wants_in n (double_arg bits) = not (ltb n 8)
wants_in n (float_arg bits) = not (ltb n 8)
wants_in n (on_stack b l i o a) = i

abbrev pub wants_out : Arg → Bool
wants_out (int_arg t v) = false
wants_out (double_arg bits) = false
wants_out (float_arg bits) = false
wants_out (on_stack b l i o a) = o

unfoldable pub params : ℕ → ℕ → ℕ → List Arg → List ℕ
params sp n off [] = []
params sp n off (x ∷ xs) = param sp n off x ++ params sp (n + 1) (off + size_on_stack x) xs

unfoldable pub buffers : Memory → List Arg → List ℕ
buffers m [] = []
buffers m (x ∷ xs) = buffer m x ++ buffers m xs

unfoldable pub placed : ℕ → ℕ → List Arg → List Arg
placed sp off [] = []
placed sp off (x ∷ xs) = place sp off x ∷ placed sp (off + size_on_stack x) xs

unfoldable pub any_in : ℕ → List Arg → Bool
any_in n [] = false
any_in n (x ∷ xs) = wants_in n x || any_in (n + 1) xs

unfoldable pub any_out : List Arg → Bool
any_out [] = false
any_out (x ∷ xs) = wants_out x || any_out xs

unfoldable pub sizes : List Arg → ℕ
sizes [] = 0
sizes (x ∷ xs) = size_on_stack x + sizes xs

-- A word of zeros for each argument.
unfoldable pub blank : List Arg → List ℕ
blank [] = []
blank (x ∷ xs) = replicate 8 0 ++ blank xs

pub blank-replicate : (xs : List Arg) (n : ℕ) → n ≡ 8 * length xs → replicate n 0 ≡ blank xs
unfolding blank
blank-replicate [] n e = let e' : n ≡ 0 = omega arith in rw e' refl
blank-replicate (x ∷ xs) n e =
    replicate-add 8 (8 * length xs) n 0 (omega arith)
    ∙ ap (◌++◌ (replicate 8 0)) (blank-replicate xs (8 * length xs) refl)

pub length-stack_bytes :
    (m : Memory) (b l : ℕ) (i : Bool) → length (stack_bytes m b l i) ≡ l + pad_size l
unfolding stack_bytes
length-stack_bytes m b l true =
    length-append (load m b l) (replicate (pad_size l) 0)
    ∙ omega (arith, length-load m b l, length-replicate {A = ℕ} (pad_size l) 0)
length-stack_bytes m b l false =
    length-append (replicate l 0) (replicate (pad_size l) 0)
    ∙ omega (arith, length-replicate {A = ℕ} l 0, length-replicate {A = ℕ} (pad_size l) 0)

pub length-buffer : (m : Memory) (x : Arg) → length (buffer m x) ≡ size_on_stack x
unfolding size_on_stack
length-buffer m (int_arg t v) = refl
length-buffer m (double_arg bits) = refl
length-buffer m (float_arg bits) = refl
length-buffer m (on_stack b l i o a) = length-stack_bytes m b l i

pub length-buffers : (m : Memory) (xs : List Arg) → length (buffers m xs) ≡ sizes xs
unfolding buffers sizes
length-buffers m [] = refl
length-buffers m (x ∷ xs) =
    length-append (buffer m x) (buffers m xs) ∙ ap₂ ◌+◌ (length-buffer m x) (length-buffers m xs)
