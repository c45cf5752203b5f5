-- ===== src/Args/Numbers.antt =====
-- A number in its word on the stack against the same number in a register.
use veoffload.Base.{
  ℕ, zero, suc, ◌+◌, ◌*◌, ◌-◌, ◌^◌, ◌/◌, Bool, true, false, ◌&&◌, leb, if◌then◌else◌, ℤ, pos,
  negsuc, ◌<◌, ◌≡◌, refl, ◌∙◌, List, [], ◌∷◌, ◌++◌, arith, length, replicate, ok, le_bytes,
  of_le_bytes,
}
use veoffload.Args.Image.{
  IntType, i64, u64_t, i32, u32, i16, u16, i8, u8, size_of, to_int64, pad_size, set_value,
}
use veoffload.Args.Layout.{word}
use veoffload.Args.Layout.Step.{set_value_lem, size_fits}
use veoffload.Args.Layout.Fill.{length-word}

of_le_bytes-zeros : (n : ℕ) → of_le_bytes (replicate n 0) ≡ 0
of_le_bytes-zeros zero = refl
of_le_bytes-zeros (suc n) = omega (arith, of_le_bytes-zeros n)

of_le_bytes-append_zeros :
    (xs : List ℕ) (n : ℕ) → of_le_bytes (xs ++ replicate n 0) ≡ of_le_bytes xs
of_le_bytes-append_zeros [] n = of_le_bytes-zeros n
of_le_bytes-append_zeros (x ∷ xs) n = omega (arith, of_le_bytes-append_zeros xs n)

-- 256 ^ n, by doubling the eight bits of each byte.
abbrev pub byte_range : ℕ → ℕ
byte_range zero = 1
byte_range (suc n) = 256 * byte_range n

pub of_le_bytes-le_bytes : (n v : ℕ) → v < byte_range n → of_le_bytes (le_bytes n v) ≡ v
of_le_bytes-le_bytes zero v h = omega arith
of_le_bytes-le_bytes (suc n) v h = omega (arith, of_le_bytes-le_bytes n (v / 256) (omega arith))

-- Whether the type is signed.
abbrev pub is_signed : IntType → Bool
is_signed i64 = true
is_signed u64_t = false
is_signed i32 = true
is_signed u32 = false
is_signed i16 = true
is_signed u16 = false
is_signed i8 = true
is_signed u8 = false

-- The number that a pattern of `n` bytes stands for: with a sign, it is in two's complement.
abbrev pub number : Bool → ℕ → ℕ → ℤ
number signed n v =
    if signed && leb (byte_range n) (2 * v) then negsuc (byte_range n - v - 1) else pos v

-- The pattern of eight bytes for the same number: the bits above the sign are ones.
abbrev pub extended : IntType → ℕ → ℕ
extended t v =
    if is_signed t && leb (byte_range (size_of t)) (2 * v)
    then v + (2 ^ 64 - byte_range (size_of t))
    else v

pub to_int64-extended : (t : IntType) (v : ℕ) → to_int64 t v ≡ extended t v
to_int64-extended i64 v = ground arith
to_int64-extended u64_t v = refl
to_int64-extended i32 v = ground arith
to_int64-extended u32 v = refl
to_int64-extended i16 v = ground arith
to_int64-extended u16 v = refl
to_int64-extended i8 v = ground arith
to_int64-extended u8 v = refl

-- The register holds the same number, in eight bytes.
to_int64-number :
    (t : IntType) (v : ℕ)
    → v < byte_range (size_of t)
    → (number (is_signed t) 8 (to_int64 t v) ≡ number (is_signed t) (size_of t) v)
      × (to_int64 t v < 2 ^ 64)
to_int64-number i64 v h = ground arith
to_int64-number u64_t v h = ground arith
to_int64-number i32 v h = ground arith
to_int64-number u32 v h = ground arith
to_int64-number i16 v h = ground arith
to_int64-number u16 v h = ground arith
to_int64-number i8 v h = ground arith
to_int64-number u8 v h = ground arith

-- For every integer type and value of it: `set_value`, in a blank word, writes eight bytes that stand
-- for the value, least significant first, and changes nothing else of the stack; and the register value
-- is a 64-bit pattern that stands for the same number, in two's complement where the type is signed.
pub set_value-register :
    (t : IntType) (v off : ℕ) (xs zs : List ℕ)
    → v < byte_range (size_of t)
    → off ≡ length xs
    → (w : List ℕ) × (set_value off (size_of t) v (xs ++ (replicate 8 0 ++ zs))
        ≡ ok (xs ++ (w ++ zs)))
      × (length w ≡ 8)
      × (of_le_bytes w ≡ v)
      × (number (is_signed t) 8 (to_int64 t v) ≡ number (is_signed t) (size_of t) v)
      × (to_int64 t v < 2 ^ 64)
set_value-register t v off xs zs h e = (
  word (size_of t) v,
  set_value_lem (size_of t) v off xs zs (size_fits t) e,
  length-word (size_of t) v (size_fits t),
  of_le_bytes-append_zeros (le_bytes (size_of t) v) (pad_size (size_of t))
      ∙ of_le_bytes-le_bytes (size_of t) v h,
  (to_int64-number t v h).0,
  (to_int64-number t v h).1,
)
