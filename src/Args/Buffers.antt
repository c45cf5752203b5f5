-- ===== src/Args/Buffers.antt =====
-- What the prepared arguments hold: the buffers at their addresses, and the register values.
use veoffload.Base.{
  ℕ, zero, suc, ◌+◌, ◌%◌, ◌≡◌, refl, sym, ap, Bool, true, false, Option, some, List, [], ◌∷◌, ◌++◌,
  map, append_assoc, arith, leb, if◌then◌else◌, length, get_elem?, take, replicate, length-append,
  length-replicate, take-append_length, drop-append_length, length-load, ok, u64, Memory, load, ◌≤◌,
  ◌<◌, ◌^◌,
}
use veoffload.Args.Image.{
  Arg, int_arg, double_arg, float_arg, on_stack, float_image, pad_size, size_on_stack, stack_bytes,
}
use veoffload.Args.Setup.{CallArgs, setup}
use veoffload.Args.Layout.{buffer, place, params, buffers, placed, sizes, length-buffers}
use veoffload.Args.Layout.{length-buffers}
use veoffload.Args.Layout.Fill.{length-params}
use veoffload.Args.Image.{slice, get_reg_val}
use veoffload.Args.Numbers.{extended, to_int64-extended}
use veoffload.Args.Setup.{reg_vals, get_reg_vals}
use veoffload.Args.Layout.Whole.{data_offset, total_size, layout, setup-prepared, length-layout}

buffers-append :
    (m : Memory) (xs ys : List Arg) → buffers m (xs ++ ys) ≡ buffers m xs ++ buffers m ys
unfolding buffers
buffers-append m [] ys = refl
buffers-append m (x ∷ xs) ys =
    rw (buffers-append m xs ys) (sym (append_assoc (buffer m x) (buffers m xs) (buffers m ys)))

pub sizes-append : (xs ys : List Arg) → sizes (xs ++ ys) ≡ sizes xs + sizes ys
unfolding sizes
sizes-append [] ys = omega arith
sizes-append (x ∷ xs) ys = omega (arith, sizes-append xs ys)

size_on_stack-mod : (x : Arg) → size_on_stack x % 8 ≡ 0
unfolding size_on_stack
size_on_stack-mod (int_arg t v) = refl
size_on_stack-mod (double_arg bits) = refl
size_on_stack-mod (float_arg bits) = refl
size_on_stack-mod (on_stack b l i o a) = ground arith

pub sizes-mod : (xs : List Arg) → sizes xs % 8 ≡ 0
unfolding sizes
sizes-mod [] = refl
sizes-mod (x ∷ xs) = omega (arith, size_on_stack-mod x, sizes-mod xs)

sizes-buffer :
    (b l : ℕ) (i o : Bool) (v : Option ℕ) (ys : List Arg) → l ≤ sizes (on_stack b l i o v ∷ ys)
unfolding sizes size_on_stack
sizes-buffer b l i o v ys = omega arith

-- Taking exactly the middle part of an image.
pub slice-middle :
    (xs ys zs : List ℕ) (off len : ℕ)
    → off ≡ length xs
    → len ≡ length ys
    → slice off len (xs ++ (ys ++ zs)) ≡ ok ys
unfolding slice
slice-middle xs ys zs off len e f =
    let inside : leb (off + len) (length (xs ++ (ys ++ zs))) ≡ true =
      ground (arith, length-append xs (ys ++ zs), length-append ys zs) in
    rw (inside, drop-append_length xs (ys ++ zs) off e, take-append_length ys zs len f)

pub get-placed :
    (sp off : ℕ) (xs : List Arg) (x : Arg) (ys : List Arg)
    → get_elem? (map some (placed sp off (xs ++ x ∷ ys))) (length xs)
      ≡ some (some (place sp (off + sizes xs) x))
unfolding placed sizes
get-placed sp off [] x ys = let e : off + 0 ≡ off = omega arith in rw e
get-placed sp off (w ∷ ws) x ys =
    let e : off + size_on_stack w + sizes ws ≡ off + (size_on_stack w + sizes ws) = omega arith in
    rw (← e) (get-placed sp (off + size_on_stack w) ws x ys)

-- The bytes of a buffer, without the padding.
abbrev pub contents : Memory → ℕ → ℕ → Bool → List ℕ
contents m b l i = if i then load m b l else replicate l 0

length-contents : (m : Memory) (b l : ℕ) (i : Bool) → length (contents m b l i) ≡ l
length-contents m b l true = length-load m b l
length-contents m b l false = length-replicate {A = ℕ} l 0

pub buffer_in_layout :
    (m : Memory) (top : ℕ) (xs ys : List Arg) (b l : ℕ) (i o : Bool) (v : Option ℕ)
    → slice
        (data_offset (xs ++ on_stack b l i o v ∷ ys) + sizes xs)
        l
        (layout m top (xs ++ on_stack b l i o v ∷ ys))
      ≡ ok (contents m b l i)
unfolding buffers stack_bytes
buffer_in_layout m top xs ys b l i o v =
    let zs = xs ++ on_stack b l i o v ∷ ys in
    let head = replicate 176 0 ++ params top 0 (data_offset zs) zs in
    let pad = replicate (pad_size l) 0 in
    let split : layout m top zs
        ≡ (head ++ buffers m xs) ++ (contents m b l i ++ (pad ++ buffers m ys)) =
      simp (buffers-append, append_assoc) in
    rw split (
      slice-middle (head ++ buffers m xs) (contents m b l i) (pad ++ buffers m ys)
        (data_offset zs + sizes xs) l
        (omega (
          arith,
          length-append head (buffers m xs),
          length-append (replicate 176 0) (params top 0 (data_offset zs) zs),
          length-params top 0 (data_offset zs) zs,
          length-buffers m xs,
        ))
        (sym (length-contents m b l i)))

-- After a successful `setup`, the argument that stands behind `xs` and was set on the stack holds an
-- address `top + off` on the VE, `off` is a multiple of 8, the `l` bytes there lie inside the image,
-- and they are the VH buffer's bytes if it is copied in, and zeros otherwise.
pub setup-buffer :
    (m : Memory) (sp : ℕ) (a c : CallArgs) (top : ℕ) (xs ys : List Arg) (b l : ℕ) (i o : Bool)
    (v : Option ℕ)
    → let zs = xs ++ on_stack b l i o v ∷ ys in
      let off = data_offset zs + sizes xs in
      a.arguments ≡ map some zs
      → total_size zs < 2 ^ 31
      → setup m sp a ≡ ok (c, top)
      → (get_elem? c.arguments (length xs)
          ≡ some (some (on_stack b l i o (some (u64 (top + off))))))
        × (off % 8 ≡ 0)
        × (off + l ≤ length c.stack_buf)
        × (slice off l c.stack_buf ≡ ok (contents m b l i))
setup-buffer m sp a c top xs ys b l i o v full small e =
    let zs = xs ++ on_stack b l i o v ∷ ys in
    rw (setup-prepared m sp a c top zs full small e) (
      get-placed top (data_offset zs) xs (on_stack b l i o v) ys,
      omega (arith, sizes-mod xs),
      omega (
        arith,
        length-layout m top zs,
        sizes-append xs (on_stack b l i o v ∷ ys),
        sizes-buffer b l i o v ys,
      ),
      buffer_in_layout m top xs ys b l i o v,
    )

-- The value of an argument in a register.
abbrev pub reg_word : ℕ → ℕ → Arg → ℕ
reg_word top off (int_arg t v) = extended t v
reg_word top off (double_arg bits) = bits
reg_word top off (float_arg bits) = float_image bits
reg_word top off (on_stack b l i o v) = u64 (top + off)

pub reg_words : ℕ → ℕ → List Arg → List ℕ
reg_words top off [] = []
reg_words top off (x ∷ xs) = reg_word top off x ∷ reg_words top (off + size_on_stack x) xs

get_reg_val-place :
    (top off : ℕ) (x : Arg) → get_reg_val (place top off x) ≡ ok (reg_word top off x)
unfolding get_reg_val
get_reg_val-place top off (int_arg t v) = ap ok (to_int64-extended t v)
get_reg_val-place top off (double_arg bits) = refl
get_reg_val-place top off (float_arg bits) = refl
get_reg_val-place top off (on_stack b l i o v) = refl

reg_vals-placed :
    (left top off : ℕ) (xs : List Arg)
    → reg_vals left (map some (placed top off xs)) ≡ ok (take (suc left) (reg_words top off xs))
unfolding reg_vals placed reg_words
reg_vals-placed zero top off [] = refl
reg_vals-placed (suc k) top off [] = refl
reg_vals-placed zero top off (x ∷ xs) = rw (get_reg_val-place top off x)
reg_vals-placed (suc k) top off (x ∷ xs) =
    rw (get_reg_val-place top off x, reg_vals-placed k top (off + size_on_stack x) xs)

-- After a successful `setup`, `getRegVal` follows no null pointer and reads no address that was
-- never set: it gives the first eight arguments, integers extended to 64 bits by the sign of their
-- type (a negative one of `n` bytes with `2 ^ 64 - 256 ^ n` added), and each buffer as its address on
-- the VE.
pub get_reg_vals-setup :
    (m : Memory) (sp : ℕ) (a c : CallArgs) (top : ℕ) (xs : List Arg)
    → a.arguments ≡ map some xs
    → total_size xs < 2 ^ 31
    → setup m sp a ≡ ok (c, top)
    → get_reg_vals c ≡ ok (take 8 (reg_words top (data_offset xs) xs))
unfolding get_reg_vals
get_reg_vals-setup m sp a c top xs full small e =
    rw (setup-prepared m sp a c top xs full small e) (reg_vals-placed 7 top (data_offset xs) xs)
