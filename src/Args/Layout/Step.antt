-- ===== src/Args/Layout/Step.antt =====
-- One turn of the loop of `getStackImage`: where `set_value` and `setStackImage` write.
use veoffload.Base.{
  ℕ, zero, suc, ◌+◌, ◌*◌, ◌≡◌, refl, sym, ap, ◌∙◌, Bool, true, false, not, some, List, [], ◌++◌,
  append-nil, append_assoc, arith, ltb, leb, if◌then◌else◌, length, take, drop, replicate,
  length-append, length-replicate, take-append_length, drop-append_length, replicate-add,
  length-le_bytes, ok, u64, le_bytes, Memory, Bool-cases, inl, inr,
}
use veoffload.Args.Image.{
  Arg, IntType, i64, u64_t, i32, u32, i16, u16, i8, u8, int_arg, double_arg, float_arg, on_stack,
  float_image, size_of, pad_size, replace, extend, set_value, set_stack_image, set_scalar,
  set_on_stack, stack_bytes, param_area_offset,
}
use veoffload.Args.Layout.{word, param, buffer, place, wants_in, wants_out}

-- Replacing exactly the middle part of a string.
pub replace-middle :
    (xs ys bs zs : List ℕ) (off count : ℕ)
    → off ≡ length xs
    → count ≡ length ys
    → replace off count bs (xs ++ (ys ++ zs)) ≡ ok (xs ++ (bs ++ zs))
unfolding replace
replace-middle xs ys bs zs off count e f =
    let inside : leb off (length (xs ++ (ys ++ zs))) ≡ true =
      ground (arith, length-append xs (ys ++ zs)) in
    let kept : take off (xs ++ (ys ++ zs)) ≡ xs = take-append_length xs (ys ++ zs) off e in
    let rest : drop (off + count) (xs ++ (ys ++ zs)) ≡ zs =
      ap (drop (off + count)) (sym (append_assoc xs ys zs))
      ∙ drop-append_length (xs ++ ys) zs (off + count) (omega (arith, length-append xs ys)) in
    rw (inside, kept, rest)

extend-middle : (off : ℕ) (xs ys : List ℕ) → off ≡ length xs → extend off (xs ++ ys) ≡ xs ++ ys
unfolding extend
extend-middle off xs ys e = ground (arith, length-append xs ys)

-- The padding behind the value, which is written only where there is some.
pad-middle :
    (off pad : ℕ) (xs zs : List ℕ)
    → off ≡ length xs
    → (if ltb 0 pad
        then replace off pad (replicate pad 0) (xs ++ (replicate pad 0 ++ zs))
        else ok (xs ++ (replicate pad 0 ++ zs)))
      ≡ ok (xs ++ (replicate pad 0 ++ zs))
pad-middle off zero xs zs e = refl
pad-middle off (suc k) xs zs e =
    let padded : ltb 0 (suc k) ≡ true = ground arith in
    rw padded (
      replace-middle xs (replicate (suc k) 0) (replicate (suc k) 0) zs off (suc k) e
        (sym (length-replicate {A = ℕ} (suc k) 0)))

-- A value set in a word of zeros gives its word.
pub set_value_lem :
    (size v off : ℕ) (xs zs : List ℕ)
    → (8 ≡ size + pad_size size)
    → off ≡ length xs
    → set_value off size v (xs ++ (replicate 8 0 ++ zs)) ≡ ok (xs ++ (word size v ++ zs))
unfolding set_value
set_value_lem size v off xs zs fits e =
    let pad : ℕ = pad_size size in
    let split : replicate 8 0 ++ zs ≡ replicate size 0 ++ (replicate pad 0 ++ zs) =
      ap (λ ws. ws ++ zs) (replicate-add size pad 8 0 fits)
      ∙ append_assoc (replicate size 0) (replicate pad 0) zs in
    let first =
      replace-middle xs (replicate size 0) (le_bytes size v) (replicate pad 0 ++ zs) off size e
        (sym (length-replicate {A = ℕ} size 0)) in
    let second =
      pad-middle (off + size) pad (xs ++ le_bytes size v) zs
        (omega (arith, length-append xs (le_bytes size v), length-le_bytes size v)) in
    rw
      (
        split,
        extend-middle off xs _ e,
        first,
        ← append_assoc xs (le_bytes size v) (replicate pad 0 ++ zs),
      )
      (second ∙ simp append_assoc)

pub size_fits : (t : IntType) → 8 ≡ size_of t + pad_size (size_of t)
size_fits i64 = refl
size_fits u64_t = refl
size_fits i32 = refl
size_fits u32 = refl
size_fits i16 = refl
size_fits u16 = refl
size_fits i8 = refl
size_fits u8 = refl

-- The state of the stack while the loop is at an argument: what is done, its blank word, the blank
-- words of the arguments to come, and the buffers so far.
abbrev pub stack_at : List ℕ → List ℕ → List ℕ → List ℕ
stack_at pre mid tail = pre ++ (replicate 8 0 ++ (mid ++ tail))

module _ (m : Memory) (sp n off : ℕ) (pre mid tail : List ℕ) (start : length pre ≡ 176 + 8 * n)
    (end : off ≡ length (stack_at pre mid tail)) where
  scalar_step :
      (x : Arg) (size v : ℕ)
      → 8 ≡ size + pad_size size
      → set_scalar n x size v (stack_at pre mid tail)
        ≡ ok (record {
          arg = x;
          stack =
              pre ++ ((if ltb n 8 then replicate 8 0 else word size v) ++ (mid ++ (tail ++ [])));
          copied_in = not (ltb n 8);
          copied_out = false;
        })
  unfolding set_scalar
  scalar_step x size v fits = elim (Bool-cases (ltb n 8)) [
    | inl early ↦ rw (early, append-nil tail)
    | inr late ↦ rw (
      late,
      set_value_lem size v (param_area_offset + n * 8) pre (mid ++ tail) fits (omega arith),
      append-nil tail,
    )
  ]

  on_stack_step :
      (b l : ℕ) (i o : Bool)
      → set_on_stack m sp n b l i o (stack_at pre mid tail)
        ≡ ok (record {
          arg = on_stack b l i o (some (u64 (sp + off)));
          stack =
              pre
              ++ ((if ltb n 8 then replicate 8 0 else word 8 (u64 (sp + off)))
                  ++ (mid ++ (tail ++ stack_bytes m b l i)));
          copied_in = i;
          copied_out = o;
        })
  unfolding set_on_stack
  on_stack_step b l i o =
      let grown : stack_at pre mid tail ++ stack_bytes m b l i
          ≡ stack_at pre mid (tail ++ stack_bytes m b l i) =
        simp append_assoc in
      elim (Bool-cases (ltb n 8)) [
        | inl early ↦ rw (early, grown, ← end)
        | inr late ↦ rw (
          late,
          grown,
          ← end,
          set_value_lem 8 (u64 (sp + off)) (param_area_offset + 8 * n) pre
              (mid ++ (tail ++ stack_bytes m b l i)) refl (omega arith),
        )
      ]

  pub set_stack_image_step :
      (x : Arg)
      → set_stack_image m sp n (stack_at pre mid tail) x
        ≡ ok (record {
          arg = place sp off x;
          stack = pre ++ (param sp n off x ++ (mid ++ (tail ++ buffer m x)));
          copied_in = wants_in n x;
          copied_out = wants_out x;
        })
  unfolding set_stack_image
  set_stack_image_step (int_arg t v) = scalar_step (int_arg t v) (size_of t) v (size_fits t)
  set_stack_image_step (double_arg bits) = scalar_step (double_arg bits) 8 bits refl
  set_stack_image_step (float_arg bits) = scalar_step (float_arg bits) 8 (float_image bits) refl
  set_stack_image_step (on_stack b l i o a) = on_stack_step b l i o
