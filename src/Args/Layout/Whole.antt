-- ===== src/Args/Layout/Whole.antt =====
-- `setup` as a whole: the image that it stores, when its assertion holds, and where it fails.
use veoffload.Base.{
  ℕ, ◌+◌, ◌*◌, ◌≡◌, refl, sym, ap, ◌∙◌, false, Option, none, some, List, [], ◌∷◌, ◌++◌, map,
  append-nil, arith, length, ◌>>◌, err, assertion, null_pointer, replicate, length-append,
  length-replicate, replicate-add, ok, err, Memory, ◌≤◌, ◌<◌, ◌^◌, int32, sign_extend32, sub64,
  length-map, ◌==◌, eqb_refl, veo_assert,
}
use veoffload.Args.Image.{Arg, size_on_stack}
use veoffload.Args.Setup.{CallArgs, accumulate, image_size, get_stack_image, setup}
use veoffload.Args.Layout.{
  params, buffers, placed, any_in, any_out, sizes, blank, blank-replicate, length-buffers,
}
use veoffload.Args.Layout.{length-buffers}
use veoffload.Args.Layout.Fill.{fill_layout, length-params}

-- The `int` sums keep the total modulo 2 ^ 32, whatever the sizes.
accumulate_lem :
    (acc : ℕ) (xs : List Arg)
    → acc < 2 ^ 32
    → accumulate acc (map some xs) ≡ ok (int32 (acc + sizes xs))
unfolding accumulate sizes
accumulate_lem acc [] small = ap ok (omega arith)
accumulate_lem acc (x ∷ xs) small =
    let total : ℕ = int32 (sign_extend32 acc + size_on_stack x) in
    accumulate_lem total xs (omega arith) ∙ ap ok (ground arith)

-- Where the first buffer starts in the image.
abbrev pub data_offset : List Arg → ℕ
data_offset xs = 176 + 8 * length xs

-- The size of the image, as it is and as `getStackImage` computes it.
abbrev pub total_size : List Arg → ℕ
total_size xs = data_offset xs + sizes xs

image_size_lem :
    (xs : List Arg) → image_size (map some xs) ≡ ok (sign_extend32 (int32 (total_size xs)))
unfolding image_size
image_size_lem xs =
    let same : int32 (176 + 8 * length xs + int32 (0 + sizes xs)) ≡ int32 (total_size xs) =
      omega arith in
    rw (accumulate_lem 0 xs (omega arith), length-map {0, 0} (λ (x : Arg). some x) xs)
      (ap (λ t. ok (sign_extend32 t)) same)

-- The image as described: the save area, the words, the buffers.
abbrev pub layout : Memory → ℕ → List Arg → List ℕ
layout m top xs = replicate 176 0 ++ (params top 0 (data_offset xs) xs ++ buffers m xs)

pub length-layout :
    (m : Memory) (top : ℕ) (xs : List Arg) → length (layout m top xs) ≡ total_size xs
length-layout m top xs =
    length-append (replicate 176 0) (params top 0 (data_offset xs) xs ++ buffers m xs)
    ∙ omega (
      arith,
      length-append (params top 0 (data_offset xs) xs) (buffers m xs),
      length-params top 0 (data_offset xs) xs,
      length-buffers m xs,
    )

-- The arguments after `setup`.
abbrev pub prepared : Memory → ℕ → CallArgs → List Arg → CallArgs
prepared m top a xs = record {
  arguments = map some (placed top (data_offset xs) xs);
  stack_top = top;
  stack_size = total_size xs;
  stack_buf = layout m top xs;
  copied_in = any_in 0 xs;
  copied_out = any_out xs;
}

-- `setup` up to its assertion, with the size that `getStackImage` computed.
setup_assert :
    (m : Memory) (sp : ℕ) (a : CallArgs) (xs : List Arg)
    → a.arguments ≡ map some xs
    → let size = sign_extend32 (int32 (total_size xs)) in
      let top = sub64 sp size in
      setup m sp a ≡ (
        veo_assert (size == total_size xs)
        >> ok (record (prepared m top a xs) { stack_size = size }, top))
unfolding setup get_stack_image
setup_assert m sp a xs full =
    let size : ℕ = sign_extend32 (int32 (total_size xs)) in
    let top = sub64 sp size in
    let count = length-map {0, 0} (λ (x : Arg). some x) xs in
    let start : replicate (data_offset xs) 0 ≡ replicate 176 0 ++ (blank xs ++ []) =
      replicate-add 176 (8 * length xs) (data_offset xs) 0 refl
      ∙ ap (◌++◌ (replicate 176 0))
          (blank-replicate xs (8 * length xs) refl ∙ sym (append-nil (blank xs))) in
    let built =
      fill_layout m top 0 (data_offset xs) (replicate 176 0) [] false false xs refl
        (sym (length-replicate {A = ℕ} (data_offset xs) 0) ∙ ap length start) in
    rw (full, image_size_lem xs, count, start, built, length-layout m top xs)

-- `setup` on arguments with no gap, whose image is smaller than 2 ^ 31 bytes: it meets no null
-- pointer, throws nothing, passes its assertion, lowers the stack pointer by the size of the image,
-- and stores exactly the described image, addresses and flags.
pub setup_layout :
    (m : Memory) (sp : ℕ) (a : CallArgs) (xs : List Arg)
    → a.arguments ≡ map some xs
    → total_size xs < 2 ^ 31
    → let top = sub64 sp (total_size xs) in setup m sp a ≡ ok (prepared m top a xs, top)
setup_layout m sp a xs full small =
    let exact : sign_extend32 (int32 (total_size xs)) ≡ total_size xs = ground arith in
    setup_assert m sp a xs full ∙ rw (exact, eqb_refl (total_size xs))

pub setup-prepared :
    (m : Memory) (sp : ℕ) (a c : CallArgs) (top : ℕ) (xs : List Arg)
    → a.arguments ≡ map some xs
    → total_size xs < 2 ^ 31
    → setup m sp a ≡ ok (c, top)
    → c ≡ prepared m top a xs
setup-prepared m sp a c top xs full small e =
    let same : ok (prepared m (sub64 sp (total_size xs)) a xs, sub64 sp (total_size xs))
        ≡ ok (c, top) =
      sym (setup_layout m sp a xs full small) ∙ e in
    cc same

-- `setup` aborts by its assertion on arguments with no gap whose image has 2 ^ 31 bytes or more (and
-- fewer than 2 ^ 63).
pub setup_too_large :
    (m : Memory) (sp : ℕ) (a : CallArgs) (xs : List Arg)
    → a.arguments ≡ map some xs
    → 2 ^ 31 ≤ total_size xs
    → total_size xs < 2 ^ 63
    → setup m sp a ≡ err assertion
setup_too_large m sp a xs full large bounded =
    let differs : (sign_extend32 (int32 (total_size xs)) == total_size xs) ≡ false = ground arith in
    setup_assert m sp a xs full ∙ rw differs

accumulate_gap :
    (acc : ℕ) (xs : List Arg) (rest : List (Option Arg))
    → accumulate acc (map some xs ++ none ∷ rest) ≡ err null_pointer
unfolding accumulate
accumulate_gap acc [] rest = refl
accumulate_gap acc (x ∷ xs) rest =
    accumulate_gap (int32 (sign_extend32 acc + size_on_stack x)) xs rest

-- `setup` follows a null pointer whenever an argument number below the greatest was never set.
pub setup_gap :
    (m : Memory) (sp : ℕ) (a : CallArgs) (xs : List Arg) (rest : List (Option Arg))
    → a.arguments ≡ map some xs ++ none ∷ rest
    → setup m sp a ≡ err null_pointer
unfolding setup get_stack_image image_size
setup_gap m sp a xs rest gap = rw (gap, accumulate_gap 0 xs rest)
