-- ===== src/Args/Layout/Fill.antt =====
-- The loop of `getStackImage` builds the described image, and `setup` its assertion.
use veoffload.Base.{
  ℕ, ◌+◌, ◌*◌, ◌≡◌, refl, ap, ◌∙◌, Bool, true, false, ◌||◌, some, List, [], ◌∷◌, ◌++◌, map,
  append-nil, append_assoc, arith, length, replicate, length-append, length-replicate,
  length-le_bytes, ok, u64, le_bytes, Memory,
}
use veoffload.Args.Image.{
  Arg, int_arg, double_arg, float_arg, on_stack, float_image, size_of, pad_size, size_on_stack,
}
use veoffload.Args.Setup.{fill}
use veoffload.Args.Layout.{
  word, param, buffer, wants_in, wants_out, params, buffers, placed, any_in, any_out, blank,
  length-buffer,
}
use veoffload.Args.Layout.Step.{set_stack_image_step, size_fits}

pub length-word : (size v : ℕ) → 8 ≡ size + pad_size size → length (word size v) ≡ 8
length-word size v fits =
    length-append (le_bytes size v) (replicate (pad_size size) 0)
    ∙ omega (arith, length-le_bytes size v, length-replicate {A = ℕ} (pad_size size) 0)

length-param : (sp n off : ℕ) (x : Arg) → length (param sp n off x) ≡ 8
length-param sp n off (int_arg t v) = ground (arith, length-word (size_of t) v (size_fits t))
length-param sp n off (double_arg bits) = ground (arith, length-word 8 bits refl)
length-param sp n off (float_arg bits) = ground (arith, length-word 8 (float_image bits) refl)
length-param sp n off (on_stack b l i o a) = ground (arith, length-word 8 (u64 (sp + off)) refl)

pub length-params : (sp n off : ℕ) (xs : List Arg) → length (params sp n off xs) ≡ 8 * length xs
unfolding params
length-params sp n off [] = refl
length-params sp n off (x ∷ xs) =
    length-append (param sp n off x) (params sp (n + 1) (off + size_on_stack x) xs)
    ∙ omega (arith, length-param sp n off x, length-params sp (n + 1) (off + size_on_stack x) xs)

length-parts :
    (ps qs rs ts : List ℕ)
    → length (ps ++ qs ++ (rs ++ ts)) ≡ length ps + length qs + length rs + length ts
length-parts ps qs rs ts =
    omega (arith, length-append (ps ++ qs) (rs ++ ts), length-append ps qs, length-append rs ts)

or_assoc : (a b c : Bool) → (a || b) || c ≡ a || (b || c)
or_assoc true b c = refl
or_assoc false b c = refl

or-false : (a : Bool) → a || false ≡ a
or-false true = refl
or-false false = refl

-- From argument `n` on, over blank words, the loop writes the words and appends the buffers.
pub fill_layout :
    (m : Memory) (sp n off : ℕ) (pre tail : List ℕ) (ci co : Bool) (xs : List Arg)
    → length pre ≡ 176 + 8 * n
    → off ≡ length (pre ++ (blank xs ++ tail))
    → fill m sp n (pre ++ (blank xs ++ tail)) ci co (map some xs)
      ≡ ok (record {
        arguments = map some (placed sp off xs);
        stack = pre ++ (params sp n off xs ++ (tail ++ buffers m xs));
        copied_in = ci || any_in n xs;
        copied_out = co || any_out xs;
      })
unfolding fill params buffers placed any_in any_out blank
fill_layout m sp n off pre tail ci co [] start end = rw (append-nil tail, or-false ci, or-false co)
fill_layout m sp n off pre tail ci co (x ∷ xs) start end =
    let word_x = param sp n off x in
    let bytes = buffer m x in
    let turn = set_stack_image_step m sp n off pre (blank xs) tail start end x in
    let rest =
      fill_layout m sp (n + 1) (off + size_on_stack x) (pre ++ word_x) (tail ++ bytes)
        (ci || wants_in n x) (co || wants_out x) xs
        (omega (arith, length-append pre word_x, length-param sp n off x))
        (omega (
          arith,
          length-parts pre word_x (blank xs) (tail ++ bytes),
          length-append tail bytes,
          length-param sp n off x,
          length-buffer m x,
          length-parts pre (replicate 8 0) (blank xs) tail,
          ap length (append_assoc pre (replicate 8 0) (blank xs ++ tail)),
        )) in
    rw
      (
        turn,
        ← append_assoc pre word_x (blank xs ++ (tail ++ bytes)),
        rest,
        or_assoc ci (wants_in n x) (any_in (n + 1) xs),
        or_assoc co (wants_out x) (any_out xs),
      )
      (simp append_assoc)
