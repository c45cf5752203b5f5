-- ===== src/Args/Transfer.antt =====
-- `copyin` and `copyout` around a call: what reaches the VE, and what comes back to the VH buffers.
use mathlib.Core.Path.{fun_ext}
use veoffload.Base.{
  ℕ, zero, suc, ◌+◌, ◌≡◌, refl, sym, ap, ◌∙◌, true, false, some, List, [], ◌∷◌, ◌++◌, map,
  append_assoc, arith, leb, if◌then◌else◌, length, ℤ, store, store_byte, subst, take, drop, ok, u64,
  Memory, load, Bool-cases, inl, inr, ◌≤◌, ◌<◌, ◌^◌, sub64,
}
use veoffload.Args.Image.{Arg, int_arg, double_arg, float_arg, on_stack, size_on_stack}
use veoffload.Args.Setup.{CallArgs, setup}
use veoffload.Args.Layout.{place, placed, any_out, sizes}
use veoffload.Args.Image.{slice, copyout_from_stack_image}
use veoffload.Args.Setup.{copyout, copyout_all}
use veoffload.Args.Layout.Whole.{data_offset, total_size, layout, setup-prepared, length-layout}
use veoffload.Args.Buffers.{buffer_in_layout, sizes-append}

-- What comes back from the image `img` for one argument whose buffer is at `off`, and for all.
abbrev pub write_back_one : ℕ → List ℕ → Memory → Arg → Memory
write_back_one off img m (int_arg t v) = m
write_back_one off img m (double_arg bits) = m
write_back_one off img m (float_arg bits) = m
write_back_one off img m (on_stack b l i o v) = if o then store m b (take l (drop off img)) else m

pub write_back : ℕ → List ℕ → Memory → List Arg → Memory
write_back off img m [] = m
write_back off img m (x ∷ xs) =
    write_back (off + size_on_stack x) img (write_back_one off img m x) xs

copyout-place :
    (top off : ℕ) (img : List ℕ) (m : Memory) (x : Arg)
    → off + size_on_stack x ≤ length img
    → length img < 2 ^ 64
    → top < 2 ^ 64
    → copyout_from_stack_image top img m (place top off x) ≡ ok (write_back_one off img m x)
unfolding copyout_from_stack_image size_on_stack slice
copyout-place top off img m (int_arg t v) inside small fits = refl
copyout-place top off img m (double_arg bits) inside small fits = refl
copyout-place top off img m (float_arg bits) inside small fits = refl
copyout-place top off img m (on_stack b l i false v) inside small fits = refl
copyout-place top off img m (on_stack b l i true v) inside small fits =
    let back : sub64 (u64 (top + off)) top ≡ off = omega arith in
    let holds : leb (off + l) (length img) ≡ true = ground arith in rw (back, holds)

copyout_all-placed :
    (top off : ℕ) (img : List ℕ) (m : Memory) (xs : List Arg)
    → off + sizes xs ≤ length img
    → length img < 2 ^ 64
    → top < 2 ^ 64
    → copyout_all top img m (map some (placed top off xs)) ≡ ok (write_back off img m xs)
unfolding copyout_all placed write_back sizes
copyout_all-placed top off img m [] inside small fits = refl
copyout_all-placed top off img m (x ∷ xs) inside small fits =
    rw (copyout-place top off img m x (omega arith) small fits) (
      copyout_all-placed top (off + size_on_stack x) img (write_back_one off img m x) xs
        (omega arith) small fits)

module _ {ℓ} {S : Type ℓ} (xfer : ℕ → ℕ → List ℕ → S → ℤ × List ℕ × S) where
  -- After a successful `setup`, where the transfer fills the whole buffer, `copyout` follows no null
  -- pointer and stays inside the image: each buffer that is copied out receives exactly the bytes that
  -- the VE left at its address, in the order of the arguments. If no argument is copied out, nothing is
  -- transferred.
  pub copyout-setup :
      (m m' : Memory) (sp : ℕ) (a c : CallArgs) (top : ℕ) (xs : List Arg) (s : S)
      → a.arguments ≡ map some xs
      → total_size xs < 2 ^ 31
      → top < 2 ^ 64
      → setup m sp a ≡ ok (c, top)
      → let r = xfer top (total_size xs) (layout m top xs) s in
        length (r.1) ≡ total_size xs
        → copyout xfer c m' s
          ≡ ok (
              if any_out xs
              then (record c { stack_buf = r.1 }, write_back (data_offset xs) (r.1) m' xs, r.2)
              else (c, m', s))
  unfolding copyout
  copyout-setup m m' sp a c top xs s full small fits e filled =
      rw (setup-prepared m sp a c top xs full small e) (elim (Bool-cases (any_out xs)) [
        | inl out ↦ rw (
          out,
          copyout_all-placed top (data_offset xs) ((xfer top (total_size xs) (layout m top xs) s).1)
              m' xs (omega arith) (omega arith) fits,
        )
        | inr none_out ↦ rw none_out
      ])

store_byte_self : (m : Memory) (a : ℕ) → store_byte m a (m a) ≡ m
store_byte_self m a = fun_ext λ b. ground arith

store-load : (m : Memory) (a n : ℕ) → store m a (load m a n) ≡ m
store-load m a zero = refl
store-load m a (suc n) =
    ap (λ m'. store m' (a + 1) (load m (a + 1) n)) (store_byte_self m a) ∙ store-load m (a + 1) n

slice-eq :
    (off len : ℕ) (img ys : List ℕ) → slice off len img ≡ ok ys → take len (drop off img) ≡ ys
unfolding slice
slice-eq off len img ys e = ground arith

-- An argument that is copied out is copied in as well.
abbrev pub IsInout : Arg → Type 0
IsInout (int_arg t v) = Unit {0}
IsInout (double_arg bits) = Unit {0}
IsInout (float_arg bits) = Unit {0}
IsInout (on_stack b l i o v) = o ≡ true → i ≡ true

abbrev pub AllInout : List Arg → Type 0
AllInout [] = Unit {0}
AllInout (x ∷ xs) = IsInout x × AllInout xs

write_back_one-unchanged :
    (m : Memory) (top : ℕ) (done : List Arg) (x : Arg) (xs : List Arg)
    → IsInout x
    → let zs = done ++ x ∷ xs in
      write_back_one (data_offset zs + sizes done) (layout m top zs) m x ≡ m
write_back_one-unchanged m top done (int_arg t v) xs h = refl
write_back_one-unchanged m top done (double_arg bits) xs h = refl
write_back_one-unchanged m top done (float_arg bits) xs h = refl
write_back_one-unchanged m top done (on_stack b l i false v) xs h = refl
write_back_one-unchanged m top done (on_stack b l true true v) xs h =
    let zs = done ++ on_stack b l true true v ∷ xs in
    ap (store m b) (
      slice-eq (data_offset zs + sizes done) l (layout m top zs) (load m b l)
        (buffer_in_layout m top done xs b l true true v))
    ∙ store-load m b l
write_back_one-unchanged m top done (on_stack b l false true v) xs h = cc (h refl)

write_back-unchanged :
    (m : Memory) (top : ℕ) (zs done todo : List Arg)
    → zs ≡ done ++ todo
    → AllInout todo
    → write_back (data_offset zs + sizes done) (layout m top zs) m todo ≡ m
unfolding write_back sizes
write_back-unchanged m top zs done [] e h = refl
write_back-unchanged m top zs done (x ∷ xs) e h =
    let next : data_offset zs + sizes done + size_on_stack x
        ≡ data_offset zs + sizes (done ++ x ∷ []) =
      omega (arith, sizes-append done (x ∷ [])) in
    let one : write_back_one (data_offset zs + sizes done) (layout m top zs) m x ≡ m =
      subst (λ ws. write_back_one (data_offset ws + sizes done) (layout m top ws) m x ≡ m) (sym e)
        (write_back_one-unchanged m top done x xs h.0) in
    rw (next, one)
      (write_back-unchanged m top zs (done ++ x ∷ []) xs (e ∙ sym (append_assoc done (x ∷ []) xs))
        h.1)

write_back-all :
    (m : Memory) (top : ℕ) (xs : List Arg)
    → AllInout xs
    → write_back (data_offset xs) (layout m top xs) m xs ≡ m
unfolding sizes
write_back-all m top xs both =
    let start : data_offset xs ≡ data_offset xs + sizes [] = omega arith in
    ap (λ off. write_back off (layout m top xs) m xs) start
    ∙ write_back-unchanged m top xs [] xs refl both

-- Where each argument that is copied out is copied in as well, and the transfer brings back the
-- image that `setup` stored (the VE function left it as it was), `copyout` leaves every byte of the
-- VH memory as it was at `setup`.
pub copyout_unchanged :
    {S : Type 0} (xfer : ℕ → ℕ → List ℕ → S → ℤ × List ℕ × S) (m : Memory) (sp : ℕ) (a c : CallArgs)
    (top : ℕ) (xs : List Arg) (s : S)
    → a.arguments ≡ map some xs
    → total_size xs < 2 ^ 31
    → top < 2 ^ 64
    → AllInout xs
    → setup m sp a ≡ ok (c, top)
    → (xfer top (total_size xs) (layout m top xs) s).1 ≡ layout m top xs
    → (c' : CallArgs) × (s' : S) × (copyout xfer c m s ≡ ok (c', m, s'))
copyout_unchanged xfer m sp a c top xs s full small fits both e same =
    let r = xfer top (total_size xs) (layout m top xs) s in
    let filled : length (r.1) ≡ total_size xs = ap length same ∙ length-layout m top xs in
    let done = copyout-setup xfer m m sp a c top xs s full small fits e filled in
    let kept : write_back (data_offset xs) (r.1) m xs ≡ m =
      ap (λ img. write_back (data_offset xs) img m xs) same ∙ write_back-all m top xs both in
    elim (Bool-cases (any_out xs)) [
      | inl out ↦ (record c { stack_buf = r.1 }, r.2, done ∙ rw (out, kept))
      | inr none_out ↦ (c, s, done ∙ rw none_out)
    ]
