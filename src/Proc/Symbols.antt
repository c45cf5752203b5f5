-- ===== src/Proc/Symbols.antt =====
-- The map of symbols that `getSym` keeps.
use veoffload.Base.{
  ℕ, ◌≡◌, ◌≢◌, refl, sym, ap, ap₂, ◌∙◌, inl, inr, true, false, none, some, List, [], ◌∷◌, ltb, ◌==◌,
  length, Result, ok, err, ok_inj, arith, Bool-cases, Option-cases, eqb_refl,
}
use veoffload.Proc.Worker.{Worker}
use veoffload.Proc.Handle.{
  Symbol, ProcHandle, Text, same_text, same_symbol, find_symbol, store_symbol, keep_symbol,
  ask_symbol, get_sym, veo_symname_len_max,
}

same_text_refl : (cs : List ℕ) → same_text cs cs ≡ true
same_text_refl [] = refl
same_text_refl (c ∷ cs) = rw (eqb_refl c, same_text_refl cs)

same_symbol_refl : (k : Symbol) → same_symbol k k ≡ true
unfolding same_symbol
same_symbol_refl k = rw (eqb_refl (k.0), same_text_refl (k.1))

find_symbol-stored :
    (k : Symbol) (a : ℕ) (es : List (Symbol × ℕ)) → find_symbol k ((k, a) ∷ es) ≡ some a
unfolding find_symbol
find_symbol-stored k a es = rw (same_symbol_refl k, find_symbol) refl

same_text_eq : (cs ds : List ℕ) → same_text cs ds ≡ true → cs ≡ ds
same_text_eq [] [] e = refl
same_text_eq [] (d ∷ ds) e = absurd cc
same_text_eq (c ∷ cs) [] e = absurd cc
same_text_eq (c ∷ cs) (d ∷ ds) e =
    let (first, rest) : (c ≡ d) × (same_text cs ds ≡ true) = ground arith in
    ap₂ (λ (x : ℕ) (xs : List ℕ). x ∷ xs) first (same_text_eq cs ds rest)

same_symbol_eq : (j k : Symbol) → same_symbol j k ≡ true → j ≡ k
unfolding same_symbol
same_symbol_eq (i, cs) (i', ds) e =
    let (first, rest) : (i ≡ i') × (same_text cs ds ≡ true) = ground arith in
    ap₂ (λ x y. (x, y)) first (same_text_eq cs ds rest)

-- A new entry for a symbol that was missing hides no other.
find_symbol-other :
    (k j : Symbol) (b a : ℕ) (es : List (Symbol × ℕ))
    → find_symbol j es ≡ none
    → find_symbol k es ≡ some a
    → find_symbol k ((j, b) ∷ es) ≡ some a
unfolding find_symbol
find_symbol-other k j b a es missing found = elim (Bool-cases (same_symbol j k)) [
  | inl same ↦
      let clash : none ≡ some a =
        sym missing ∙ ap (λ x. find_symbol x es) (same_symbol_eq j k same) ∙ found in
      absurd cc
  | inr other ↦ rw (other, find_symbol) found
]

module _ {S : Type 0} (worker : Worker S) where
  -- A result that is an address other than 0 is in the map afterwards.
  keep_symbol_lem :
      (k : Symbol) (p p' : ProcHandle) (r : Result ℕ × S) (a : ℕ) (s' : S)
      → a ≢ 0
      → keep_symbol worker k p r ≡ (ok a, p', s')
      → find_symbol k p'.sym_name ≡ some a
  unfolding keep_symbol
  keep_symbol_lem k p p' (err e, s) a s' nonzero h = cc
  keep_symbol_lem k p p' (ok b, s) a s' nonzero h = elim (Bool-cases (b == 0)) [
    | inl zero ↦ absurd (ground arith)
    | inr other ↦
        let stored : (ok b, store_symbol k b p, s) ≡ (ok a, p', s') = rw other at h in
        ap (λ q. find_symbol k q.sym_name) (sym (ap (λ r. r.1) stored))
        ∙ find_symbol-stored k b p.sym_name
        ∙ ap some (ok_inj (ap (λ r. r.0) stored))
  ]

  get_sym-found :
      (libhdl : ℕ) (name : Text) (p : ProcHandle) (s : S) (a : ℕ)
      → ltb veo_symname_len_max (length name.chars) ≡ false
      → find_symbol (libhdl, name.chars) p.sym_name ≡ some a
      → get_sym worker libhdl name p s ≡ (ok a, p, s)
  unfolding get_sym
  get_sym-found libhdl name p s a short found = rw (short, found, get_sym) refl

  -- An address that `getSym` gives is in the map afterwards, unless it is 0.
  get_sym-stored :
      (libhdl : ℕ) (name : Text) (p p' : ProcHandle) (s s' : S) (a : ℕ)
      → a ≢ 0
      → get_sym worker libhdl name p s ≡ (ok a, p', s')
      → (ltb veo_symname_len_max (length name.chars) ≡ false)
        × (find_symbol (libhdl, name.chars) p'.sym_name ≡ some a)
  unfolding get_sym ask_symbol
  get_sym-stored libhdl name p p' s s' a nonzero h =
      elim (Bool-cases (ltb veo_symname_len_max (length name.chars))) [
        | inl long ↦ absurd (ground arith)
        | inr short ↦ elim (Option-cases (find_symbol (libhdl, name.chars) p.sym_name)) [
          | inr (b, found) ↦
              let same : (ok b, p, s) ≡ (ok a, p', s') =
                sym (get_sym-found libhdl name p s b short found) ∙ h in
              (
                short,
                ap (λ q. find_symbol (libhdl, name.chars) q.sym_name) (sym (ap (λ r. r.1) same))
                    ∙ found
                    ∙ ap some (ok_inj (ap (λ r. r.0) same)),
              )
          | inl missing ↦ (
            short,
            keep_symbol_lem (libhdl, name.chars) p p' _ a s' nonzero (rw (short, missing) at h),
          )
        ]
      ]

  -- A symbol that is in the map stays there with its address, whichever symbol is asked for next.
  keep_symbol-found :
      (k j : Symbol) (p : ProcHandle) (r : Result ℕ × S) (a : ℕ)
      → find_symbol j p.sym_name ≡ none
      → find_symbol k p.sym_name ≡ some a
      → find_symbol k (keep_symbol worker j p r).1.sym_name ≡ some a
  unfolding keep_symbol
  keep_symbol-found k j p (err e, s) a missing found = found
  keep_symbol-found k j p (ok b, s) a missing found = elim (Bool-cases (b == 0)) [
    | inl zero ↦ rw zero found
    | inr other ↦ rw other (find_symbol-other k j b a p.sym_name missing found)
  ]

  get_sym-kept :
      (libhdl : ℕ) (name : Text) (k : Symbol) (p : ProcHandle) (s : S) (a : ℕ)
      → find_symbol k p.sym_name ≡ some a
      → find_symbol k (get_sym worker libhdl name p s).1.sym_name ≡ some a
  unfolding get_sym ask_symbol
  get_sym-kept libhdl name k p s a found =
      elim (Bool-cases (ltb veo_symname_len_max (length name.chars))) [
        | inl long ↦ rw (long, get_sym) found
        | inr short ↦ elim (Option-cases (find_symbol (libhdl, name.chars) p.sym_name)) [
          | inr (b, there) ↦ rw (short, there, get_sym) found
          | inl missing ↦
              rw (short, missing, get_sym)
                (keep_symbol-found k (libhdl, name.chars) p _ a missing found)
        ]
      ]

  -- The handle and the state after one `getSym` after another, whatever each gives or throws.
  unfoldable pub after_lookups : List (ℕ × Text) → ProcHandle → S → ProcHandle × S
  after_lookups [] p s = (p, s)
  after_lookups ((libhdl, name) ∷ rest) p s =
      let (r, p', s') = get_sym worker libhdl name p s in after_lookups rest p' s'

  after_lookups-kept :
      (asked : List (ℕ × Text)) (k : Symbol) (p : ProcHandle) (s : S) (a : ℕ)
      → find_symbol k p.sym_name ≡ some a
      → find_symbol k (after_lookups asked p s).0.sym_name ≡ some a
  unfolding after_lookups
  after_lookups-kept [] k p s a found = found
  after_lookups-kept ((libhdl, name) ∷ rest) k p s a found =
      after_lookups-kept rest k _ _ a (get_sym-kept libhdl name k p s a found)

  -- Once `getSym` has given an address other than 0, it gives the same address for the same library
  -- handle and the same text, wherever that text stands, after any number of calls of `getSym` for
  -- symbols of any kind, whatever they gave or threw, and in any state of the worker: without a request
  -- to the worker, and with the handle and the state as they are.
  pub get_sym_again :
      (libhdl : ℕ) (name name' : Text) (asked : List (ℕ × Text)) (p p' : ProcHandle) (s s' t : S)
      (a : ℕ)
      → name'.chars ≡ name.chars
      → a ≢ 0
      → get_sym worker libhdl name p s ≡ (ok a, p', s')
      → let q = (after_lookups asked p' s').0 in get_sym worker libhdl name' q t ≡ (ok a, q, t)
  get_sym_again libhdl name name' asked p p' s s' t a same nonzero h =
      let (short, found) = get_sym-stored libhdl name p p' s s' a nonzero h in
      get_sym-found libhdl name' (after_lookups asked p' s').0 t a
        (ap (λ cs. ltb veo_symname_len_max (length cs)) same ∙ short)
        (after_lookups-kept asked (libhdl, name'.chars) p' s' a
          (ap (λ cs. find_symbol (libhdl, cs) p'.sym_name) same ∙ found))
