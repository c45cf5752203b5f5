-- ===== src/Execution/Frame.antt =====
-- What the exception handler leaves as it is, under any of the filters.
use veoffload.Base.{
  ℕ, zero, suc, ◌≡◌, refl, ap, subst, inl, inr, Bool, true, false, Bool-cases, pos, ok, ok_inj,
  bind-ok, ◌>>=◌, ◌==◌,
}
use veoffload.Context.State.{Context, state_running, contains}
use veoffload.Execution.Driver.{Driver, World, has_bits}
use veoffload.Execution.Filters.{
  Filter, default_filter, hook_clone_filter, default_filtered_syscalls, is_veo_block,
}
use veoffload.Execution.Exceptions.{
  Handled, wait_for_exception, system_call, handle_raised, handle_single_exception,
  exception_handler, is_fatal, is_zero, is_running,
}
use veoffload.Execution.Blocks.{Kept, Kept-trans}

module _ {D : Type 0} (os : Driver D) where
  -- The filter keeps everything but the states.
  abbrev pub IsFrame : Filter os → Type 0
  IsFrame filter = (n : ℕ) (w : World D) → Kept os w (filter n w).world

  pub default_filter-IsFrame : IsFrame (default_filter os)
  unfolding default_filter
  default_filter-IsFrame n w =
      elim (Bool-cases (contains n (default_filtered_syscalls os.numbers))) [
        | inl hit ↦ rw hit (refl, refl, refl)
        | inr miss ↦ elim (Bool-cases (is_veo_block os w.ve n)) [
          | inl block ↦ rw (miss, block) (refl, refl, refl)
          | inr other ↦ rw (miss, other) (refl, refl, refl)
        ]
      ]

  pub hook_clone_filter-IsFrame : IsFrame (hook_clone_filter os)
  unfolding hook_clone_filter
  hook_clone_filter-IsFrame n w = elim (Bool-cases (n == os.numbers.nr_clone)) [
    | inl hit ↦ rw hit (refl, refl, refl)
    | inr miss ↦ rw miss (default_filter-IsFrame n w)
  ]

  module _ (filter : Filter os) (frame : IsFrame filter) where
    system_call-Kept : (w : World D) → Kept os w (system_call os filter w).world
    unfolding system_call
    system_call-Kept w =
        let n = os.syscall_num w.ve in
        let (c, m, a) = frame n w in
        elim (Bool-cases (filter n w).filtered) [
          | inl hit ↦ rw hit (c, m, a)
          | inr miss ↦ rw miss (ap {A = Context} (λ k. record k { state = state_running }) c, m, a)
        ]

    handle_raised-Kept : (exs : ℕ) (w : World D) → Kept os w (handle_raised os filter exs w).world
    unfolding handle_raised
    handle_raised-Kept exs w = elim (Bool-cases (has_bits exs os.numbers.exs_monc)) [
      | inl call ↦ elim (Bool-cases (is_fatal os.numbers exs)) [
        | inl fatal ↦ rw (call, fatal) (system_call-Kept w)
        | inr fine ↦ rw (call, fine) (system_call-Kept w)
      ]
      | inr none ↦ elim (Bool-cases (is_fatal os.numbers exs)) [
        | inl fatal ↦ rw (none, fatal) (refl, refl, refl)
        | inr fine ↦ rw (none, fine) (refl, refl, refl)
      ]
    ]

    single-Kept :
        (p : ℕ) (w : World D) (h : Handled os)
        → handle_single_exception os p filter w ≡ ok h
        → Kept os w h.world
    unfolding handle_single_exception
    single-Kept p w h e =
        let (r, got, last) =
          bind-ok (wait_for_exception os p w.ve)
            (λ r. ok (handle_raised os filter (r.0) (record w { ve = r.1 }))) h e in
        subst (λ k. Kept os w k.world) (ok_inj last)
          (handle_raised-Kept (r.0) (record w { ve = r.1 }))

    status-Kept :
        (p f : ℕ) (w : World D) (k h : Handled os) (b : Bool)
        → (elim b [ true ↦ exception_handler os p f filter k.exs k.world | false ↦ ok k ]) ≡ ok h
        → Kept os w k.world
        → ((e : ℕ) (v : World D) → exception_handler os p f filter e v ≡ ok h → Kept os v h.world)
        → Kept os w h.world
    status-Kept p f w k h true e first rest =
        Kept-trans os w k.world h.world first (rest k.exs k.world e)
    status-Kept p f w k h false e first rest = subst (λ v. Kept os w v.world) (ok_inj e) first

    -- One round, by the state that it starts in and then by the status of the exception.
    round-Kept :
        (p f exs : ℕ) (w : World D) (h : Handled os) (b : Bool)
        → (elim b [
          | false ↦ ok (record { status = pos 0; exs = exs; world = w })
          | true ↦ handle_single_exception os p filter w >>= (λ k. elim (is_zero k.status) [
            | true ↦ exception_handler os p f filter k.exs k.world
            | false ↦ ok k
          ])
        ])
          ≡ ok h
        → ((e : ℕ) (v : World D) → exception_handler os p f filter e v ≡ ok h → Kept os v h.world)
        → Kept os w h.world
    round-Kept p f exs w h false e rest =
        subst (λ k. Kept os w k.world) (ok_inj e) (refl, refl, refl)
    round-Kept p f exs w h true e rest =
        let (k, got, last) =
          bind-ok (handle_single_exception os p filter w)
            (λ k. elim (is_zero k.status) [
              | true ↦ exception_handler os p f filter k.exs k.world
              | false ↦ ok k
            ])
            h e in
        status-Kept p f w k h (is_zero k.status) last (single-Kept p w k got) rest

    -- The handler keeps everything but the states.
    pub exception_handler-Kept :
        (p f exs : ℕ) (w : World D) (h : Handled os)
        → exception_handler os p f filter exs w ≡ ok h
        → Kept os w h.world
    unfolding exception_handler
    exception_handler-Kept p zero exs w h e = cc
    exception_handler-Kept p (suc f) exs w h e =
        round-Kept p f exs w h (is_running w.ctx.state) e
          (λ e' v. exception_handler-Kept p f e' v h)
