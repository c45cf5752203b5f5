-- ===== src/Execution/Blocks.antt =====
-- How the exception handler ends under the default filter.
use veoffload.Base.{
  ℕ, ◌≡◌, refl, ◌∙◌, ap, subst, ◌⊎◌, inl, inr, true, Bool-cases, pos, ok, ok_inj, bind-ok,
}
use veoffload.Context.State.{Context, state_running, state_blocked, contains}
use veoffload.Execution.Driver.{Driver, World, has_bits}
use veoffload.Execution.Filters.{
  Filtered, default_filter, default_filtered_syscalls, is_veo_block, status_exception,
  block_requested,
}
use veoffload.Execution.Exceptions.{
  Handled, wait_for_exception, system_call, handle_raised, handle_single_exception, is_fatal,
}

module _ {D : Type 0} (os : Driver D) where
  -- Nothing but the state of the VE and of the context may differ.
  abbrev pub Kept : World D → World D → Type 0
  Kept w w' = (w'.ctx ≡ record w.ctx { state = w'.ctx.state }) × (w'.vh ≡ w.vh) × (w'.args ≡ w.args)

  -- What a system call leaves, by its break flag.
  abbrev Passed : World D → Filtered os → Type 0
  Passed w f =
      Kept w f.world
      × (((f.break_flag ≡ 0) × (f.world.ctx.state ≡ state_running))
          ⊎ ((f.break_flag ≡ block_requested) × (f.world.ctx.state ≡ state_blocked)))

  system_call-Passed :
      (w : World D) → w.ctx.state ≡ state_running → Passed w (system_call os (default_filter os) w)
  unfolding system_call default_filter
  system_call-Passed w run =
      let n = os.syscall_num w.ve in
      elim (Bool-cases (contains n (default_filtered_syscalls os.numbers))) [
        | inl hit ↦ rw hit ((refl, refl, refl), inl (refl, run))
        | inr miss ↦ elim (Bool-cases (is_veo_block os w.ve n)) [
          | inl block ↦ rw (miss, block) ((refl, refl, refl), inr (refl, refl))
          | inr other ↦ rw (miss, other) ((refl, refl, refl), inl (refl, refl))
        ]
      ]

  -- The ends of `exceptionHandler` from RUNNING, and of one exception before them.
  abbrev pub Settled : Handled os → Type 0
  Settled h =
      ((h.status ≡ pos block_requested) × (h.world.ctx.state ≡ state_blocked))
      ⊎ ((h.status ≡ status_exception) × (is_fatal os.numbers h.exs ≡ true))

  abbrev pub Continued : Handled os → Type 0
  Continued h = (h.status ≡ pos 0) × (h.world.ctx.state ≡ state_running)

  pub raised_lem :
      (exs : ℕ) (w : World D)
      → w.ctx.state ≡ state_running
      → let h = handle_raised os (default_filter os) exs w in
        Kept w h.world × (Continued h ⊎ Settled h)
  unfolding handle_raised
  raised_lem exs w run = elim (Bool-cases (has_bits exs os.numbers.exs_monc)) [
    | inl call ↦
        let (kept, ends) = system_call-Passed w run in
        elim (Bool-cases (is_fatal os.numbers exs)) [
          | inl fatal ↦ rw (call, fatal) (kept, inr (inr (refl, fatal)))
          | inr fine ↦ elim ends [
            | inl (flag, state) ↦ rw (call, fine) (kept, inl (ap pos flag, state))
            | inr (flag, state) ↦ rw (call, fine) (kept, inr (inl (ap pos flag, state)))
          ]
        ]
    | inr none ↦ elim (Bool-cases (is_fatal os.numbers exs)) [
      | inl fatal ↦ rw (none, fatal) ((refl, refl, refl), inr (inr (refl, fatal)))
      | inr fine ↦ rw (none, fine) ((refl, refl, refl), inl (refl, run))
    ]
  ]

  single_lem :
      (patience : ℕ) (w : World D) (h : Handled os)
      → w.ctx.state ≡ state_running
      → handle_single_exception os patience (default_filter os) w ≡ ok h
      → Kept w h.world × (Continued h ⊎ Settled h)
  unfolding handle_single_exception
  single_lem patience w h run e =
      let (waited, got, last) =
        bind-ok (wait_for_exception os patience w.ve)
          (λ r. ok (handle_raised os (default_filter os) (r.0) (record w { ve = r.1 }))) h e in
      subst (λ k. Kept w k.world × (Continued k ⊎ Settled k)) (ok_inj last)
        (raised_lem (waited.0) (record w { ve = waited.1 }) run)

  pub Kept-trans : (u v w : World D) → Kept u v → Kept v w → Kept u w
  Kept-trans u v w (c, m, a) (c', m', a') =
      (c' ∙ ap {A = Context} (λ k. record k { state = w.ctx.state }) c, m' ∙ m, a' ∙ a)
