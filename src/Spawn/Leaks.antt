-- ===== src/Spawn/Leaks.antt =====
-- `spawn_helper` as a whole closes what it opened.
use veoffload.Base.{
  ℕ, ◌≡◌, refl, sym, ◌∙◌, ap, true, false, Bool-cases, inl, inr, List, ◌∷◌, ltb, ◌==◌, length, ℤ,
  pos, negsuc, ok, err, ok_inj, out_of_range, exception, assertion,
}
use veoffload.Steps.{Step, give, fail, lift, change, ◌>>=◌, ◌>>◌}
use veoffload.Steps.Keeps.{Keeps, if-Keeps, then-Keeps, step-ok}
use veoffload.Execution.Clone.{is_negative}
use veoffload.Execution.Exceptions.{is_minus_one}
use veoffload.Spawn.Host.{Host}
use veoffload.Spawn.Descriptors.{IsHost}
use veoffload.Spawn.Area.{
  use_area, map_area, make_area, init_lhm_shm_area, or_abort, init_rwlock, get_ve_node_num,
  map_failed, page_size_4kb,
}
use veoffload.Spawn.Helper.{map_ptrace_page, use_args_file, request_helper, spawn_helper}
use veoffload.Spawn.Files.{request_proc_lem}

is_minus_one-negative : (z : ℤ) → is_minus_one z ≡ true → is_negative z ≡ true
is_minus_one-negative (pos n) e = absurd cc
is_minus_one-negative (negsuc n) e = refl

module _ {H : Type 0} (host : Host H) (files : H → List ℤ) (is_host : IsHost host files) where
  use_area-Keeps : (fd : ℤ) (area : ℕ) → Keeps files (use_area host fd area)
  unfolding use_area
  use_area-Keeps fd area =
      if-Keeps files (area == map_failed) (give (negsuc 0)) _ (λ h. refl)
        (λ h.
          is_host.set_shm_lhm_addr_keeps area (host.clear_page area h)
          ∙ is_host.clear_page_keeps area h)

  use_area_lem :
      (fd v : ℤ) (area : ℕ) (h : H)
      → (use_area host fd area h).0 ≡ ok v
      → is_negative v ≡ false
      → v ≡ fd
  unfolding use_area
  use_area_lem fd v area h e positive = elim (Bool-cases (area == map_failed)) [
    | inl failed ↦
        let same : negsuc 0 ≡ v = ok_inj (rw failed at e) in
        absurd (let b : is_negative (negsuc 0) ≡ false = ap is_negative same ∙ positive in cc)
    | inr mapped ↦ sym (ok_inj (rw mapped at e))
  ]

  map_area-Keeps : (fd : ℤ) → Keeps files (map_area host fd)
  unfolding map_area
  map_area-Keeps fd h =
      let r = host.truncate fd page_size_4kb h in
      if-Keeps files (is_minus_one (r.0)) (give (r.0)) _ (λ h. refl)
        (λ h.
          use_area-Keeps fd ((host.map_shared fd page_size_4kb h).0)
            ((host.map_shared fd page_size_4kb h).1)
          ∙ is_host.map_shared_keeps fd page_size_4kb h)
        (r.1)
      ∙ is_host.truncate_keeps fd page_size_4kb h

  map_area_lem : (fd v : ℤ) (h : H) → (map_area host fd h).0 ≡ ok v → is_negative v ≡ false → v ≡ fd
  unfolding map_area
  map_area_lem fd v h e positive =
      let r = host.truncate fd page_size_4kb h in
      elim (Bool-cases (is_minus_one (r.0))) [
        | inl failed ↦
            let same : r.0 ≡ v = ok_inj (rw failed at e) in
            absurd (
              let b : true ≡ false =
                sym (is_minus_one-negative (r.0) failed) ∙ ap is_negative same ∙ positive in
              cc)
        | inr long ↦
            use_area_lem fd v ((host.map_shared fd page_size_4kb (r.1)).0)
              ((host.map_shared fd page_size_4kb (r.1)).1) (rw long at e) positive
      ]

  make_area_lem :
      (sock : List ℕ) (node : ℕ) (h : H) (made : ℤ × ℕ × List ℕ)
      → (make_area host sock node h).0 ≡ ok made
      → is_negative (made.0) ≡ false
      → files ((make_area host sock node h).1) ≡ made.0 ∷ files h
  unfolding make_area
  make_area_lem sock node h made e positive =
      let r = host.make_temp (host.dir_name sock) node h in
      elim (Bool-cases (is_negative ((r.0).0))) [
        | inl refused ↦
            let same : (negsuc 0, node, (r.0).1) ≡ made = ok_inj (rw refused at e) in
            absurd (let b : true ≡ false = ap (λ m. is_negative (m.0)) same ∙ positive in cc)
        | inr opened ↦
            let next : ℤ → Step H (ℤ × ℕ × List ℕ) = λ retval. give (retval, node, (r.0).1) in
            let (v, found, last) =
              step-ok (map_area host ((r.0).0)) next (r.1) made (rw opened at e) in
            let same : (v, node, (r.0).1) ≡ made =
              ok_inj (sym (ap (λ q. q.0) last) ∙ rw opened at e) in
            rw opened (
              ap (λ q. files (q.1)) last
              ∙ map_area-Keeps ((r.0).0) (r.1)
              ∙ is_host.make_temp_opens (host.dir_name sock) node h opened
              ∙ ap (λ z. z ∷ files h)
                  (sym (
                      map_area_lem ((r.0).0) v (r.1) found
                        (ap is_negative (ap (λ m. m.0) same) ∙ positive))
                    ∙ ap (λ m. m.0) same))
      ]

  -- The descriptors are those before, with that of the area first.
  init_lhm_shm_area_lem :
      (sock : List ℕ) (h : H) (made : ℤ × ℕ × List ℕ)
      → (init_lhm_shm_area host sock h).0 ≡ ok made
      → is_negative (made.0) ≡ false
      → files ((init_lhm_shm_area host sock h).1) ≡ made.0 ∷ files h
  unfolding init_lhm_shm_area
  init_lhm_shm_area_lem sock h made e positive =
      let (node, found, last) =
        step-ok (lift (get_ve_node_num (host.base_name sock))) (make_area host sock) h made e in
      ap (λ q. files (q.1)) last
      ∙ make_area_lem sock node h made (sym (ap (λ q. q.0) last) ∙ e) positive

  or_abort-Keeps :
      (f : H → ℕ × H) → ((h : H) → files (f h).1 ≡ files h) → Keeps files (or_abort host f)
  unfolding or_abort
  or_abort-Keeps f keeps h =
      if-Keeps files ((f h).0 == 0) (give tt) (fail assertion) (λ h. refl) (λ h. refl) ((f h).1)
      ∙ keeps h

  init_rwlock-Keeps : Keeps files (init_rwlock host)
  unfolding init_rwlock
  init_rwlock-Keeps =
      then-Keeps files (or_abort host host.rwlockattr_init) _
        (or_abort-Keeps host.rwlockattr_init is_host.rwlockattr_init_keeps)
        (then-Keeps files (or_abort host host.rwlockattr_setkind) _
          (or_abort-Keeps host.rwlockattr_setkind is_host.rwlockattr_setkind_keeps)
          (then-Keeps files (or_abort host host.rwlock_init)
            (change (λ h. (host.rwlockattr_destroy h).1))
            (or_abort-Keeps host.rwlock_init is_host.rwlock_init_keeps)
            is_host.rwlockattr_destroy_keeps))

  map_ptrace_page-Keeps : Keeps files (map_ptrace_page host)
  unfolding map_ptrace_page
  map_ptrace_page-Keeps h =
      let r = host.map_private h in
      let address = (r.0).0 in
      if-Keeps files (address == map_failed) (fail (exception ((r.0).1))) _ (λ h. refl)
        (if-Keeps files (address == host.ptrace_private_data) (change (host.clear_page address)) _
          (is_host.clear_page_keeps address) (is_host.unmap_keeps address))
        (r.1)
      ∙ is_host.map_private_keeps h

  use_args_file_lem :
      (area : ℤ × ℕ × List ℕ) (name env : List ℕ) (h : H) (fs : List ℤ) (rv : ℤ)
      → (is_negative (area.0) ≡ false → files h ≡ area.0 ∷ fs)
      → (use_args_file host area name env h).0 ≡ ok rv
      → files ((use_args_file host area name env h).1) ≡ fs
  unfolding use_args_file
  use_args_file_lem (ret, node, sfile) name env h fs rv opened e =
      elim (Bool-cases (is_negative ret)) [
        | inl failed ↦ absurd (let b : err (exception 0) ≡ ok rv = rw failed at e in cc)
        | inr made ↦
            rw made (request_proc_lem host files is_host ret node sfile name env h fs (opened made))
      ]

  request_helper_lem :
      (area : ℤ × ℕ × List ℕ) (bin env : List ℕ) (h : H) (rv : ℤ)
      → (request_helper host bin env area h).0 ≡ ok rv
      → (use_args_file host area bin env h).0 ≡ ok rv
        × (request_helper host bin env area h ≡ use_args_file host area bin env h)
  unfolding request_helper
  request_helper_lem area bin env h rv e = elim (Bool-cases (ltb (length bin) host.path_max)) [
    | inl short ↦ (rw short at e, rw short refl)
    | inr long ↦ absurd (let b : err out_of_range ≡ ok rv = rw long at e in cc)
  ]

  use_args_file-made :
      (area : ℤ × ℕ × List ℕ) (bin env : List ℕ) (h : H) (rv : ℤ)
      → (use_args_file host area bin env h).0 ≡ ok rv
      → is_negative (area.0) ≡ false
  unfolding use_args_file
  use_args_file-made (ret, node, sfile) bin env h rv e = elim (Bool-cases (is_negative ret)) [
    | inl failed ↦ absurd (let b : err (exception 0) ≡ ok rv = rw failed at e in cc)
    | inr made ↦ made
  ]

  -- Where only `mkstemp` opens a file descriptor and `close` closes the one that it is given: a run of
  -- `spawn_helper` that returns, with success or with the status of any call that failed, leaves the
  -- same descriptors open as before. The file of the system call arguments is closed on each path.
  pub spawn_helper-files :
      (sock bin env : List ℕ) (h : H) (rv : ℤ)
      → (spawn_helper host sock bin env h).0 ≡ ok rv
      → files ((spawn_helper host sock bin env h).1) ≡ files h
  unfolding spawn_helper
  spawn_helper-files sock bin env h rv e =
      let with_area : Step H ℤ = init_lhm_shm_area host sock >>= request_helper host bin env in
      let with_lock : Step H ℤ = init_rwlock host >> with_area in
      let with_tids : Step H ℤ = change host.init_tids >> with_lock in
      let h₁ = (map_ptrace_page host h).1 in
      let h₂ = host.init_tids h₁ in
      let h₃ = (init_rwlock host h₂).1 in
      let (u₁, e₁, s₁) = step-ok (map_ptrace_page host) (λ u. with_tids) h rv e in
      let last₁ : (with_lock h₂).0 ≡ ok rv = sym (ap (λ q. q.0) s₁) ∙ e in
      let (u₃, e₃, s₃) = step-ok (init_rwlock host) (λ u. with_area) h₂ rv last₁ in
      let last₃ : (with_area h₃).0 ≡ ok rv = sym (ap (λ q. q.0) s₃) ∙ last₁ in
      let (area, made, s₄) =
        step-ok (init_lhm_shm_area host sock) (request_helper host bin env) h₃ rv last₃ in
      let h₄ = (init_lhm_shm_area host sock h₃).1 in
      let (used, same) = request_helper_lem area bin env h₄ rv (sym (ap (λ q. q.0) s₄) ∙ last₃) in
      let opened =
        init_lhm_shm_area_lem sock h₃ area made (use_args_file-made area bin env h₄ rv used) in
      ap (λ q. files (q.1)) s₁
      ∙ ap (λ q. files (q.1)) s₃
      ∙ ap (λ q. files (q.1)) s₄
      ∙ ap (λ q. files (q.1)) same
      ∙ use_args_file_lem area bin env h₄ (files h₃) rv (λ n. opened) used
      ∙ init_rwlock-Keeps h₂
      ∙ is_host.init_tids_keeps h₁
      ∙ map_ptrace_page-Keeps h
