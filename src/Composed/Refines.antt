-- ===== src/Composed/Refines.antt =====
-- The process handle refines direct transfers.
use veoffload.Base.{
  ℕ, suc, ◌^◌, ◌<◌, ◌≡◌, refl, sym, ◌∙◌, ap, ap₂, subst, Bool-cases, inl, inr, List, [], ◌∷◌,
  Result, ok, err, Fault, ◌>>=◌, Memory, load, arith,
}
use veoffload.Queues.Comm.{new_comm}
use veoffload.Context.State.{state_blocked}
use veoffload.Execution.Driver.{Driver, World}
use veoffload.Execution.Exceptions.{is_zero}
use veoffload.Composed.Serve.{idle_world, served}
use veoffload.Composed.Transfers.{
  Transfer, reads, writes, direct, replay, carry_out, run, after, view, read_success, read_failure,
  write_success, write_failure,
}

module _ {D : Type 0} (os : Driver D) (p f exs rounds name : ℕ) where
  -- One transfer, by what it does directly.
  abbrev Agrees : Transfer → World D → Result (Memory × D) → Type 0
  Agrees t w (ok m) =
      (carry_out os p f exs (suc (suc rounds)) name t (idle_world w) ≡ (ok 0, served w (m.0) (m.1)))
  Agrees t w (err fault) =
      ((carry_out os p f exs (suc (suc rounds)) name t (idle_world w)).0 ≡ err fault)

  carry_out-Agrees :
      (t : Transfer) (w : World D) → w.ctx.seq_no < 2 ^ 64 → Agrees t w (direct os t (w.vh, w.ve))
  unfolding carry_out direct
  carry_out-Agrees (reads dst src size) w h =
      elim (Bool-cases (is_zero ((os.recv_data src size w.ve).0))) [
        | inl z ↦ rw z (read_success os p f exs rounds name dst src size w h z)
        | inr z ↦ rw z (read_failure os p f exs rounds name dst src size w h z)
      ]
  carry_out-Agrees (writes dst src size) w h =
      elim (Bool-cases (is_zero ((os.send_data dst (load w.vh src size) w.ve).0))) [
        | inl z ↦ rw z (write_success os p f exs rounds name dst src size w h z)
        | inr z ↦ rw z (write_failure os p f exs rounds name dst src size w h z)
      ]

  after_err :
      (next : World D → Result (World D)) (r : Result ℕ × World D) (fault : Fault)
      → r.0 ≡ err fault
      → view (after next r) ≡ err fault
  unfolding view after
  after_err next (ok value, w) fault e = absurd cc
  after_err next (err other, w) fault e = let same : other ≡ fault = cc in ap err same

  -- What follows a transfer, by what the transfer does directly.
  run_lem :
      (t : Transfer) (ts : List Transfer) (w : World D) (r : Result (Memory × D))
      → Agrees t w r
      → ((m : Memory × D)
          → view (run os p f exs (suc (suc rounds)) name ts (served w (m.0) (m.1)))
            ≡ replay os ts m)
      → view (run os p f exs (suc (suc rounds)) name (t ∷ ts) (idle_world w)) ≡ (r >>= replay os ts)
  unfolding run after
  run_lem t ts w (ok m) agrees rest =
      ap (λ r. view (after (run os p f exs (suc (suc rounds)) name ts) r)) agrees ∙ rest m
  run_lem t ts w (err fault) agrees rest =
      after_err (run os p f exs (suc (suc rounds)) name ts)
        (carry_out os p f exs (suc (suc rounds)) name t (idle_world w)) fault agrees

  run-idle :
      (ts : List Transfer) (w : World D)
      → w.ctx.seq_no < 2 ^ 64
      → view (run os p f exs (suc (suc rounds)) name ts (idle_world w)) ≡ replay os ts (w.vh, w.ve)
  unfolding replay run view
  run-idle [] w h = refl
  run-idle (t ∷ ts) w h =
      run_lem t ts w (direct os t (w.vh, w.ve)) (carry_out-Agrees t w h)
        (λ m. run-idle ts (served w (m.0) (m.1)) (omega arith))

  -- The idle world with the members of an idle context.
  idle_world_lem :
      (w : World D) → w.ctx.state ≡ state_blocked → w.ctx.comq ≡ new_comm → idle_world w ≡ w
  idle_world_lem w blocked empty =
      ap₂ (λ s q. record w { ctx = record w.ctx { state = s; comq = q } }) (sym blocked) (sym empty)

  -- On a worker that is BLOCKED, with both queues open and empty, any sequence of `readMem` and
  -- `writeMem` has the result of the same transfers made directly, one after the other, on the memory
  -- of the VH process and the state of the VE: the first transfer with another status than zero aborts
  -- the process; if there is none, the memory and the VE end up the same. Requests, IDs, the pseudo
  -- thread and completions make no difference.
  pub run-refines :
      (ts : List Transfer) (w : World D)
      → w.ctx.seq_no < 2 ^ 64
      → w.ctx.state ≡ state_blocked
      → w.ctx.comq ≡ new_comm
      → view (run os p f exs (suc (suc rounds)) name ts w) ≡ replay os ts (w.vh, w.ve)
  run-refines ts w h blocked empty =
      subst (λ v. view (run os p f exs (suc (suc rounds)) name ts v) ≡ replay os ts (w.vh, w.ve))
        (idle_world_lem w blocked empty) (run-idle ts w h)
