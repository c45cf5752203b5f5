-- ===== src/Execution/Calls.antt =====
-- `_doCall`, `_unBlock`, `_collectReturnValue`, `_readMem` and `_writeMem`.
use veoffload.Base.{
  ℕ, ◌+◌, List, [], ◌∷◌, ltb, ◌==◌, not, if◌then◌else◌, length, ℤ, Result, ok, ◌>>=◌, ◌>>◌,
  veo_assert,
}
use veoffload.Args.Image.{num_args_on_register}
use veoffload.Args.Setup.{CallArgs, get_reg_vals, setup, copyin}
use veoffload.Context.State.{state_running}
use veoffload.Execution.Driver.{Driver, World}
use veoffload.Execution.Filters.{nr_sysve, sysve_veo_block}

-- The argument objects after one of them is changed.
abbrev pub update_args : (ℕ → CallArgs) → ℕ → CallArgs → ℕ → CallArgs
update_args objects i a j = if i == j then a else objects j

abbrev first_or_zero : List ℕ → ℕ
first_or_zero [] = 0
first_or_zero (v ∷ vs) = v

module _ {D : Type 0} (os : Driver D) where
  -- `ve_set_user_reg` for the registers from `SR00 + i` on.
  set_registers : ℕ → List ℕ → D → D
  set_registers i [] d = d
  set_registers i (v ∷ vs) d = set_registers (i + 1) vs (os.set_user_reg (os.numbers.sr00 + i) v d)

  unfoldable pub write_mem : ℕ → List ℕ → D → ℤ × D
  write_mem dst bytes d = os.send_data dst bytes d

  -- The buffer that is overwritten plays no part.
  unfoldable pub read_mem : ℕ → ℕ → List ℕ → D → ℤ × List ℕ × D
  read_mem src size buffer d = os.recv_data src size d

  unfoldable pub unblock : ℕ → World D → World D
  unblock sr0 w = record w {
    ve = os.un_block nr_sysve sr0 w.ve;
    ctx = record w.ctx { state = state_running };
  }

  -- The part of `_doCall` after the arguments are set up.
  unfoldable pub enter : List ℕ → CallArgs → World D → World D
  unfolding set_registers
  enter regs a w =
      let d₁ = copyin write_mem a (set_registers 0 regs w.ve) in
      let d₂ = os.set_user_reg os.numbers.sr11 w.ctx.ve_sp d₁ in
      unblock (first_or_zero regs) (record w { ve = d₂ })

  unfoldable pub do_call : ℕ → ℕ → World D → Result (World D)
  unfolding enter
  do_call addr args w = do
    let d = os.set_user_reg os.numbers.sr12 addr w.ve
    s ← setup w.vh w.ctx.ve_sp (w.args args)
    regs ← get_reg_vals s.0
    veo_assert (not (ltb num_args_on_register (length regs)))
    ok (
        enter regs (s.0) (record w {
          ve = d;
          args = update_args w.args args (s.0);
          ctx = record w.ctx { ve_sp = s.1 };
        }))

  unfoldable pub collect_return_value : World D → Result (ℕ × World D)
  collect_return_value w = do
    veo_assert (os.syscall_arg 0 w.ve == sysve_veo_block)
    ok (os.syscall_arg 1 w.ve, record w { ctx = record w.ctx { ve_sp = os.syscall_arg 5 w.ve } })
