-- ===== src/Spawn/Signal.antt =====
-- `veo_sigcont_handler`.
use veoffload.Base.{ℕ, Bool, ◌==◌, if◌then◌else◌, assertion}
use veoffload.Steps.{Step, fail, change, ◌>>◌}

-- What the handler calls: whether the thread has its handle of VEOS (`g_handle`), the handler of
-- libvepseudo, `kill` of the process itself, and `sched_yield`.
pub record Signals (H : Type 0) : Type 0 where
  pub sigcont : ℕ
  pub has_handle : H → Bool
  pub sigaction_handler : ℕ → H → H
  pub kill_self : ℕ → H → H
  pub sched_yield : H → H

module _ {H : Type 0} (signals : Signals H) where
  -- The part after the assertion. A thread without a handle sends the signal again.
  unfoldable pub pass_signal : ℕ → Step H (Unit {0})
  pass_signal signo h =
      if signals.has_handle h
      then change (signals.sigaction_handler signo) h
      else (change (signals.kill_self signo) >> change signals.sched_yield) h

  unfoldable pub sigcont_handler : ℕ → Step H (Unit {0})
  sigcont_handler signo = if signo == signals.sigcont then pass_signal signo else fail assertion
