-- ===== src/Execution/Runs.antt =====
-- The runs of the VE under the default filter, described apart from the handler: what the driver
-- reports, which system calls are refused, served and taken for a block, and which exceptions end a run.
use Prim.Native.Nat.{bit_and}
use veoffload.Base.{ℕ, ◌≡◌, ◌≢◌, ◌⊎◌, true, pos, negsuc, ◌-◌, ◌^◌}
use veoffload.Context.State.{contains, state_running, state_blocked}
use veoffload.Execution.Driver.{Waited, Numbers, Driver, World}
use veoffload.Execution.Filters.{default_filtered_syscalls, minus_enosys}
use veoffload.Execution.Exceptions.{Handled}

-- A report of an exception, and one to wait on from: EINTR is 4, and the low eight bits of the EXS value
-- are no exceptions.
abbrev pub IsException : Waited → Type 0
IsException r = (r.ret ≡ pos 0) × (bit_and r.exs (2 ^ 64 - 256) ≢ 0)

abbrev pub IsNothing : Waited → Type 0
IsNothing r =
    ((r.ret ≡ negsuc 0) × (r.errno ≡ 4)) ⊎ ((r.ret ≡ pos 0) × (bit_and r.exs (2 ^ 64 - 256) ≡ 0))

-- The exceptions that the VE does not come back from.
abbrev pub IsFatal : Numbers → ℕ → Type 0
IsFatal k exs =
    (bit_and exs k.exs_mont ≢ 0)
    ⊎ ((bit_and exs k.uncorrectable_error ≢ 0)
        ⊎ ((bit_and exs k.correctable_error ≢ 0)
            × (bit_and exs k.exs_monc ≡ 0)
            × (bit_and exs k.exs_rdbg ≡ 0)))

module _ {D : Type 0} (os : Driver D) where
  -- The exception that the driver reports next.
  pub data Reported : D → ℕ × D → Type 0 where
    now :
        {d : D}
        → IsException (os.wait_exception d).0
        → Reported d ((os.wait_exception d).0.exs, (os.wait_exception d).1)
    afterwards :
        {d : D} {r : ℕ × D}
        → IsNothing (os.wait_exception d).0
        → Reported (os.wait_exception d).1 r
        → Reported d r

  abbrev pub IsListed : World D → Type 0
  IsListed w = contains (os.syscall_num w.ve) (default_filtered_syscalls os.numbers) ≡ true

  -- The call with which the VE asks for a block.
  abbrev pub AsksBlock : World D → Type 0
  AsksBlock w = (os.syscall_num w.ve ≡ 316) × (os.syscall_arg 0 w.ve ≡ 0x14)

  -- A system call of the VE, and whether it is the block request: 1 or 0.
  pub data Call (w : World D) : ℕ → World D → Type 0 where
    refused :
        IsListed w
        → Call w 0 (record w { ve = os.un_block (os.syscall_num w.ve) minus_enosys w.ve })
    blocks :
        ¬ IsListed w
        → AsksBlock w
        → Call w 1
            (record w { ve = os.block_syscall w.ve; ctx = record w.ctx { state = state_blocked } })
    served :
        ¬ IsListed w
        → ¬ AsksBlock w
        → Call w 0 (record w {
          ve = os.handle_syscall (os.syscall_num w.ve) w.ve;
          ctx = record w.ctx { state = state_running };
        })

  pub data Handling (exs : ℕ) (w : World D) : ℕ → World D → Type 0 where
    no_call : bit_and exs os.numbers.exs_monc ≡ 0 → Handling exs w 0 w
    calls :
        {flag : ℕ} {w' : World D}
        → bit_and exs os.numbers.exs_monc ≢ 0
        → Call w flag w'
        → Handling exs w flag w'

  -- A run: exceptions after which the VE is resumed, and one that ends it, fatal or a block request.
  pub data Run : World D → Handled os → Type 0 where
    dies :
        {w : World D} {exs : ℕ} {d : D} {flag : ℕ} {w' : World D}
        → Reported w.ve (exs, d)
        → Handling exs (record w { ve = d }) flag w'
        → IsFatal os.numbers exs
        → Run w (record {
          status = negsuc 0;
          exs = exs;
          world = record w' { ve = os.block_syscall w'.ve };
        })
    stops :
        {w : World D} {exs : ℕ} {d : D} {w' : World D}
        → Reported w.ve (exs, d)
        → Handling exs (record w { ve = d }) 1 w'
        → ¬ IsFatal os.numbers exs
        → Run w (record { status = pos 1; exs = exs; world = w' })
    resumed :
        {w : World D} {exs : ℕ} {d : D} {w' : World D} {h : Handled os}
        → Reported w.ve (exs, d)
        → Handling exs (record w { ve = d }) 0 w'
        → ¬ IsFatal os.numbers exs
        → Run w' h
        → Run w h
