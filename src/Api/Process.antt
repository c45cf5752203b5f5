-- ===== src/Api/Process.antt =====
-- The functions of the C API on a process handle: `veo_load_library`, `veo_get_sym`,
-- `veo_alloc_mem`, `veo_free_mem`, `veo_read_mem` and `veo_write_mem`.
use veoffload.Base.{ℕ, ◌-◌, ◌^◌, ◌==◌, if◌then◌else◌, Option, none, some, ℤ, pos, negsuc}
use veoffload.Steps.{Step, give, ◌>>=◌, catching}
use veoffload.Proc.Worker.{Worker, VhAccess}
use veoffload.Proc.Handle.{ProcHandle, Text, get_sym, alloc_buff, free_buff, read_mem, write_mem}
use veoffload.Proc.Library.{load_library}
use veoffload.Api.Reply.{Reply, plain, with_errno, reply}

-- The `int` -1 as a bit pattern.
abbrev pub minus_one : ℕ
minus_one = 2 ^ 32 - 1

module _ {S : Type 0} (worker : Worker S) where
  unfoldable pub veo_load_library :
      VhAccess S → (version4 ret_buff err_msg : ℕ) → Text → ProcHandle → Step S (Reply ℕ)
  veo_load_library vh version4 ret_buff err_msg libname p =
      catching (λ e. give (with_errno 0 e))
        (reply (load_library worker vh version4 ret_buff err_msg libname p))

  -- `getSym` as a block on the handle and the state.
  unfoldable pub get_sym_step : ℕ → Text → Step (ProcHandle × S) ℕ
  get_sym_step libhdl symname s = let r = get_sym worker libhdl symname s.0 s.1 in (r.0, (r.1, r.2))

  unfoldable pub veo_get_sym : ℕ → Text → Step (ProcHandle × S) (Reply ℕ)
  veo_get_sym libhdl symname =
      catching (λ e. give (with_errno 0 e)) (reply (get_sym_step libhdl symname))

  -- The value, and what is stored through `addr`.
  unfoldable pub veo_alloc_mem : ℕ → ProcHandle → Step S (Reply (ℤ × Option ℕ))
  veo_alloc_mem size p =
      catching (λ e. give (plain (negsuc 1, none)))
        (do
          addr ← alloc_buff worker size p
          give (plain (if addr == 0 then negsuc 0 else pos 0, some addr)))

  unfoldable pub veo_free_mem : ℕ → ProcHandle → Step S (Reply ℤ)
  veo_free_mem addr p =
      catching (λ e. give (plain (negsuc 0))) (do _ ← free_buff worker addr p; give (plain (pos 0)))

  -- The value is the bit pattern of an `int`.
  unfoldable pub veo_read_mem : (dst src size : ℕ) → Step S (Reply ℕ)
  veo_read_mem dst src size =
      catching (λ e. give (plain minus_one)) (reply (read_mem worker dst src size))

  unfoldable pub veo_write_mem : (dst src size : ℕ) → Step S (Reply ℕ)
  veo_write_mem dst src size =
      catching (λ e. give (plain minus_one)) (reply (write_mem worker dst src size))
