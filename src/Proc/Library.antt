-- ===== src/Proc/Library.antt =====
-- `loadLibrary` and `loadLibraryError`.
use veoffload.Base.{
  ℕ, ◌^◌, min, Bool, not, ltb, ◌==◌, ◌&&◌, if◌then◌else◌, length, Option, none, some, exception,
  uninitialised, ℤ, pos, negsuc,
}
use veoffload.Steps.{Step, give, fail, lift, change, ◌>>=◌, ◌>>◌, catching}
use veoffload.Proc.Worker.{Worker, VhAccess, do_on_context}
use veoffload.Proc.Handle.{
  ProcHandle, Text, alloc_buff, free_buff, read_mem, veo_symname_len_max, enametoolong,
}
use veoffload.Proc.Arguments.{library_args, error_args, err_msg_len}

-- An `int64_t` bit pattern that stands for a negative number.
abbrev pub is_negative64 : ℕ → Bool
is_negative64 n = not (ltb n (2 ^ 63))

module _ {S : Type 0} (worker : Worker S) (vh : VhAccess S) where
  -- The first try block: `none` where an exception is caught.
  unfoldable pub try_alloc : ProcHandle → Step S (Option ℕ)
  try_alloc p =
      catching (λ e. give none) (do buff ← alloc_buff worker err_msg_len p; give (some buff))

  -- The second try block. Where an exception is caught, `rv` has no value.
  unfoldable pub ask_error : ℕ → ProcHandle → Step S ℕ
  ask_error buff p =
      catching (λ e. fail uninitialised)
        (do args ← lift (error_args buff); do_on_context worker p.funcs.load_library_err args)

  -- The message is given to the caller, and the buffer back.
  unfoldable pub deliver_error : (err_msg ret_buff size buff : ℕ) → ProcHandle → Step S ℤ
  deliver_error err_msg ret_buff size buff p = do
    _ ← free_buff worker buff p
    change (vh.memcpy ret_buff err_msg (min size err_msg_len))
    give (pos 0)

  -- From `readMem` on.
  unfoldable pub fetch_error : (err_msg ret_buff size buff : ℕ) → ProcHandle → Step S ℤ
  fetch_error err_msg ret_buff size buff p = do
    rv ← read_mem worker err_msg buff err_msg_len
    if rv == 0 then deliver_error err_msg ret_buff size buff p else give (negsuc 0)

  -- `loadLibraryError` once it has a buffer.
  unfoldable pub report_error : (err_msg ret_buff size buff : ℕ) → ProcHandle → Step S ℤ
  report_error err_msg ret_buff size buff p = do
    rv ← ask_error buff p
    if is_negative64 rv then give (negsuc 0) else fetch_error err_msg ret_buff size buff p

  -- `loadLibraryError`. `err_msg` is the address of its local array, whose zeros are overwritten
  -- before they are read.
  unfoldable pub load_library_error : (err_msg ret_buff size : ℕ) → ProcHandle → Step S ℤ
  load_library_error err_msg ret_buff size p = do
    found ← try_alloc p
    elim found [
      | none ↦ give (negsuc 0)
      | some buff ↦ if buff == 0 then give (negsuc 0) else report_error err_msg ret_buff size buff p
    ]

  -- The last part of `loadLibrary`: for the handle 0 it fetches the message of the error, which it
  -- logs. `version4` is `VEORUN_VERSION4` of veorun.h; `ret_buff` and `err_msg` are the local arrays.
  unfoldable pub note_error : (version4 ret_buff err_msg handle : ℕ) → ProcHandle → Step S ℕ
  note_error version4 ret_buff err_msg handle p =
      if (handle == 0) && not (ltb p.funcs.version version4)
      then (do _ ← load_library_error err_msg ret_buff err_msg_len p; give handle)
      else give handle

  unfoldable pub load_library : (version4 ret_buff err_msg : ℕ) → Text → ProcHandle → Step S ℕ
  load_library version4 ret_buff err_msg name p =
      if ltb veo_symname_len_max (length name.chars) then fail (exception enametoolong) else (do
        args ← lift (library_args name)
        handle ← do_on_context worker p.funcs.load_library args
        note_error version4 ret_buff err_msg handle p)
