-- ===== src/Api/Failure.antt =====
-- What the functions on a process do where a request of the worker fails.
use veoffload.Base.{
  ℕ, ◌≡◌, ◌≢◌, refl, false, none, ltb, length, Result, ok, err, exception, assertion, Option, ap₂,
}
use veoffload.Queues.Blocking.{
  CommandStatus, command_ok, command_exception, command_error, command_unfinished,
}
use veoffload.Steps.Keeps.{FailsWith, bind-FailsWith}
use veoffload.Args.Setup.{CallArgs, set_int, set_stack, put}
use veoffload.Proc.Worker.{Worker, VhAccess, enosys, require_ok, do_on_context}
use veoffload.Proc.Handle.{
  ProcHandle, Text, Symbol, call_with, sym_args, assert_ok, find_symbol, get_sym, ask_symbol,
  keep_symbol, alloc_buff, free_buff, read_mem, write_mem, veo_symname_len_max,
}
use veoffload.Proc.Arguments.{cpu_args, library_args}
use veoffload.Proc.Library.{load_library, note_error}
use veoffload.Proc.Open.{open_context, open_with}
use veoffload.Api.Process.{get_sym_step}

require_ok-failed :
    (status : CommandStatus) (ret : Option ℕ)
    → status ≢ command_ok
    → require_ok status ret ≡ err (exception enosys)
unfolding require_ok
require_ok-failed command_ok ret bad = absurd (bad refl)
require_ok-failed command_exception ret bad = refl
require_ok-failed command_error ret bad = refl
require_ok-failed command_unfinished ret bad = refl

assert_ok-failed :
    {S : Type 0} (worker : Worker S) (status : CommandStatus) (ret : Option ℕ)
    → status ≢ command_ok
    → assert_ok worker status ret ≡ err assertion
unfolding assert_ok
assert_ok-failed worker command_ok ret bad = absurd (bad refl)
assert_ok-failed worker command_exception ret bad = refl
assert_ok-failed worker command_error ret bad = refl
assert_ok-failed worker command_unfinished ret bad = refl

module _ {S F : Type 0} (worker : Worker S) (part : S → F) (s : S) where
  -- A request was answered with another status than `VEO_COMMAND_OK`, and that part of the state is as
  -- it was before.
  abbrev IsRefusal : CommandStatus × Option ℕ × S → Type 0
  IsRefusal answer = (answer.0 ≢ command_ok) × (part (answer.2) ≡ part s)

  abbrev answer_of : ℕ × S → CommandStatus × Option ℕ × S
  answer_of request = worker.call_wait_result (request.0) (request.1)

  -- Each request that is made in the state `s` is answered so.
  abbrev pub Refuses : Type 0
  Refuses =
      ((func : ℕ) (args : CallArgs) → IsRefusal (answer_of (worker.call_async func args s)))
      × ((func : ℕ) (args : CallArgs)
          → IsRefusal (answer_of (worker.call_open_context func args s)))
      × ((dst src size : ℕ) → IsRefusal (answer_of (worker.async_read_mem dst src size s)))
      × ((dst src size : ℕ) → IsRefusal (answer_of (worker.async_write_mem dst src size s)))

  -- The exception of a request that failed.
  abbrev Throws : {A : Type 0} → Result A × S → Type 0
  Throws r = FailsWith part (part s) (exception enosys) r

  abbrev Aborts : {A : Type 0} → Result A × S → Type 0
  Aborts r = FailsWith part (part s) assertion r

  module _ (refuses : Refuses) where
    do_on_context-failed : (func : ℕ) (args : CallArgs) → Throws (do_on_context worker func args s)
    unfolding do_on_context
    do_on_context-failed func args =
        let (bad, kept) = refuses.0 func args in (require_ok-failed _ _ bad, kept)

    pub read_mem-failed : (dst src size : ℕ) → Aborts (read_mem worker dst src size s)
    unfolding read_mem
    read_mem-failed dst src size =
        let (bad, kept) = refuses.2 dst src size in (assert_ok-failed worker _ _ bad, kept)

    pub write_mem-failed : (dst src size : ℕ) → Aborts (write_mem worker dst src size s)
    unfolding write_mem
    write_mem-failed dst src size =
        let (bad, kept) = refuses.3 dst src size in (assert_ok-failed worker _ _ bad, kept)

    open_with-failed : (func : ℕ) (args : CallArgs) → Throws (open_with worker func args s)
    unfolding open_with
    open_with-failed func args =
        let (bad, kept) = refuses.1 func args in (require_ok-failed _ _ bad, kept)

    pub load_library-failed :
        (vh : VhAccess S) (version4 ret_buff err_msg : ℕ) (name : Text) (p : ProcHandle)
        → ltb veo_symname_len_max (length name.chars) ≡ false
        → Throws (load_library worker vh version4 ret_buff err_msg name p s)
    unfolding load_library library_args set_stack put
    load_library-failed vh version4 ret_buff err_msg name p short = rw short (
        bind-FailsWith part (part s) (do_on_context worker p.funcs.load_library _)
          (λ handle. note_error worker vh version4 ret_buff err_msg handle p) s (exception enosys)
          (do_on_context-failed p.funcs.load_library _))

    keep_symbol-failed :
        (k : Symbol) (p : ProcHandle) (r : Result ℕ × S)
        → Throws r
        → let (v, p', s') = keep_symbol worker k p r in
          (v ≡ err (exception enosys)) × (p' ≡ p) × (part s' ≡ part s)
    unfolding keep_symbol
    keep_symbol-failed k p (ok a, t) (e, kept) = absurd cc
    keep_symbol-failed k p (err other, t) (e, kept) = (e, refl, kept)

    pub get_sym-failed :
        (libhdl : ℕ) (name : Text) (p : ProcHandle)
        → ltb veo_symname_len_max (length name.chars) ≡ false
        → find_symbol (libhdl, name.chars) p.sym_name ≡ none
        → FailsWith {F = ProcHandle × F}
            (λ q. (q.0, part (q.1)))
            (p, part s)
            (exception enosys)
            (get_sym_step worker libhdl name (p, s))
    unfolding get_sym_step get_sym ask_symbol sym_args call_with set_int set_stack put
    get_sym-failed libhdl name p short unknown =
        let (failed, same, kept) =
          keep_symbol-failed (libhdl, name.chars) p _ (do_on_context-failed p.funcs.find_sym _) in
        rw (short, unknown) (failed, ap₂ (λ (x : ProcHandle) (y : F). (x, y)) same kept)

    pub open_context-failed :
        (tid_counter : ℕ) (p : ProcHandle) → Throws (open_context worker tid_counter p s)
    unfolding open_context cpu_args set_int put
    open_context-failed tid_counter p = open_with-failed p.funcs.create_thread _

    pub alloc_buff-failed : (size : ℕ) (p : ProcHandle) → Throws (alloc_buff worker size p s)
    unfolding alloc_buff
    alloc_buff-failed size p = do_on_context-failed p.funcs.alloc_buff _

    pub free_buff-failed : (buff : ℕ) (p : ProcHandle) → Throws (free_buff worker buff p s)
    unfolding free_buff
    free_buff-failed buff p = do_on_context-failed p.funcs.free_buff _
