-- ===== src/Proc/Handle.antt =====
-- `getSym`, `allocBuff`, `freeBuff`, `readMem` and `writeMem`.
use veoffload.Base.{
  ℕ, ◌+◌, Bool, true, false, ◌&&◌, Option, none, some, List, [], ◌∷◌, ltb, ◌==◌, if◌then◌else◌,
  length, Result, ok, err, exception, uninitialised, assertion, ◌>>=◌, pos, int32, ℤ,
}
use veoffload.Args.Image.{u64_t}
use veoffload.Args.Setup.{CallArgs, empty_args, of_list, set_int, set_stack, intent_in}
use veoffload.Queues.Blocking.{
  CommandStatus, command_ok, command_exception, command_error, command_unfinished,
}
use veoffload.Proc.Worker.{Worker, do_on_context}

abbrev pub veo_symname_len_max : ℕ
veo_symname_len_max = 255

-- `ENAMETOOLONG` on Linux.
abbrev pub enametoolong : ℕ
enametoolong = 36

-- The addresses of the functions of veorun.
pub record Functions : Type 0 where
  pub version : ℕ
  pub load_library : ℕ
  pub find_sym : ℕ
  pub alloc_buff : ℕ
  pub free_buff : ℕ
  pub create_thread : ℕ
  pub call_func : ℕ
  pub exit : ℕ
  pub create_thread_with_attr : ℕ
  pub load_library_err : ℕ

-- A symbol is named by a library handle and a text.
abbrev pub Symbol : Type 0
Symbol = ℕ × List ℕ

-- `sym_name` is a map: of several entries for a symbol the first one counts.
pub record ProcHandle : Type 0 where
  pub sym_name : List (Symbol × ℕ)
  pub funcs : Functions
  pub num_child_threads : ℕ
  pub ve_number : ℤ

abbrev pub same_text : List ℕ → List ℕ → Bool
same_text [] [] = true
same_text [] (d ∷ ds) = false
same_text (c ∷ cs) [] = false
same_text (c ∷ cs) (d ∷ ds) = (c == d) && same_text cs ds

unfoldable pub same_symbol : Symbol → Symbol → Bool
same_symbol a b = (a.0 == b.0) && same_text (a.1) (b.1)

unfoldable pub find_symbol : Symbol → List (Symbol × ℕ) → Option ℕ
find_symbol k [] = none
find_symbol k (e ∷ es) = if same_symbol (e.0) k then some (e.1) else find_symbol k es

-- `sym_name[sym_pair] = symaddr` for a new entry or an old one.
abbrev pub store_symbol : Symbol → ℕ → ProcHandle → ProcHandle
store_symbol k a p = record p { sym_name = (k, a) ∷ p.sym_name }

-- A text on the VH: its address and its characters, without the zero at its end.
pub record Text : Type 0 where
  pub address : ℕ
  pub chars : List ℕ

module _ {S : Type 0} (worker : Worker S) where
  -- Where the arguments cannot be built, nothing is asked of the worker.
  unfoldable pub call_with : Result CallArgs → ℕ → S → Result ℕ × S
  call_with (ok args) func s = do_on_context worker func args s
  call_with (err e) func s = (err e, s)

  -- What a call of `getSym` leaves: its result, the handle, and the state.
  unfoldable pub keep_symbol : Symbol → ProcHandle → Result ℕ × S → Result ℕ × ProcHandle × S
  keep_symbol k p (err e, s) = (err e, p, s)
  keep_symbol k p (ok a, s) = if a == 0 then (ok a, p, s) else (ok a, store_symbol k a p, s)

  unfoldable pub sym_args : ℕ → Text → Result CallArgs
  sym_args libhdl name = do
    a ← set_int u64_t (pos 0) libhdl empty_args
    set_stack intent_in (pos 1) name.address (length name.chars + 1) a

  -- `getSym` for a symbol that is not in the map.
  unfoldable pub ask_symbol : ℕ → Text → ProcHandle → S → Result ℕ × ProcHandle × S
  unfolding sym_args call_with
  ask_symbol libhdl name p s =
      keep_symbol (libhdl, name.chars) p (call_with (sym_args libhdl name) p.funcs.find_sym s)

  unfoldable pub get_sym : ℕ → Text → ProcHandle → S → Result ℕ × ProcHandle × S
  get_sym libhdl name p s =
      if ltb veo_symname_len_max (length name.chars)
      then (err (exception enametoolong), p, s)
      else (elim (find_symbol (libhdl, name.chars) p.sym_name) [
        | some a ↦ (ok a, p, s)
        | none ↦ ask_symbol libhdl name p s
      ])

  unfoldable pub alloc_buff : ℕ → ProcHandle → S → Result ℕ × S
  alloc_buff size p s = do_on_context worker p.funcs.alloc_buff (of_list (size ∷ [])) s

  unfoldable pub free_buff : ℕ → ProcHandle → S → Result ℕ × S
  free_buff buff p s = do_on_context worker p.funcs.free_buff (of_list (buff ∷ [])) s

  -- `VEO_ASSERT(rv == VEO_COMMAND_OK); return static_cast<int>(ret)`.
  unfoldable pub assert_ok : CommandStatus → Option ℕ → Result ℕ
  assert_ok command_ok none = err uninitialised
  assert_ok command_ok (some ret) = ok (int32 ret)
  assert_ok command_exception ret = err assertion
  assert_ok command_error ret = err assertion
  assert_ok command_unfinished ret = err assertion

  unfoldable pub read_mem : (dst src size : ℕ) → S → Result ℕ × S
  read_mem dst src size s =
      let request = worker.async_read_mem dst src size s in
      let answer = worker.call_wait_result (request.0) (request.1) in
      (assert_ok (answer.0) (answer.1), answer.2)

  unfoldable pub write_mem : (dst src size : ℕ) → S → Result ℕ × S
  write_mem dst src size s =
      let request = worker.async_write_mem dst src size s in
      let answer = worker.call_wait_result (request.0) (request.1) in
      (assert_ok (answer.0) (answer.1), answer.2)
