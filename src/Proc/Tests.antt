-- ===== src/Proc/Tests.antt =====
-- A worker that answers every request with the address 4096, and counts them.
use veoffload.Base.{ℕ, ◌+◌, ◌≡◌, refl, some, List, [], ◌∷◌, arith, ok, pos}
use veoffload.Args.Setup.{set_int, set_stack, put, grow}
use veoffload.Queues.Blocking.{command_ok}
use veoffload.Proc.Worker.{Worker, require_ok, do_on_context}
use veoffload.Proc.Handle.{
  ProcHandle, Text, store_symbol, find_symbol, keep_symbol, ask_symbol, get_sym, same_symbol,
}
use veoffload.Proc.Symbols.{after_lookups, get_sym_again}

abbrev counting : Worker ℕ
counting = record {
  call_async = λ func args n. (n, n + 1);
  call_open_context = λ func args n. (n, n + 1);
  async_read_mem = λ dst src size n. (n, n + 1);
  async_write_mem = λ dst src size n. (n, n + 1);
  call_wait_result = λ id n. (command_ok, some 4096, n);
}

abbrev handle : ProcHandle
handle = record {
  sym_name = [];
  funcs = record {
    version = 4;
    load_library = 10;
    find_sym = 20;
    alloc_buff = 30;
    free_buff = 40;
    create_thread = 50;
    call_func = 70;
    exit = 80;
    create_thread_with_attr = 60;
    load_library_err = 90;
  };
  num_child_threads = 0;
  ve_number = pos 0;
}

abbrev hello : Text
hello = record { address = 500; chars = 104 ∷ 105 ∷ [] }

abbrev hello_elsewhere : Text
hello_elsewhere = record { address = 900; chars = 104 ∷ 105 ∷ [] }

abbrev with_hello : ProcHandle
with_hello = store_symbol (3, 104 ∷ 105 ∷ []) 4096 handle

first_time : get_sym counting 3 hello handle 0 ≡ (ok 4096, with_hello, 1)
unfolding get_sym ask_symbol keep_symbol do_on_context require_ok find_symbol set_int set_stack put
    grow
first_time = refl

-- Another symbol, and one of another library, are asked for in between.
abbrev others : List (ℕ × Text)
others = (3, record { address = 700; chars = 121 ∷ [] }) ∷ (4, hello) ∷ []

abbrev with_others : ProcHandle
with_others = store_symbol (4, 104 ∷ 105 ∷ []) 4096 (store_symbol (3, 121 ∷ []) 4096 with_hello)

other_lookups : after_lookups counting others with_hello 1 ≡ (with_others, 3)
unfolding after_lookups get_sym ask_symbol keep_symbol do_on_context require_ok find_symbol
    same_symbol set_int set_stack put grow
other_lookups = refl

get_sym_again_example :
    let q = (after_lookups counting others with_hello 1).0 in
    get_sym counting 3 hello_elsewhere q 8 ≡ (ok 4096, q, 8)
get_sym_again_example =
    get_sym_again counting 3 hello hello_elsewhere others handle with_hello 0 1 8 4096 refl
      (λ e. absurd (omega arith)) first_time
