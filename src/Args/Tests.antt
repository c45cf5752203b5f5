-- ===== src/Args/Tests.antt =====
-- Concrete arguments: an `int` and two buffers of the VH process, one of them copied back.
use veoffload.Base.{
  ℕ, ◌+◌, ◌%◌, ◌^◌, ◌<◌, ◌≤◌, ◌≡◌, refl, true, false, none, some, List, [], ◌∷◌, ◌++◌, map, arith,
  take, length, replicate, get_elem?, Memory, ok, err, assertion, null_pointer, ℤ, pos, negsuc, u64,
  sub64, of_le_bytes, if◌then◌else◌,
}
use veoffload.Args.Image.{
  Arg, i16, i32, int_arg, on_stack, slice, set_value, to_int64, size_on_stack,
}
use veoffload.Args.Setup.{CallArgs, empty_args, setup, get_reg_vals, copyout}
use veoffload.Args.Layout.{sizes, any_out}
use veoffload.Args.Layout.Whole.{
  data_offset, total_size, layout, length-layout, prepared, setup_layout, setup_too_large,
  setup_gap,
}
use veoffload.Args.Buffers.{contents, setup-buffer, get_reg_vals-setup, reg_words}
use veoffload.Args.Transfer.{copyout-setup, copyout_unchanged, write_back}
use veoffload.Args.Numbers.{number, set_value-register}

abbrev memory : Memory
memory a = a % 256

abbrev sample : List Arg
sample = int_arg i32 5 ∷ on_stack 100 3 true true none ∷ on_stack 200 9 true false none ∷ []

abbrev args_of : List Arg → CallArgs
args_of xs = record empty_args { arguments = map some xs }

abbrev top : ℕ
top = sub64 65536 (total_size sample)

sample_small : total_size sample < 2 ^ 31
unfolding sizes size_on_stack
sample_small = omega arith

sample_top : top < 2 ^ 64
sample_top = omega arith

setup_layout_example :
    setup memory 65536 (args_of sample) ≡ ok (prepared memory top (args_of sample) sample, top)
setup_layout_example = setup_layout memory 65536 (args_of sample) sample refl sample_small

abbrev too_large : List Arg
too_large = on_stack 0 (2 ^ 31) false true none ∷ []

too_large_lower : 2 ^ 31 ≤ total_size too_large
unfolding sizes size_on_stack
too_large_lower = omega arith

too_large_upper : total_size too_large < 2 ^ 63
unfolding sizes size_on_stack
too_large_upper = omega arith

setup_too_large_example : setup memory 65536 (args_of too_large) ≡ err assertion
setup_too_large_example =
    setup_too_large memory 65536 (args_of too_large) too_large refl too_large_lower too_large_upper

abbrev with_gap : CallArgs
with_gap = record empty_args { arguments = none ∷ some (int_arg i32 5) ∷ [] }

setup_gap_example : setup memory 65536 with_gap ≡ err null_pointer
setup_gap_example = setup_gap memory 65536 with_gap [] (some (int_arg i32 5) ∷ []) refl

abbrev sample_prepared : CallArgs
sample_prepared = prepared memory top (args_of sample) sample

setup-buffer_example :
    let off = data_offset sample + sizes (int_arg i32 5 ∷ []) in
    (get_elem? sample_prepared.arguments 1
      ≡ some (some (on_stack 100 3 true true (some (u64 (top + off))))))
    × (off % 8 ≡ 0)
    × (off + 3 ≤ length sample_prepared.stack_buf)
    × (slice off 3 sample_prepared.stack_buf ≡ ok (contents memory 100 3 true))
setup-buffer_example =
    setup-buffer memory 65536 (args_of sample) sample_prepared top (int_arg i32 5 ∷ [])
      (on_stack 200 9 true false none ∷ []) 100 3 true true none refl sample_small
      setup_layout_example

get_reg_vals-setup_example :
    get_reg_vals sample_prepared ≡ ok (take 8 (reg_words top (data_offset sample) sample))
get_reg_vals-setup_example =
    get_reg_vals-setup memory 65536 (args_of sample) sample_prepared top sample refl sample_small
      setup_layout_example

-- A transfer that brings back what was sent.
abbrev echo : ℕ → ℕ → List ℕ → ℕ → ℤ × List ℕ × ℕ
echo addr size sent n = (pos 0, sent, n + 1)

copyout-setup_example :
    copyout echo sample_prepared memory 0
    ≡ ok (
        if any_out sample
        then (
          sample_prepared,
          write_back (data_offset sample) (layout memory top sample) memory sample,
          1,
        )
        else (sample_prepared, memory, 0))
copyout-setup_example =
    copyout-setup echo memory memory 65536 (args_of sample) sample_prepared top sample 0 refl
      sample_small sample_top setup_layout_example (length-layout memory top sample)

copyout_unchanged_example :
    (c : CallArgs) × (n : ℕ) × (copyout echo sample_prepared memory 0 ≡ ok (c, memory, n))
copyout_unchanged_example =
    copyout_unchanged echo memory 65536 (args_of sample) sample_prepared top sample 0 refl
      sample_small sample_top (tt, ((λ e. refl), ((λ e. refl), tt))) setup_layout_example refl

-- The pattern of -236 in 16 bits.
set_value-register_example :
    (w : List ℕ) × (set_value 1 2 65300 (7 ∷ replicate 8 0 ++ 9 ∷ []) ≡ ok (7 ∷ w ++ 9 ∷ []))
    × (length w ≡ 8)
    × (of_le_bytes w ≡ 65300)
    × (number true 8 (to_int64 i16 65300) ≡ negsuc 235)
    × (to_int64 i16 65300 < 2 ^ 64)
set_value-register_example = set_value-register i16 65300 1 (7 ∷ []) (9 ∷ []) (omega arith) refl
