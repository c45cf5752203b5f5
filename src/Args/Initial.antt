-- ===== src/Args/Initial.antt =====
-- Arguments that are given to the constructor as a list of numbers.
use veoffload.Base.{
  ℕ, zero, suc, ◌≡◌, refl, ◌∙◌, Option, some, List, [], ◌∷◌, ◌++◌, map, append_assoc, append-nil,
  sym, take, ok,
}
use veoffload.Args.Image.{Arg, i64, int_arg, get_reg_val}
use veoffload.Args.Setup.{CallArgs, empty_args, push, push_all, of_list, reg_vals, get_reg_vals}

abbrev as_args : List ℕ → List (Option Arg)
as_args vs = map (λ v. some (int_arg i64 v)) vs

push_all_lem : (a : CallArgs) (vs : List ℕ) → (push_all a vs).arguments ≡ a.arguments ++ as_args vs
unfolding push_all push
push_all_lem a [] = sym (append-nil a.arguments)
push_all_lem a (v ∷ vs) =
    push_all_lem (record a { arguments = a.arguments ++ some (int_arg i64 v) ∷ [] }) vs
    ∙ append_assoc a.arguments (some (int_arg i64 v) ∷ []) (as_args vs)

reg_vals-as_args : (left : ℕ) (vs : List ℕ) → reg_vals left (as_args vs) ≡ ok (take (suc left) vs)
unfolding reg_vals get_reg_val
reg_vals-as_args zero [] = refl
reg_vals-as_args (suc k) [] = refl
reg_vals-as_args zero (v ∷ vs) = refl
reg_vals-as_args (suc k) (v ∷ vs) = rw (reg_vals-as_args k vs)

-- The first eight numbers that the constructor is given are the register values, in order.
pub get_reg_vals-of_list : (vs : List ℕ) → get_reg_vals (of_list vs) ≡ ok (take 8 vs)
unfolding get_reg_vals of_list
get_reg_vals-of_list vs = rw (push_all_lem empty_args vs) (reg_vals-as_args 7 vs)
