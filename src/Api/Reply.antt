-- ===== src/Api/Reply.antt =====
-- What a function of the C API gives: its value, and errno where it sets it.
use veoffload.Base.{ℕ, Option, none, some}
use veoffload.Steps.{Step, give, ◌>>=◌}

pub record Reply (A : Type 0) : Type 0 where
  pub value : A
  pub errno : Option ℕ

abbrev pub plain : {A : Type 0} → A → Reply A
plain v = record { value = v; errno = none }

-- `errno = e; return v`.
abbrev pub with_errno : {A : Type 0} → A → ℕ → Reply A
with_errno v e = record { value = v; errno = some e }

-- `return` of the value of a call.
unfoldable pub reply : {S A : Type 0} → Step S A → Step S (Reply A)
reply m = do v ← m; give (plain v)
