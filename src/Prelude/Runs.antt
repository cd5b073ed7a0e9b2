-- ===== src/Prelude/Runs.antt =====
-- Code that may stop the program: `none` stands for a panic, a failed `assert`, a call of `exit`, a
-- division by zero or an array access out of bounds.
use mathlib.Core.Option.{Option, none, some}

abbrev pub Run {ℓ} : Type ℓ → Type ℓ
Run A = Option A

infixl 5 ◌>>=◌
abbrev pub ◌>>=◌ {ℓ κ} : {A : Type ℓ} {B : Type κ} → Run A → (A → Run B) → Run B
none >>= f = none
some a >>= f = f a
