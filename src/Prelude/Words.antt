-- ===== src/Prelude/Words.antt =====
-- The C types `unsigned int` (a number below `word_mod`) and `int` (an integer).
use Prim.Native.Nat.{ℕ, ◌+◌, ◌-◌, ◌%◌, ◌^◌, ◌<◌}
use mathlib.Core.Path.{◌≡◌}
use mathlib.Core.Bool.{Bool, true, false}
use native.Mathlib.Omega.{arith}
use cs4411_p.Prelude.Tests.{ltb, if◌then◌else◌}

-- `negsuc n` is -(n + 1).
pub data ℤ : Type 0 where
  pos : ℕ → ℤ
  negsuc : ℕ → ℤ

-- The result -1 of a method that failed.
abbrev pub err : ℤ
err = negsuc 0

abbrev pub word_mod : ℕ
word_mod = 2 ^ 32

abbrev pub int_limit : ℕ
int_limit = 2 ^ 31

-- `(int) w`
abbrev pub to_int : ℕ → ℤ
to_int w = if ltb w int_limit then pos w else negsuc (word_mod - w - 1)

-- `(unsigned int) r`, for a value of type `int`
abbrev pub to_word : ℤ → ℕ
to_word (pos n) = n
to_word (negsuc n) = word_mod - n - 1

-- `r < 0`
abbrev pub is_neg : ℤ → Bool
is_neg (pos n) = false
is_neg (negsuc n) = true

-- `r == -1`
abbrev pub is_err : ℤ → Bool
is_err (pos n) = false
is_err (negsuc n) = if ltb 0 n then false else true

-- `a + b` and `a - b` on `unsigned int`
abbrev pub add_word : ℕ → ℕ → ℕ
add_word a b = (a + b) % word_mod

abbrev pub sub_word : ℕ → ℕ → ℕ
sub_word a b = (a + word_mod - b) % word_mod

pub to_int_small : (w : ℕ) → w < int_limit → to_int w ≡ pos w
to_int_small w h = ground arith

pub to_word-to_int : (w : ℕ) → w < word_mod → to_word (to_int w) ≡ w
to_word-to_int w h = ground arith
