-- ===== src/Common/Int.antt =====
-- Signed results (`int`, `ssize_t`) over the native numbers.
use Prim.Native.Nat.{ℕ, suc, ◌+◌, ◌-◌, ◌%◌, ◌^◌}
use mathlib.Core.Bool.{Bool, true, false}

-- `negsuc n` is -(n + 1).
pub data ℤ : Type 0 where
  pos : ℕ → ℤ
  negsuc : ℕ → ℤ

abbrev pub is_neg : ℤ → Bool
is_neg (pos n) = false
is_neg (negsuc n) = true

-- The value of a signed result converted to a 64-bit word.
abbrev pub to_word : ℤ → ℕ
to_word (pos n) = n % 2 ^ 64
to_word (negsuc n) = (2 ^ 64 - suc n) % 2 ^ 64

-- `uintptr_t` + `ssize_t`
abbrev pub add_signed : ℕ → ℤ → ℕ
add_signed a z = (a + to_word z) % 2 ^ 64
