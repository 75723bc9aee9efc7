-- ===== src/Base/Int.antt =====
-- Signed integers over the native numbers, and the 32-bit two's complement patterns that stand
-- for an `int`.
use Prim.Native.Nat.{ℕ, ◌-◌, ◌^◌, ◌%◌, ◌<◌}
use mathlib.Core.Path.{◌≡◌}
use mathlib.Core.Bool.{Bool, true, false}
use native.Mathlib.Omega.{arith}
use greatone.Base.Tests.{ltb, if◌then◌else◌}

-- `negsuc n` is -(n + 1).
pub data ℤ : Type 0 where
  pos : ℕ → ℤ
  negsuc : ℕ → ℤ

-- The test `i < 0`.
abbrev pub is_neg : ℤ → Bool
is_neg (pos n) = false
is_neg (negsuc n) = true

-- The test `i > 0`.
abbrev pub is_pos : ℤ → Bool
is_pos (pos n) = ltb 0 n
is_pos (negsuc n) = false

-- The 32 bits of an `int`.
abbrev pub to_word : ℤ → ℕ
to_word (pos n) = n % 2 ^ 32
to_word (negsuc n) = 2 ^ 32 - 1 - n % 2 ^ 32

-- The `int` that 32 bits stand for.
abbrev pub of_word : ℕ → ℤ
of_word w = if ltb w (2 ^ 31) then pos w else negsuc (2 ^ 32 - 1 - w)

-- The conversion of an `int` to a `short`, which keeps its lower 16 bits.
abbrev pub to_short : ℤ → ℤ
to_short i = let w = to_word i % 2 ^ 16 in if ltb w (2 ^ 15) then pos w else negsuc (2 ^ 16 - 1 - w)

-- The values that an `int` takes.
abbrev pub IsInt32 : ℤ → Type 0
IsInt32 (pos n) = n < 2 ^ 31
IsInt32 (negsuc n) = n < 2 ^ 31

pub of_word-to_word : (i : ℤ) → IsInt32 i → of_word (to_word i) ≡ i
of_word-to_word (pos n) h = ground arith
of_word-to_word (negsuc n) h = ground arith

pub of_word_small : (n : ℕ) → n < 2 ^ 31 → of_word (n % 2 ^ 32) ≡ pos n
of_word_small n h = ground arith
