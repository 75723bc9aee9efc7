-- ===== src/FileCodec/Bytes.antt =====
-- The length of a frame as four bytes: `intToBytes` of Media/FileEnCodec.cpp and `charsToInt1` of
-- Media/FileDeCodec.cpp.
use greatone.Base.{
  ℕ, ◌+◌, ◌*◌, ◌/◌, ◌%◌, ◌^◌, ◌<◌, ◌≡◌, ◌∙◌, ap, Option, none, some, List, [], ◌∷◌, ◌++◌, ℤ,
  to_word, of_word, IsInt32, of_word-to_word, arith, drop, length,
}

-- The bytes are those of the 32 bits, the lowest first.
unfoldable pub int_to_bytes : ℤ → List ℕ
int_to_bytes i =
    to_word i % 256
    ∷ to_word i / 2 ^ 8 % 256
    ∷ to_word i / 2 ^ 16 % 256
    ∷ to_word i / 2 ^ 24 % 256
    ∷ []

-- The four bytes joined; the masks and the shifts put them in places of their own, so that `|` is a
-- sum. `none` is a read behind the array.
unfoldable pub join_bytes : List ℕ → Option ℤ
join_bytes (a ∷ b ∷ c ∷ d ∷ _) =
    some (of_word (a % 256 + b % 256 * 2 ^ 8 + c % 256 * 2 ^ 16 + d % 256 * 2 ^ 24))
join_bytes _ = none

unfoldable pub chars_to_int1 : List ℕ → ℕ → Option ℤ
unfolding join_bytes
chars_to_int1 src offset = join_bytes (drop offset src)

to_word-lt : (i : ℤ) → to_word i < 2 ^ 32
to_word-lt (ℤ.pos n) = omega arith
to_word-lt (ℤ.negsuc n) = omega arith

bytes_sum :
    (w : ℕ)
    → w < 2 ^ 32
    → w % 256 % 256
        + w / 2 ^ 8 % 256 % 256 * 2 ^ 8
        + w / 2 ^ 16 % 256 % 256 * 2 ^ 16
        + w / 2 ^ 24 % 256 % 256 * 2 ^ 24
      ≡ w
bytes_sum w h = omega arith

-- Every `int`, also a negative one, is read back from the bytes that it is written as, whatever
-- stands before and behind them.
pub chars_to_int1-int_to_bytes :
    (before rest : List ℕ) (i : ℤ)
    → IsInt32 i
    → chars_to_int1 (before ++ (int_to_bytes i ++ rest)) (length before) ≡ some i
unfolding chars_to_int1 int_to_bytes
chars_to_int1-int_to_bytes [] rest i h =
    ap (λ w. some (of_word w)) (bytes_sum (to_word i) (to_word-lt i))
    ∙ ap some (of_word-to_word i h)
chars_to_int1-int_to_bytes (b ∷ before) rest i h = chars_to_int1-int_to_bytes before rest i h
