-- ===== src/CodecReceiver/Mime.antt =====
-- Which packets `ReceiveSource` hands to the decoder.
use greatone.Base.{
  ℕ, ◌≡◌, refl, ap₂, Bool, true, false, Option, none, some, List, [], ◌∷◌, ◌++◌, ◌==◌, ==_iff, ℤ,
  if◌then◌else◌, length, take, ◌≤◌, ◌≢◌, arith,
}
use greatone.World.{codec, add_codec_buffer, Trace, done, crash}
use greatone.CodecReceiver.{CodecReceiver, str_equal, mime_h264, receive_source}

-- `strcmp` says equal exactly for memory that starts with the string and its 0.
str_equal-true : (mem s : List ℕ) → str_equal mem s ≡ some true → take (length s) mem ≡ s
unfolding str_equal
str_equal-true mem [] e = refl
str_equal-true [] (b ∷ bs) e = cc
str_equal-true (a ∷ mem) (b ∷ bs) e = go (a == b) refl e (str_equal-true mem bs)
  where
    go :
        (c : Bool)
        → (a == b) ≡ c
        → (if c then str_equal mem bs else some false) ≡ some true
        → (str_equal mem bs ≡ some true → take (length bs) mem ≡ bs)
        → a ∷ take (length bs) mem ≡ b ∷ bs
    go true same e' h = ap₂ (λ x y. x ∷ y) ((==_iff a b).0 same) (h e')
    go false other e' h = cc

str_equal-append : (s rest : List ℕ) → str_equal (s ++ rest) s ≡ some true
unfolding str_equal
str_equal-append [] rest = refl
str_equal-append (b ∷ bs) rest = rw ((==_iff b b).1 refl, str_equal-append bs rest)

-- It reads no memory behind a block that is as long as the string.
str_equal-reads : (mem s : List ℕ) → length s ≤ length mem → str_equal mem s ≢ none
unfolding str_equal
str_equal-reads mem [] fits e = cc
str_equal-reads [] (b ∷ bs) fits e = absurd (omega arith)
str_equal-reads (a ∷ mem) (b ∷ bs) fits e = go (a == b) e (str_equal-reads mem bs (omega arith))
  where
    go :
        (c : Bool)
        → (if c then str_equal mem bs else some false) ≡ none
        → (str_equal mem bs ≢ none)
        → ⊥
    go true e' h = h e'
    go false e' h = cc

-- A buffer that comes with extension data that starts with "h264" and its 0 goes to the decoder.
pub receive_source-accepts :
    (rest buffer : List ℕ) (len : ℤ) (s : CodecReceiver) (log : Trace)
    → receive_source (some (mime_h264 ++ rest)) buffer len s log
      ≡ done tt s (log ++ (codec (add_codec_buffer buffer len) ∷ []))
unfolding receive_source
receive_source-accepts rest buffer len s log = rw (receive_source, str_equal-append mime_h264 rest)

-- Any other extension data of five bytes or more is read within those bytes, and the buffer that
-- comes with it goes nowhere.
receive_source-rejects :
    (mem buffer : List ℕ) (len : ℤ) (s : CodecReceiver) (log : Trace)
    → length mime_h264 ≤ length mem
    → take (length mime_h264) mem ≢ mime_h264
    → receive_source (some mem) buffer len s log ≡ done tt s log
unfolding receive_source
receive_source-rejects mem buffer len s log fits other =
    go (str_equal mem mime_h264) (str_equal-reads mem mime_h264 fits)
      (λ e. other (str_equal-true mem mime_h264 e))
  where
    go :
        (r : Option Bool)
        → r ≢ none
        → r ≢ some true
        → (elim r [
          | none ↦ crash
          | some true ↦ done tt s (log ++ (codec (add_codec_buffer buffer len) ∷ []))
          | some false ↦ done tt s log
        ])
          ≡ done tt s log
    go none reads other' = absurd (reads refl)
    go (some true) reads other' = absurd (other' refl)
    go (some false) reads other' = refl
