-- ===== src/FileCodec/Cut.antt =====
-- A file that ends within a frame, as one does when the recording was broken off.
use greatone.Base.{
  ℕ, zero, suc, ◌%◌, ◌^◌, ◌<◌, ◌≤◌, ◌≡◌, refl, true, false, some, List, [], ◌∷◌, ◌++◌, pos, arith,
  ltb, ◌∙◌, length, drop, take_all,
}
use greatone.World.{add_codec_buffer, codec, Trace, done}
use greatone.FileCodec.Bytes.{int_to_bytes}
use greatone.FileCodec.Decoder.{FileDeCodec, data_size, fread, read_frame, read_length, thread_loop}
use greatone.FileCodec.RoundTrip.{
  player, play, file_of, delivered, AllFit, fread-append, four_bytes, read_length-int_to_bytes,
  play-file_of,
}

drop_all : (n : ℕ) (xs : List ℕ) → length xs ≤ n → drop n xs ≡ []
drop_all zero [] h = refl
drop_all zero (x ∷ xs) h = absurd (omega arith)
drop_all (suc n) [] h = refl
drop_all (suc n) (x ∷ xs) h = drop_all n xs (omega arith)

-- A read of more bytes than there are.
fread-short :
    (room n : ℕ) (dst file : List ℕ)
    → length file < n
    → n ≤ room
    → fread room n dst file ≡ some (false, file ++ drop (length file) dst, [])
unfolding fread
fread-short room n dst file short fits =
    let missing : ltb (length file) n ≡ true = ground arith in
    let small : ltb room (length file) ≡ false = ground arith in
    rw (take_all n file (omega arith), drop_all n file (omega arith), missing, small) refl

-- The call for a frame of `n` bytes of which the file has only these.
abbrev pub stale : ℕ → List ℕ → List ℕ → Trace
stale n cut mem = codec (add_codec_buffer (cut ++ drop (length cut) mem) (pos n)) ∷ []

read_frame-cut :
    (n : ℕ) (cut chars : List ℕ) (s : FileDeCodec) (log : Trace)
    → length cut < n
    → n ≤ data_size
    → read_frame (pos n) chars cut s log
      ≡ done true
          (record s {
            file = some [];
            char_length = chars;
            frame_data = cut ++ drop (length cut) s.frame_data;
          })
          (log ++ stale n cut s.frame_data)
unfolding read_frame
read_frame-cut n cut chars s log short fits =
    let small : n % 2 ^ 32 ≡ n = omega arith in
    rw (small, fread-short data_size n s.frame_data cut short fits, read_frame)

thread_loop-cut :
    (n : ℕ) (cut chars mem : List ℕ) (log : Trace)
    → length cut < n
    → n ≤ data_size
    → thread_loop (player (int_to_bytes (pos n) ++ cut) chars mem) log
      ≡ done true
          (player [] (int_to_bytes (pos n) ++ drop 4 chars) (cut ++ drop (length cut) mem))
          (log ++ stale n cut mem)
unfolding thread_loop
thread_loop-cut n cut chars mem log short fits = rw (
  fread-append 4 4 chars (int_to_bytes (pos n)) cut (four_bytes (pos n)) (omega arith),
  read_length-int_to_bytes (pos n) (drop 4 chars) cut _ log (omega arith),
  read_frame-cut n cut (int_to_bytes (pos n) ++ drop 4 chars) _ log short fits,
)

thread_loop-end :
    (chars mem : List ℕ) (log : Trace)
    → thread_loop (player [] chars mem) log ≡ done true (player [] chars mem) log
unfolding thread_loop fread read_length
thread_loop-end chars mem log = refl

-- A file with whole frames, and behind them the length of a frame of at most 1000000 bytes and fewer
-- bytes than that: the whole frames are handed to the decoder as they were, one in each round. The
-- next round hands over as many bytes as the length says, and those that the file lacks are the ones
-- that the array had from the frames before. Every later round does nothing.
pub play-cut :
    (fs : List (List ℕ)) (n : ℕ) (cut chars mem : List ℕ) (log : Trace)
    → AllFit fs
    → length cut < n
    → n ≤ data_size
    → (s : FileDeCodec) × (calls : Trace) × (play
          (length fs)
          (player (file_of fs ++ (int_to_bytes (pos n) ++ cut)) chars mem)
          log
        ≡ done tt s (log ++ calls))
      × (delivered calls ≡ fs)
      × (t : FileDeCodec) × ((log' : Trace)
          → (thread_loop s log' ≡ done true t (log' ++ stale n cut s.frame_data))
            × (thread_loop t log' ≡ done true t log'))
play-cut fs n cut chars mem log fit short fits =
    let (s, calls, ran, got, left, on) =
      play-file_of fs (int_to_bytes (pos n) ++ cut) chars mem log fit in
    (
      s,
      calls,
      ran,
      got,
      player [] (int_to_bytes (pos n) ++ drop 4 s.char_length)
          (cut ++ drop (length cut) s.frame_data),
      λ log'. (
        (λ i. thread_loop (record s { running = on i; file = left i }) log')
            ∙ thread_loop-cut n cut s.char_length s.frame_data log' short fits,
        thread_loop-end _ _ log',
      ),
    )
