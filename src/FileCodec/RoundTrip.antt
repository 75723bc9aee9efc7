-- ===== src/FileCodec/RoundTrip.antt =====
-- What is recorded is what is played back.
use greatone.Base.{
  ℕ, zero, suc, ◌+◌, ◌%◌, ◌^◌, ◌≤◌, ◌≡◌, refl, sym, ◌∙◌, ap, ap₂, Bool, true, false, some, List, [],
  ◌∷◌, ◌++◌, ℤ, IsInt32, pos, arith, ltb, length, take, drop, append_assoc, append-nil,
  length-append, take_all,
}
use greatone.World.{add_codec_buffer, codec, Trace, Prog, done, ret, ◌>>◌}
use greatone.FileCodec.Bytes.{int_to_bytes, chars_to_int1-int_to_bytes}
use greatone.FileCodec.Encoder.{FileEnCodec, frame_bytes, on_codec_buffer}
use greatone.FileCodec.Decoder.{FileDeCodec, data_size, fread, read_frame, read_length, thread_loop}

-- The frames one after another, as the encoder hands them over.
pub record_all : List (List ℕ) → Prog FileEnCodec (Unit {0})
record_all [] = ret tt
record_all (f ∷ fs) = on_codec_buffer f (pos (length f)) >> record_all fs

-- That many rounds of the playing thread.
pub play : ℕ → Prog FileDeCodec (Unit {0})
play zero = ret tt
play (suc k) = thread_loop >> play k

-- The file for the frames.
abbrev pub file_of : List (List ℕ) → List ℕ
file_of [] = []
file_of (f ∷ fs) = frame_bytes f (length f) ++ file_of fs

-- What a trace hands to the decoder.
abbrev pub delivered : Trace → List (List ℕ)
delivered [] = []
delivered (codec (add_codec_buffer mem (pos n)) ∷ cs) = take n mem ∷ delivered cs
delivered (_ ∷ cs) = delivered cs

-- Every frame fits the array of the player.
abbrev pub AllFit : List (List ℕ) → Type 0
AllFit [] = Unit {0}
AllFit (f ∷ fs) = (length f ≤ data_size) × AllFit fs

abbrev pub recorder : Bool → List ℕ → FileEnCodec
recorder running bytes = record { running = running; file = some bytes }

record_all-file_of :
    (fs : List (List ℕ)) (running : Bool) (bytes : List ℕ) (log : Trace)
    → record_all fs (recorder running bytes) log
      ≡ done tt (recorder running (bytes ++ file_of fs)) log
unfolding record_all on_codec_buffer
record_all-file_of [] running bytes log = rw append-nil
record_all-file_of (f ∷ fs) running bytes log =
    let fits : ltb (length f) (length f) ≡ false = ground arith in
    rw fits (
      record_all-file_of fs running (bytes ++ frame_bytes f (length f)) log
      ∙ ap (λ b. done tt (recorder running b) log)
          (append_assoc bytes (frame_bytes f (length f)) (file_of fs)))

abbrev pub player : List ℕ → List ℕ → List ℕ → FileDeCodec
player bytes chars mem = record {
  running = true;
  file = some bytes;
  char_length = chars;
  frame_data = mem;
}

take-length-append : (xs ys : List ℕ) → take (length xs) (xs ++ ys) ≡ xs
take-length-append [] ys = refl
take-length-append (x ∷ xs) ys = rw (take-length-append xs ys)

drop-length-append : (xs ys : List ℕ) → drop (length xs) (xs ++ ys) ≡ ys
drop-length-append [] ys = refl
drop-length-append (x ∷ xs) ys = drop-length-append xs ys

-- A read of exactly the bytes that stand in front.
pub fread-append :
    (room n : ℕ) (dst xs ys : List ℕ)
    → n ≡ length xs
    → n ≤ room
    → fread room n dst (xs ++ ys) ≡ some (true, xs ++ drop n dst, ys)
unfolding fread
fread-append room n dst xs ys e fits =
    let enough : ltb (length xs + length ys) (length xs) ≡ false = ground arith in
    let small : ltb room (length xs) ≡ false = ground arith in
    rw (e, take-length-append xs ys, drop-length-append xs ys, length-append xs ys, enough, small)

pub four_bytes : (i : ℤ) → 4 ≡ length (int_to_bytes i)
unfolding int_to_bytes
four_bytes i = refl

frame_split :
    (f rest : List ℕ)
    → frame_bytes f (length f) ++ rest ≡ int_to_bytes (pos (length f)) ++ (f ++ rest)
unfolding frame_bytes
frame_split f rest =
    append_assoc (int_to_bytes (pos (length f))) (take (length f) f) rest
    ∙ ap (λ x. int_to_bytes (pos (length f)) ++ (x ++ rest)) (take_all (length f) f (omega arith))

pub read_length-int_to_bytes :
    (i : ℤ) (xs left : List ℕ) (s : FileDeCodec) (log : Trace)
    → IsInt32 i
    → read_length (some (true, int_to_bytes i ++ xs, left)) s log
      ≡ read_frame i (int_to_bytes i ++ xs) left s log
unfolding read_length
read_length-int_to_bytes i xs left s log h = rw (chars_to_int1-int_to_bytes [] xs i h, read_length)

read_frame-append :
    (f rest chars : List ℕ) (s : FileDeCodec) (log : Trace)
    → length f ≤ data_size
    → read_frame (pos (length f)) chars (f ++ rest) s log
      ≡ done true
          (record s {
            file = some rest;
            char_length = chars;
            frame_data = f ++ drop (length f) s.frame_data;
          })
          (log
            ++ (codec (add_codec_buffer (f ++ drop (length f) s.frame_data) (pos (length f))) ∷ []))
unfolding read_frame
read_frame-append f rest chars s log fits =
    let small : length f % 2 ^ 32 ≡ length f = omega arith in
    let read =
      ap (λ n. fread data_size n s.frame_data (f ++ rest)) small
      ∙ fread-append data_size (length f) s.frame_data f rest refl fits in
    rw (read, read_frame)

-- One round takes one frame off the file.
thread_loop-frame :
    (f rest chars mem : List ℕ) (log : Trace)
    → length f ≤ data_size
    → thread_loop (player (frame_bytes f (length f) ++ rest) chars mem) log
      ≡ done true
          (player rest (int_to_bytes (pos (length f)) ++ drop 4 chars) (f ++ drop (length f) mem))
          (log ++ (codec (add_codec_buffer (f ++ drop (length f) mem) (pos (length f))) ∷ []))
unfolding thread_loop
thread_loop-frame f rest chars mem log fits =
    let n = length f in
    ap (λ b. thread_loop (player b chars mem) log) (frame_split f rest)
    ∙ rw (
      fread-append 4 4 chars (int_to_bytes (pos n)) (f ++ rest) (four_bytes (pos n)) (omega arith),
      read_length-int_to_bytes (pos n) (drop 4 chars) (f ++ rest) _ log (omega arith),
      read_frame-append f rest (int_to_bytes (pos n) ++ drop 4 chars) _ log fits,
    )

pub play-file_of :
    (fs : List (List ℕ)) (rest chars mem : List ℕ) (log : Trace)
    → AllFit fs
    → (s : FileDeCodec) × (calls : Trace) × (play
          (length fs)
          (player (file_of fs ++ rest) chars mem)
          log
        ≡ done tt s (log ++ calls))
      × (delivered calls ≡ fs)
      × (s.file ≡ some rest)
      × (s.running ≡ true)
unfolding play
play-file_of [] rest chars mem log fit =
    (player rest chars mem, [], rw append-nil, refl, refl, refl)
play-file_of (f ∷ fs) rest chars mem log (fit, fits) =
    let n = length f in
    let call = codec (add_codec_buffer (f ++ drop n mem) (pos n)) in
    let (s, calls, ran, got, left, on) =
      play-file_of fs rest (int_to_bytes (pos n) ++ drop 4 chars) (f ++ drop n mem)
        (log ++ (call ∷ [])) fits in
    (
      s,
      call ∷ calls,
      rw (
        append_assoc (frame_bytes f n) (file_of fs) rest,
        thread_loop-frame f (file_of fs ++ rest) chars mem log fit,
        ran,
        append_assoc log (call ∷ []) calls,
      ),
      ap₂ ◌∷◌ (take-length-append f (drop n mem)) got,
      left,
      on,
    )

-- Frames of at most 1000000 bytes that the recorder wrote to a new file are handed to the decoder
-- as they were, in order, one in each round of the playing thread, which ends at the end of the
-- file and goes on running.
pub play-record_all :
    (fs : List (List ℕ)) (running : Bool) (chars mem : List ℕ) (log log' : Trace)
    → AllFit fs
    → (bytes : List ℕ) × (record_all fs (recorder running []) log
        ≡ done tt (recorder running bytes) log)
      × (s : FileDeCodec) × (calls : Trace) × (play (length fs) (player bytes chars mem) log'
          ≡ done tt s (log' ++ calls))
      × (delivered calls ≡ fs)
      × (s.file ≡ some [])
      × (s.running ≡ true)
play-record_all fs running chars mem log log' fits =
    let (s, calls, ran, got, left, on) = play-file_of fs [] chars mem log' fits in
    (
      file_of fs,
      record_all-file_of fs running [] log,
      s,
      calls,
      ap (λ b. play (length fs) (player b chars mem) log') (sym (append-nil (file_of fs))) ∙ ran,
      got,
      left,
      on,
    )
