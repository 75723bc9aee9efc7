-- ===== src/FileCodec/Decoder.antt =====
-- The class FileDeCodec of Media/FileDeCodec.cpp, whose thread reads frames from a file and hands
-- them to the decoder. The functions of the codec library are taken to be loaded.
use greatone.Base.{
  ℕ, Bool, true, false, not, Option, none, some, List, ◌++◌, ℤ, to_word, ltb, if◌then◌else◌, length,
  take, drop, replicate,
}
use greatone.World.{
  codec_create, start_codec, stop_codec, add_codec_buffer, codec, run_thread, request_exit, system,
  Prog, crash, ret, ◌>>=◌, ◌>>◌, get, put, tell,
}
use greatone.FileCodec.Bytes.{chars_to_int1}

-- The bytes that `mData` has room for.
abbrev pub data_size : ℕ
data_size = 1000000

-- `mFile` is what is left to read, or NULL.
pub record FileDeCodec : Type 0 where
  pub running : Bool
  pub file : Option (List ℕ)
  pub char_length : List ℕ
  pub frame_data : List ℕ

-- The constructor. (The two arrays have no value yet; their sizes are those of the class.)
unfoldable pub new : FileDeCodec
new = record {
  running = false;
  file = none;
  char_length = replicate 4 0;
  frame_data = replicate data_size 0;
}

-- `CreateCodec`; `opened` is what `fopen` for reading finds in the file. (The code also writes a
-- byte behind each array, which the state does not show.)
unfoldable pub create_codec : (opened : Option (List ℕ)) (flags : ℤ) → Prog FileDeCodec Bool
create_codec opened flags = do
  s ← get
  put (record s { file = opened })
  tell (codec (codec_create flags true false))
  ret true

-- `StartVideo`.
unfoldable pub start_video : Prog FileDeCodec Bool
start_video = do
  s ← get
  if s.running then ret false else do
    tell (codec start_codec)
    tell (system run_thread)
    put (record s { running = true })
    ret true

-- `StopVideo`.
unfoldable pub stop_video : Prog FileDeCodec Bool
stop_video = do
  s ← get
  if not s.running then ret false else do
    put (record s { running = false })
    tell (system request_exit)
    tell (codec stop_codec)
    ret true

-- `fclose` of a file that is open.
unfoldable pub close_file : Prog FileDeCodec (Unit {0})
close_file s log = elim s.file [ none ↦ crash | some bytes ↦ ret tt s log ]

-- `DeInit`.
unfoldable pub de_init : Prog FileDeCodec Bool
unfolding stop_video close_file
de_init = do s ← get; if s.running then stop_video else ret true; close_file; ret true

-- What `fread(dst, n, 1, file)` leaves, for an array of `room` bytes: whether all `n` bytes were
-- there, the array, and what is left of the file. A short file is read to its end; `none` is a write
-- behind the array.
unfoldable pub fread : (room n : ℕ) → (dst file : List ℕ) → Option (Bool × List ℕ × List ℕ)
fread room n dst file =
    if ltb room (length (take n file))
    then none
    else some
        (not (ltb (length file) n), take n file ++ drop (length (take n file)) dst, drop n file)

-- The second `fread` and the call of the decoder, for a length that was read.
unfoldable pub read_frame : ℤ → List ℕ → List ℕ → Prog FileDeCodec Bool
read_frame len chars rest s log = elim (fread data_size (to_word len) s.frame_data rest) [
  | none ↦ crash
  | some (full, bytes, left) ↦
      (tell (codec (add_codec_buffer bytes len)) >> ret true)
        (record s { file = some left; char_length = chars; frame_data = bytes }) log
]

-- The branch behind the first `fread`.
unfoldable pub read_length : Option (Bool × List ℕ × List ℕ) → Prog FileDeCodec Bool
read_length none s log = crash
read_length (some (false, chars, left)) s log =
    ret true (record s { file = some left; char_length = chars }) log
read_length (some (true, chars, left)) s log = elim (chars_to_int1 chars 0) [
  | none ↦ crash
  | some len ↦ read_frame len chars left s log
]

-- `threadLoop`.
unfoldable pub thread_loop : Prog FileDeCodec Bool
thread_loop s log = if not s.running then ret true s log else elim s.file [
  | none ↦ crash
  | some bytes ↦ read_length (fread 4 4 s.char_length bytes) s log
]
