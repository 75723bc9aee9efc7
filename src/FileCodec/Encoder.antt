-- ===== src/FileCodec/Encoder.antt =====
-- The class FileEnCodec of Media/FileEnCodec.cpp, which writes the frames of an encoder to a file.
use greatone.Base.{
  ℕ, Bool, true, false, Option, none, some, List, [], ◌++◌, ℤ, pos, negsuc, ltb, if◌then◌else◌,
  length, take,
}
use greatone.World.{
  codec_create, register_buffer_call, start_codec, stop_codec, add_codec_buffer, codec, Prog, crash,
  ret, ◌>>=◌, ◌>>◌, get, put, tell,
}
use greatone.FileCodec.Bytes.{int_to_bytes}

-- `mFile` is what was written to the file so far, or NULL.
pub record FileEnCodec : Type 0 where
  pub running : Bool
  pub file : Option (List ℕ)

-- The constructor.
unfoldable pub new : FileEnCodec
new = record { running = false; file = none }

-- `CreateCodec`; `opened` says whether `fopen` for writing succeeded. (The code also writes a byte
-- behind `mcharLength` and one behind `mData`, which the state does not show.)
unfoldable pub create_codec : (opened surface : Bool) (flags : ℤ) → Prog FileEnCodec Bool
create_codec opened surface flags = do
  s ← get
  put (record s { file = if opened then some [] else none })
  tell (codec (codec_create flags surface true))
  tell (codec register_buffer_call)
  ret true

-- `StartVideo`.
unfoldable pub start_video : Prog FileEnCodec Bool
start_video = do tell (codec start_codec); ret true

-- `StopVideo`.
unfoldable pub stop_video : Prog FileEnCodec Bool
stop_video = do tell (codec stop_codec); ret true

-- `fclose` of a file that is open.
unfoldable pub close_file : Prog FileEnCodec (Unit {0})
close_file s log = elim s.file [ none ↦ crash | some bytes ↦ ret tt s log ]

-- `DeInit`.
unfoldable pub de_init : Prog FileEnCodec Bool
unfolding stop_video close_file
de_init = do s ← get; if s.running then stop_video else ret true; close_file; ret true

-- Four bytes of the length, then the frame: what `onCodecBuffer` writes.
unfoldable pub frame_bytes : List ℕ → ℕ → List ℕ
frame_bytes buf n = int_to_bytes (pos n) ++ take n buf

-- `onCodecBuffer`. A negative size, as a `size_t`, and a size beyond the buffer read behind it.
unfoldable pub on_codec_buffer : List ℕ → ℤ → Prog FileEnCodec (Unit {0})
on_codec_buffer buf (negsuc n) s log = crash
on_codec_buffer buf (pos n) s log = if ltb (length buf) n then crash else elim s.file [
  | none ↦ crash
  | some bytes ↦ ret tt (record s { file = some (bytes ++ frame_bytes buf n) }) log
]

-- `AddDecodecSource`.
unfoldable pub add_decodec_source : List ℕ → ℤ → Prog FileEnCodec (Unit {0})
add_decodec_source data' len = tell (codec (add_codec_buffer data' len))
