-- ===== src/FileCodec/Overrun.antt =====
-- A frame that is longer than the array of the player.
use greatone.Base.{
  ℕ, ◌≡◌, ◌<◌, true, List, none, ◌++◌, ℤ, IsInt32, to_word, arith, ltb, length, take, drop,
  length-take,
}
use greatone.World.{Trace, crash}
use greatone.FileCodec.Bytes.{int_to_bytes}
use greatone.FileCodec.Decoder.{FileDeCodec, data_size, fread, read_frame, thread_loop}
use greatone.FileCodec.RoundTrip.{player, fread-append, four_bytes, read_length-int_to_bytes}

fread-overrun :
    (room n : ℕ) (dst file : List ℕ) → room < n → room < length file → fread room n dst file ≡ none
unfolding fread
fread-overrun room n dst file long there =
    let taken = length-take n file in
    let behind : ltb room (length (take n file)) ≡ true = ground (arith, taken) in rw behind

read_frame-overrun :
    (i : ℤ) (rest chars : List ℕ) (s : FileDeCodec) (log : Trace)
    → data_size < to_word i
    → data_size < length rest
    → read_frame i chars rest s log ≡ crash
unfolding read_frame
read_frame-overrun i rest chars s log long there =
    rw (read_frame, fread-overrun data_size (to_word i) s.frame_data rest long there)

-- A playing thread that finds a length, also a negative one read as a `size_t`, above 1000000 in the
-- file, and more than 1000000 bytes behind it, writes behind its array.
pub thread_loop-overrun :
    (i : ℤ) (rest chars mem : List ℕ) (log : Trace)
    → IsInt32 i
    → data_size < to_word i
    → data_size < length rest
    → thread_loop (player (int_to_bytes i ++ rest) chars mem) log ≡ crash
unfolding thread_loop
thread_loop-overrun i rest chars mem log int long there = rw (
  fread-append 4 4 chars (int_to_bytes i) rest (four_bytes i) (omega arith),
  read_length-int_to_bytes i (drop 4 chars) rest (player (int_to_bytes i ++ rest) chars mem) log
      int,
  read_frame-overrun i rest (int_to_bytes i ++ drop 4 chars)
      (player (int_to_bytes i ++ rest) chars mem) log long there,
)
