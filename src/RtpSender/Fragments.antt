-- ===== src/RtpSender/Fragments.antt =====
-- `sendBufferEx1` and `sendBufferEx` of RtpTrans/RtpSender.cpp, which cut a long buffer into packets
-- of at most `SEND_PACKETSIZE` bytes.
use Prim.Native.Nat.{◌/◌}
use greatone.Base.{
  ℕ, zero, suc, ◌+◌, ◌-◌, ◌*◌, ◌%◌, Bool, true, false, List, [], ◌∷◌, ◌++◌, ℤ, pos, negsuc, to_word,
  ◌==◌, ltb, leb, if◌then◌else◌, length, take, drop, replicate,
}
use greatone.World.{
  SessionCall, set_default_mark, send_packet, send_packet_as, send_packet_ex, session, Prog, crash,
  ret, ◌>>=◌, ◌>>◌, tell,
}
use greatone.RtpSender.Defs.{send_packetsize}

-- `memcpy(dst, src, n)` over the bytes of two arrays.
unfoldable pub overlay : List ℕ → List ℕ → ℕ → List ℕ
overlay dst src n = take n src ++ drop n dst

-- `sendbuf` after its `memset`.
unfoldable pub zeros : List ℕ
zeros = replicate send_packetsize 0

-- `fullLen` after the test of `tailLen`: the number of packets before the last.
unfoldable pub full_count : (size n : ℕ) → ℕ
full_count size n = if n % size == 0 then n / size - 1 else n / size

-- The decimal digits that `sprintf` writes of a number below 10 to the power of the fuel.
-- An `int` has ten at most.
unfoldable pub decimal : ℕ → ℕ → List ℕ
decimal zero n = []
decimal (suc k) n = if ltb n 10 then (b'0' + n) ∷ [] else decimal k (n / 10) ++ (b'0' + n % 10) ∷ []

-- `intToString` on a number that is not negative.
unfoldable pub int_to_string : ℕ → List ℕ
unfolding decimal
int_to_string n = decimal 10 n

-- `header + intToString(t)`.
unfoldable pub fragment_header : (count t : ℕ) → List ℕ
fragment_header count t = int_to_string count ++ (b':' ∷ int_to_string t)

module _ {S : Type 0} where
  -- The loop over the full packets of `size` bytes: `left` of them from the one of index `t`. The
  -- status of a packet is only logged. The result is what `sendbuf` holds in the end.
  unfoldable pub send_full :
      (emit : ℕ → List ℕ → SessionCall)
      → (size left t : ℕ) → (buf sendbuf : List ℕ) → Prog S (List ℕ)
  send_full emit size zero t buf sendbuf = ret sendbuf
  send_full emit size (suc left) t buf sendbuf = do
    tell (session (emit t (overlay sendbuf (drop (t * size) buf) size)))
    send_full emit size left (t + 1) buf (overlay sendbuf (drop (t * size) buf) size)

  -- The packets of a buffer that is longer than one: full ones with the default mark off, and a
  -- last one with it on.
  unfoldable pub send_fragments :
      (emit emit_last : (t len : ℕ) → List ℕ → SessionCall)
      → (size n : ℕ) → (buf sendbuf : List ℕ) → Prog S (Unit {0})
  send_fragments emit emit_last size n buf sendbuf = do
    tell (session (set_default_mark false))
    filled ← send_full (λ t. emit t size) size (full_count size n) 0 buf sendbuf
    tell (session (set_default_mark true))
    let t = full_count size n
    let len = n - t * size
    tell (session (emit_last t len (overlay filled (drop (t * size) buf) len)))

  -- `sendBufferEx1` with packets of `size` bytes. A negative length makes `memcpy` run off its
  -- arrays, and so does a buffer that is shorter than its length.
  unfoldable pub send_ex1 : (size : ℕ) → List ℕ → List ℕ → ℤ → Prog S Bool
  send_ex1 size sendbuf buf (negsuc n) = λ s log. crash
  send_ex1 size sendbuf buf (pos n) =
      if ltb (length buf) n
      then (λ s log. crash)
      else if leb n size
      then (do tell (session (send_packet (overlay sendbuf buf n) (n + 1))); ret true)
      else do
        send_fragments (λ t len mem. send_packet mem len) (λ t len mem. send_packet mem len) size n
            buf sendbuf
        ret true

  -- `sendBufferEx1`.
  unfoldable pub send_buffer_ex1 : List ℕ → ℤ → Prog S Bool
  send_buffer_ex1 = send_ex1 send_packetsize zeros

  -- The last packet of `sendBufferEx` goes to the `SendPacket` of five arguments, where the
  -- header's pointer is read as the mark and its length as the increment of the timestamp.
  unfoldable pub send_ex : (size : ℕ) → List ℕ → List ℕ → ℤ → (time_stamp : ℤ) → Prog S Bool
  send_ex size sendbuf buf (negsuc n) time_stamp = λ s log. crash
  send_ex size sendbuf buf (pos n) time_stamp =
      if ltb (length buf) n
      then (λ s log. crash)
      else if leb n size
      then (do
        tell (session (send_packet_as (overlay sendbuf buf n) n 0 false (to_word time_stamp)))
        ret true)
      else do
        send_fragments
            (λ t len mem.
              send_packet_ex mem len (t % 65536) (fragment_header (full_count size n + 1) t)
                (length (fragment_header (full_count size n + 1) t)))
            (λ t len mem.
              send_packet_as mem len (t % 256) true
                (length (fragment_header (full_count size n + 1) t)))
            size n buf sendbuf
        ret true

  -- `sendBufferEx`.
  unfoldable pub send_buffer_ex : List ℕ → ℤ → (time_stamp : ℤ) → Prog S Bool
  send_buffer_ex = send_ex send_packetsize zeros
