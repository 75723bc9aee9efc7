-- ===== src/RtpSender/Payload.antt =====
-- What the packets of a long buffer carry.
use Prim.Native.Nat.{◌/◌}
use greatone.Base.{
  ℕ, zero, suc, ◌+◌, ◌-◌, ◌*◌, ◌%◌, ◌<◌, ◌≤◌, ◌≡◌, refl, sym, ◌∙◌, ap, ap₂, append-nil, Bool-cases,
  inl, inr, pos, to_word, leb→le, true, false, List, [], ◌∷◌, ◌++◌, ℤ, arith, ◌==◌, leb, length,
  take, drop, append_assoc, take-add, length-drop, le→ltb_false,
}
use native.Mathlib.Nat.{div-add-mod', mod-lt}
use greatone.World.{
  SessionCall, set_default_mark, send_packet, send_packet_as, send_packet_ex, session, Trace, done,
}
use greatone.RtpSender.Defs.{send_packetsize}
use greatone.RtpSender.Fragments.{
  overlay, full_count, send_full, send_fragments, fragment_header, send_ex, send_ex1, zeros,
  send_buffer_ex, send_buffer_ex1,
}
use greatone.RtpSender.Packets.{
  Packs, payload, payloads-append, Fits, AllFit-append, Sends, take-overlay, le-length-overlay,
  take-slices,
}

send_full-Sends :
    {S : Type 0} (emit : ℕ → List ℕ → SessionCall) (size left t : ℕ) (buf sendbuf : List ℕ) (s : S)
    (log : Trace)
    → Packs size emit
    → (t + left) * size ≤ length buf
    → (filled : List ℕ) × Sends size
        (send_full emit size left t buf sendbuf)
        filled
        s
        log
        (take (left * size) (drop (t * size) buf))
unfolding send_full
send_full-Sends emit size zero t buf sendbuf s log packs h =
    let none_left : 0 * size ≡ 0 = omega arith in (sendbuf, ([], rw append-nil, rw none_left, tt))
send_full-Sends emit size (suc left) t buf sendbuf s log packs h =
    let src = drop (t * size) buf in
    let here : size ≤ length src = omega (arith, length-drop (t * size) buf) in
    let call = session (emit t (overlay sendbuf src size)) in
    let (p, f) = packs t (overlay sendbuf src size) (le-length-overlay sendbuf src size here) in
    let (filled, (calls, ran, sent, fit)) =
      send_full-Sends emit size left (t + 1) buf (overlay sendbuf src size) s (log ++ (call ∷ []))
        packs (omega arith) in
    (
      filled,
      (
        call ∷ calls,
        ran ∙ ap (done filled s) (append_assoc log (call ∷ []) calls),
        ap₂ ◌++◌ (p ∙ take-overlay sendbuf src size here) sent ∙ take-slices size left t buf,
        (f, fit),
      ),
    )

whole_bounds :
    (size q n : ℕ)
    → q * size ≡ n
    → 0 < size
    → size < n
    → ((q - 1) * size < n) × (n ≤ (q - 1) * size + size)
whole_bounds size zero n e pos_size long = absurd (omega arith)
whole_bounds size (suc q) n e pos_size long =
    let e' : suc q - 1 ≡ q = omega arith in rw e' (omega arith)

part_bounds :
    (size q r n : ℕ) → q * size + r ≡ n → 0 < r → r < size → (q * size < n) × (n ≤ q * size + size)
part_bounds size q r n e some_left small = omega arith

-- The last packet has a byte at least and `size` bytes at most.
full_count_bounds :
    (size n : ℕ)
    → 0 < size
    → size < n
    → (full_count size n * size < n) × (n ≤ full_count size n * size + size)
unfolding full_count
full_count_bounds size n some_size long = elim (Bool-cases (n % size == 0)) [
  | inl whole ↦
      rw whole (whole_bounds size (n / size) n (ground (arith, div-add-mod' n size)) some_size long)
  | inr part ↦ rw part (
      part_bounds size (n / size) (n % size) n (div-add-mod' n size) (ground arith)
        (mod-lt n some_size))
]

all_slices :
    (size t n : ℕ) (buf : List ℕ)
    → t * size ≤ n
    → take (t * size) (drop (0 * size) buf) ++ (take (n - t * size) (drop (t * size) buf) ++ [])
      ≡ take n buf
all_slices size t n buf h =
    let e : 0 * size ≡ 0 = omega arith in
    let e' : t * size + (n - t * size) ≡ n = omega arith in
    rw (e, append-nil) (sym (take-add (t * size) (n - t * size) buf) ∙ ap (λ k. take k buf) e')

send_fragments-Sends :
    {S : Type 0} (emit emit_last : (t len : ℕ) → List ℕ → SessionCall) (size n : ℕ)
    (buf sendbuf : List ℕ) (s : S) (log : Trace)
    → Packs size (λ t. emit t size)
    → ((t len : ℕ) (mem : List ℕ)
        → len ≤ size
        → len ≤ length mem
        → (payload (session (emit_last t len mem)) ≡ take len mem)
          × Fits size (session (emit_last t len mem)))
    → 0 < size
    → size < n
    → n ≤ length buf
    → Sends size (send_fragments emit emit_last size n buf sendbuf) tt s log (take n buf)
unfolding send_fragments
send_fragments-Sends emit emit_last size n buf sendbuf s log packs packs_last some_size long fits =
    let t = full_count size n in
    let len = n - t * size in
    let (below, above) = full_count_bounds size n some_size long in
    let (filled, (calls, ran, sent, fit)) =
      send_full-Sends (λ t. emit t size) size t 0 buf sendbuf s
        (log ++ (session (set_default_mark false) ∷ [])) packs (omega arith) in
    let src = drop (t * size) buf in
    let room : len ≤ length src = omega (arith, length-drop (t * size) buf) in
    let (p, f) =
      packs_last t len (overlay filled src len) (omega arith)
        (le-length-overlay filled src len room) in
    let end =
      session (set_default_mark true) ∷ session (emit_last t len (overlay filled src len)) ∷ [] in
    (
      session (set_default_mark false) ∷ calls ++ end,
      rw ran (ap (done tt s) (simp append_assoc)),
      payloads-append calls end
          ∙ ap₂ (λ x y. x ++ (y ++ [])) sent (p ∙ take-overlay filled src len room)
          ∙ all_slices size t n buf (omega arith),
      (tt, AllFit-append size calls end fit (tt, (f, tt))),
    )

module _ {S : Type 0} (size n : ℕ) (buf sendbuf : List ℕ) (s : S) (log : Trace)
    (fits : n ≤ length buf) where
  send_ex-Sends :
      (time_stamp : ℤ)
      → 0 < size
      → Sends size (send_ex size sendbuf buf (pos n) time_stamp) true s log (take n buf)
  unfolding send_ex
  send_ex-Sends time_stamp some_size = elim (Bool-cases (leb n size)) [
    | inl short ↦ (
      session (send_packet_as (overlay sendbuf buf n) n 0 false (to_word time_stamp)) ∷ [],
      rw (le→ltb_false n (length buf) fits, short),
      append-nil _ ∙ take-overlay sendbuf buf n fits,
      ((leb→le n size short, le-length-overlay sendbuf buf n fits), tt),
    )
    | inr long ↦
        let header = fragment_header (full_count size n + 1) in
        let (calls, ran, sent, fit) =
          send_fragments-Sends
            (λ t len mem. send_packet_ex mem len (t % 65536) (header t) (length (header t)))
            (λ t len mem. send_packet_as mem len (t % 256) true (length (header t))) size n buf
            sendbuf s log (λ t mem h. (refl, (omega arith, h))) (λ t len mem h k. (refl, (h, k)))
            some_size (ground arith) fits in
        (calls, rw (le→ltb_false n (length buf) fits, long, ran), sent, fit)
  ]

  send_ex1-Sends :
      0 < size → size < n → Sends size (send_ex1 size sendbuf buf (pos n)) true s log (take n buf)
  unfolding send_ex1
  send_ex1-Sends some_size long =
      let (calls, ran, sent, fit) =
        send_fragments-Sends (λ t len mem. send_packet mem len) (λ t len mem. send_packet mem len)
          size n buf sendbuf s log (λ t mem h. (refl, (omega arith, h)))
          (λ t len mem h k. (refl, (h, k))) some_size long fits in
      let longer : leb n size ≡ false = ground arith in
      (calls, rw (le→ltb_false n (length buf) fits, longer, ran), sent, fit)

-- `sendBufferEx` on a buffer of at least `n` bytes, however long, returns true and makes packets
-- whose payloads have at most 36000 bytes each, are read from within the memory at their pointer,
-- and together are exactly the `n` bytes, in order. (Of the header extensions of these packets
-- nothing is said.)
pub send_buffer_ex-Sends :
    {S : Type 0} (n : ℕ) (buf : List ℕ) (time_stamp : ℤ) (s : S) (log : Trace)
    → n ≤ length buf
    → Sends send_packetsize (send_buffer_ex buf (pos n) time_stamp) true s log (take n buf)
unfolding send_buffer_ex
send_buffer_ex-Sends n buf time_stamp s log fits =
    send_ex-Sends send_packetsize n buf zeros s log fits time_stamp (omega arith)

-- `sendBufferEx1` on a buffer of `n` bytes that is longer than 36000 bytes makes packets whose
-- payloads have at most 36000 bytes each, are read from within the memory at their pointer, and
-- together are exactly the `n` bytes, in order.
pub send_buffer_ex1-Sends :
    {S : Type 0} (n : ℕ) (buf : List ℕ) (s : S) (log : Trace)
    → n ≤ length buf
    → send_packetsize < n
    → Sends send_packetsize (send_buffer_ex1 buf (pos n)) true s log (take n buf)
unfolding send_buffer_ex1
send_buffer_ex1-Sends n buf s log fits long =
    send_ex1-Sends send_packetsize n buf zeros s log fits (omega arith) long
