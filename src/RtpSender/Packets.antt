-- ===== src/RtpSender/Packets.antt =====
-- What packets carry, and slices of a buffer.
use greatone.Base.{
  ℕ, suc, ◌+◌, ◌*◌, ◌≤◌, ◌≡◌, refl, sym, ◌∙◌, ap, List, [], ◌∷◌, ◌++◌, arith, length, take, drop,
  append_assoc, take-take-append, take-add, drop-drop, length-take, length-append,
}
use greatone.World.{
  SessionCall, send_packet, send_packet_as, send_packet_ex, Call, session, Trace, Prog, done,
}
use greatone.RtpSender.Fragments.{overlay}

-- The bytes that a call sends: the first `len` at its pointer.
abbrev pub payload : Call → List ℕ
payload (session (send_packet mem len)) = take len mem
payload (session (send_packet_as mem len pt mark inc)) = take len mem
payload (session (send_packet_ex mem len id ext words)) = take len mem
payload _ = []

abbrev pub payloads : Trace → List ℕ
payloads [] = []
payloads (c ∷ cs) = payload c ++ payloads cs

pub payloads-append : (cs ds : Trace) → payloads (cs ++ ds) ≡ payloads cs ++ payloads ds
payloads-append [] ds = refl
payloads-append (c ∷ cs) ds =
    ap (λ x. payload c ++ x) (payloads-append cs ds)
    ∙ sym (append_assoc (payload c) (payloads cs) (payloads ds))

-- The call sends at most `size` bytes, and all of them lie in the memory at its pointer.
abbrev pub Fits : ℕ → Call → Type 0
Fits size (session (send_packet mem len)) = (len ≤ size) × (len ≤ length mem)
Fits size (session (send_packet_as mem len pt mark inc)) = (len ≤ size) × (len ≤ length mem)
Fits size (session (send_packet_ex mem len id ext words)) = (len ≤ size) × (len ≤ length mem)
Fits size _ = Unit {0}

abbrev pub AllFit : ℕ → Trace → Type 0
AllFit size [] = Unit {0}
AllFit size (c ∷ cs) = Fits size c × AllFit size cs

pub AllFit-append :
    (size : ℕ) (cs ds : Trace) → AllFit size cs → AllFit size ds → AllFit size (cs ++ ds)
AllFit-append size [] ds h k = k
AllFit-append size (c ∷ cs) ds (h, hs) k = (h, AllFit-append size cs ds hs k)

-- The program makes the calls, all of which fit, and they send the bytes.
abbrev pub Sends : {S A : Type 0} → ℕ → Prog S A → A → S → Trace → List ℕ → Type 0
Sends size p a s log bytes =
    (calls : Trace) × (p s log ≡ done a s (log ++ calls))
    × (payloads calls ≡ bytes)
    × AllFit size calls

pub take-overlay :
    (dst src : List ℕ) (n : ℕ) → n ≤ length src → take n (overlay dst src n) ≡ take n src
unfolding overlay
take-overlay dst src n h = take-take-append n src (drop n dst) h

pub le-length-overlay : (dst src : List ℕ) (n : ℕ) → n ≤ length src → n ≤ length (overlay dst src n)
unfolding overlay
le-length-overlay dst src n h =
    omega (arith, length-append (take n src) (drop n dst), length-take n src)

-- `emit` makes a packet of `size` bytes from the memory that it is given.
abbrev pub Packs : ℕ → (ℕ → List ℕ → SessionCall) → Type 0
Packs size emit =
    (t : ℕ) (mem : List ℕ)
    → size ≤ length mem
    → (payload (session (emit t mem)) ≡ take size mem) × Fits size (session (emit t mem))

-- Consecutive slices make up one.
pub take-slices :
    (size left t : ℕ) (buf : List ℕ)
    → take size (drop (t * size) buf) ++ take (left * size) (drop ((t + 1) * size) buf)
      ≡ take (suc left * size) (drop (t * size) buf)
take-slices size left t buf =
    let e : (t + 1) * size ≡ t * size + size = omega arith in
    let e' : suc left * size ≡ size + left * size = omega arith in
    rw (e, e', ← drop-drop size (t * size) buf)
      (sym (take-add size (left * size) (drop (t * size) buf)))
