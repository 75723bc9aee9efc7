-- ===== src/Stream/Decoder.antt =====
-- Frames that come to the decoder (Media/Codec/CodecBase.cpp, Media/Codec/CodecApi.cpp).
use greatone.Base.{
  ℕ, ◌+◌, ◌*◌, is_neg, ◌^◌, ◌≤◌, ◌<◌, ◌≡◌, refl, sym, subst, Bool, true, false, some, List, [], ◌∷◌,
  ◌++◌, arith, length, take, length-take, ltb, if◌then◌else◌, Bool-cases, inl, inr,
}
use greatone.World.{Env, Trace, Outcome, done}
use greatone.RtpSender.Defs.{RtpSender, max_packet_size}
use greatone.Codec.{MediaEnv, CodecBase, serve_all}
use greatone.CodecReceiver.Served.{requests}
use greatone.Loader.{Lib}
use greatone.CodecSender.{CodecSender}
use greatone.CodecReceiver.{CodecReceiver}
use greatone.Receive.Defs.{Packet, thread_loop}
use greatone.Receive.Delivery.{join, pass_tests}
use greatone.Stream.{Frame, Carrier, arrivals, send_frames, hand_on}
use greatone.Stream.Queued.{Fed, Ready, add_all, AllShort, add_all-given}
use greatone.Stream.Delivered.{AllSendable, decoded, sending, send_frames-delivered}

-- The bytes of each frame that has some.
abbrev pub contents : List Frame → List (List ℕ)
contents [] = []
contents (f ∷ fs) = if ltb 0 f.size then take f.size f.buf ∷ contents fs else contents fs

requests-decoded :
    (fs : List Frame) → AllSendable fs → requests (decoded fs) ≡ add_all (contents fs)
requests-decoded [] all = refl
requests-decoded (f ∷ fs) (lies, small, all) =
    let long : length (take f.size f.buf) ≡ f.size = omega (arith, length-take f.size f.buf) in
    elim (Bool-cases (ltb 0 f.size)) [
      | inl full ↦ rw (full, long, requests-decoded fs all)
      | inr no_bytes ↦ rw (no_bytes, requests-decoded fs all)
    ]

contents-AllShort : (fs : List Frame) → AllSendable fs → AllShort max_packet_size (contents fs)
contents-AllShort [] all = tt
contents-AllShort (f ∷ fs) (lies, small, all) = elim (Bool-cases (ltb 0 f.size)) [
  | inl full ↦ rw full (omega (arith, length-take f.size f.buf), contents-AllShort fs all)
  | inr no_bytes ↦ rw no_bytes (contents-AllShort fs all)
]

length-contents : (fs : List Frame) → length (contents fs) ≤ length fs
length-contents [] = omega arith
length-contents (f ∷ fs) = elim (Bool-cases (ltb 0 f.size)) [
  | inl full ↦ rw full (omega (arith, length-contents fs))
  | inr no_bytes ↦ rw no_bytes (omega (arith, length-contents fs))
]

-- The frames go their whole way: the sender's calls, with the packets that arrive for them, the loop
-- and the calls of the receiver, and the codec library that serves these.
abbrev pub ComesThrough :
    Carrier
    → (List Packet → List (List (List Packet)))
    → MediaEnv
    → CodecReceiver
    → CodecBase
    → Trace
    → (spare : ℕ) → List (List ℕ)
    → (sender : CodecSender) → (before : Trace) → Outcome CodecSender (Unit {0})
    → Type 0
ComesThrough carry route media_env r s log spare bytes sender before sent =
    (calls handed : Trace) × (sent ≡ done tt sender (before ++ calls))
    × (let passes = route (arrivals carry calls) in
        hand_on (thread_loop true (pass_tests passes + spare) passes) r [] ≡ done tt r handed)
    × Fed bytes log (serve_all media_env (requests handed) (some s) log)

-- Where the session takes every packet, what arrives has the payload that was sent and an extension
-- that starts with the header data, the source and the passes in which packets are found keep them
-- all, in order, and the MediaCodec of the receiver always has an input buffer that a packet fits in:
-- the frames of a sender whose session stands, each in its memory and small enough for a packet, and
-- fewer than 2^31 with those given before, are copied into input buffers of that MediaCodec, those
-- without bytes left out, each once, in order and as they were.
pub send_frames-decoded :
    (env : Env) (media_env : MediaEnv) (carry : Carrier)
    (route : List Packet → List (List (List Packet))) (fs : List Frame) (running : Bool)
    (x : RtpSender) (lib : Lib) (log : Trace) (r : CodecReceiver) (s : CodecBase) (log' : Trace)
    (spare : ℕ)
    → ((before : Trace) → is_neg (env.status before) ≡ false)
    → ((buf extension : List ℕ) (len words : ℕ)
        → len ≤ length buf
        → (carry buf len extension words).payload ≡ take len buf)
    → ((buf extension : List ℕ) (len words : ℕ)
        → length extension ≤ 4 * words
        → (rest : List ℕ) × ((carry buf len extension words).extension ≡ some (extension ++ rest)))
    → ((ps : List Packet) → join (join (route ps)) ≡ ps)
    → Ready media_env max_packet_size s.inputs
    → x.inited ≡ true
    → AllSendable fs
    → s.count + length fs < 2 ^ 31
    → ComesThrough carry route media_env r s log' spare
        (contents fs)
        (sending running x lib)
        log
        (send_frames env fs (sending running x lib) log)
send_frames-decoded env media_env carry route fs running x lib log r s log' spare accepts payload
      extended keeps ready up all few =
    let (calls, sent, handed) =
      send_frames-delivered env carry route fs running x lib log r [] spare accepts payload extended
        keeps up all in
    (
      calls,
      decoded fs,
      sent,
      handed,
      subst (λ calls'. Fed (contents fs) log' (serve_all media_env calls' (some s) log'))
          (sym (requests-decoded fs all))
          (add_all-given media_env max_packet_size s (contents fs) log' ready
            (contents-AllShort fs all) (omega (arith, length-contents fs))),
    )
