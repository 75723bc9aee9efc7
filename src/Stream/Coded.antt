-- ===== src/Stream/Coded.antt =====
-- The way of a coded frame from the loop of the sender's codec (Media/Codec/CodecBase.cpp) to the
-- MediaCodec of the receiver.
use greatone.Base.{
  ℕ, ◌+◌, ◌*◌, ◌^◌, ◌≤◌, ◌<◌, ◌≡◌, refl, ap, subst, sym, Bool, true, false, some, List, [], ◌∷◌,
  ◌++◌, pos, negsuc, ℤ, is_neg, length, take,
}
use greatone.World.{media, on_buffer, Trace, Env, Prog, Outcome, done, ret, ◌>>◌}
use greatone.RtpSender.Defs.{RtpSender, max_packet_size}
use greatone.Loader.{Lib}
use greatone.Codec.{MediaEnv, CodecBase, address_at, drain}
use greatone.Codec.Drain.{asked, gives, rounds, drain-Ends}
use greatone.CodecSender.{CodecSender, on_codec_buffer}
use greatone.CodecReceiver.{CodecReceiver}
use greatone.Receive.Defs.{Packet}
use greatone.Receive.Delivery.{join}
use greatone.Stream.{Frame, Carrier, send_frames}
use greatone.Stream.Queued.{Ready}
use greatone.Stream.Delivered.{AllSendable, sending}
use greatone.Stream.Decoder.{ComesThrough, contents, send_frames-decoded}

-- What the callback `onCodecBuffer` does for the buffers that the loop of the codec hands it.
-- `memory` is what stands at an address, given the calls so far.
unfoldable pub send_coded :
    Env → (memory : Trace → ℕ → List ℕ) (before calls : Trace) → Prog CodecSender (Unit {0})
send_coded env memory before [] = ret tt
send_coded env memory before (media (on_buffer address size flags) ∷ calls) =
    let handed = before ++ (media (on_buffer address size flags) ∷ []) in
    on_codec_buffer env (memory handed address) size >> send_coded env memory handed calls
send_coded env memory before (c ∷ calls) = send_coded env memory (before ++ (c ∷ [])) calls

-- The buffers that are handed over, and that none of them has a negative size.
abbrev pub coded : (memory : Trace → ℕ → List ℕ) (before calls : Trace) → List Frame
coded memory before [] = []
coded memory before (media (on_buffer address (pos n) flags) ∷ calls) =
    let handed = before ++ (media (on_buffer address (pos n) flags) ∷ []) in
    record { buf = memory handed address; size = n } ∷ coded memory handed calls
coded memory before (media (on_buffer address (negsuc n) flags) ∷ calls) =
    coded memory (before ++ (media (on_buffer address (negsuc n) flags) ∷ [])) calls
coded memory before (c ∷ calls) = coded memory (before ++ (c ∷ [])) calls

abbrev pub NoNegative : Trace → Type 0
NoNegative [] = Unit {0}
NoNegative (media (on_buffer address (negsuc n) flags) ∷ calls) = ⊥
NoNegative (_ ∷ calls) = NoNegative calls

send_coded-coded :
    (env : Env) (memory : Trace → ℕ → List ℕ) (before calls : Trace)
    → NoNegative calls
    → send_coded env memory before calls ≡ send_frames env (coded memory before calls)
unfolding send_coded send_frames
send_coded-coded env memory before [] h = refl
send_coded-coded env memory before (media (on_buffer address (pos n) flags) ∷ calls) h =
    let handed : Trace = before ++ (media (on_buffer address (pos n) flags) ∷ []) in
    ap
      (λ (rest : Prog CodecSender (Unit {0})).
        on_codec_buffer env (memory handed address) (pos n) >> rest)
      (send_coded-coded env memory handed calls h)
send_coded-coded env memory before (media (on_buffer address (negsuc n) flags) ∷ calls) h = absurd h
send_coded-coded env memory before (c ∷ calls) h =
    send_coded-coded env memory (before ++ (c ∷ [])) calls h

-- The loop ends, and the buffers that it handed over come through.
abbrev pub Delivers :
    MediaEnv
    → CodecBase
    → (fuel : ℕ) → Env
    → (Trace → ℕ → List ℕ)
    → CodecSender
    → (List (List ℕ) → Outcome CodecSender (Unit {0}) → Type 0)
    → Type 0
Delivers encoder codec fuel env memory sender Through =
    (err : ℤ) × (calls : Trace) × (drain encoder fuel codec [] ≡ done (some err) codec calls)
    × Through (contents (coded memory [] calls)) (send_coded env memory [] calls sender [])

-- Let the index of every output of the sender's MediaCodec belong to a buffer whose address was
-- fetched, and let it have at most `k` outputs, each with a size that is not negative, in its
-- memory, and below 65535; let every call of the sender's session, which was created, return
-- without an error; let a packet arrive with the payload that was sent and an extension that
-- starts with the header data, and let the network and the polls of the receiver keep all
-- packets, each once and in order; let the thread of the receiver go on until they are all read;
-- let the receiver's MediaCodec have, whenever it is asked, a free input buffer that was fetched
-- and has room for 65535 bytes; and let fewer than 2^31 buffers be given to it in all. Then the
-- loop of the sender's codec, with fuel above `k`, ends, and the outputs that it handed to the
-- callback are copied into input buffers of the receiver's MediaCodec, those without bytes left
-- out, each once, in order and as they were.
pub drain-delivers :
    (encoder decoder : MediaEnv) (codec t : CodecBase) (k fuel : ℕ) (memory : Trace → ℕ → List ℕ)
    (env : Env) (carry : Carrier) (route : List Packet → List (List (List Packet))) (running : Bool)
    (x : RtpSender) (lib : Lib) (r : CodecReceiver) (spare : ℕ)
    → ((l : Trace)
        → gives encoder l ≡ true
        → (a : ℕ) × (address_at codec.outputs (encoder.index (asked l)) ≡ some a))
    → gives encoder (rounds encoder codec k []) ≡ false
    → k < fuel
    → ((j : ℕ)
        → j ≤ k
        → let calls = asked (rounds encoder codec j []) in
          NoNegative calls
          × AllSendable (coded memory [] calls)
          × (t.count + length (coded memory [] calls) < 2 ^ 31))
    → ((before : Trace) → is_neg (env.status before) ≡ false)
    → ((buf extension : List ℕ) (len words : ℕ)
        → len ≤ length buf
        → (carry buf len extension words).payload ≡ take len buf)
    → ((buf extension : List ℕ) (len words : ℕ)
        → length extension ≤ 4 * words
        → (rest : List ℕ) × ((carry buf len extension words).extension ≡ some (extension ++ rest)))
    → ((ps : List Packet) → join (join (route ps)) ≡ ps)
    → Ready decoder max_packet_size t.inputs
    → x.inited ≡ true
    → Delivers encoder codec fuel env memory
        (sending running x lib)
        (λ bytes. ComesThrough carry route decoder r t [] spare bytes (sending running x lib) [])
drain-delivers encoder decoder codec t k fuel memory env carry route running x lib r spare known dry
      enough fits accepts payload extended keeps ready up =
    let (j, few, given, last, ran) = drain-Ends encoder codec k fuel [] known dry enough in
    let calls : Trace = asked (rounds encoder codec j []) in
    let (sizes, sendable, counted) = fits j few in
    (
      encoder.calls.status calls,
      calls,
      ran,
      subst
          (λ (p : Prog CodecSender (Unit {0})).
            ComesThrough carry route decoder r t [] spare (contents (coded memory [] calls))
              (sending running x lib) [] (p (sending running x lib) []))
          (sym (send_coded-coded env memory [] calls sizes))
          (send_frames-decoded env decoder carry route (coded memory [] calls) running x lib [] r t
            [] spare accepts payload extended keeps ready up sendable counted),
    )
