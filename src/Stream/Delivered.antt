-- ===== src/Stream/Delivered.antt =====
-- Frames that are sent come to the decoder.
use greatone.Base.{
  ℕ, ◌+◌, ◌*◌, ◌%◌, ◌^◌, ◌≤◌, ◌<◌, ◌≡◌, refl, ap, ◌∙◌, Bool, true, false, some, List, [], ◌∷◌, ◌++◌,
  pos, is_neg, arith, length, take, append_assoc, append-nil, length-take, leb, if◌then◌else◌,
  Bool-cases, inl, inr, ltb, of_word, of_word_small,
}
use greatone.World.{
  session, send_packet_ex, poll, codec, add_codec_buffer, Trace, Call, Env, Prog, Outcome, done,
  ret, ◌>>◌,
}
use greatone.RtpSender.Defs.{RtpSender, max_packet_size, send_buffer_header, sent}
use greatone.Loader.{Lib}
use greatone.CodecSender.{CodecSender, on_codec_buffer}
use greatone.CodecReceiver as Receiver
use greatone.CodecReceiver.{CodecReceiver, mime_h264}
use greatone.CodecReceiver.Mime.{receive_source-accepts}
use greatone.Receive.Defs.{
  Packet, Event, begin_data_access, end_data_access, usleep, receive_source, delete_packet,
  thread_loop,
}
use greatone.Receive.Delivery.{received, with_payload, join, pass_tests, thread_loop-delivers}
use greatone.Stream.{Frame, send_frames, Carrier, arrivals, hand_on}

-- Each frame lies in its memory and is small enough for one packet.
abbrev pub AllSendable : List Frame → Type 0
AllSendable [] = Unit {0}
AllSendable (f ∷ fs) = (f.size ≤ length f.buf) × (f.size < max_packet_size) × AllSendable fs

-- What the decoder is to get: the bytes of each frame that has some.
abbrev pub decoded : List Frame → Trace
decoded [] = []
decoded (f ∷ fs) =
    if ltb 0 f.size
    then codec (add_codec_buffer (take f.size f.buf) (pos f.size)) ∷ decoded fs
    else decoded fs

-- A sender whose RtpSender is `x`.
abbrev pub sending : (running : Bool) → RtpSender → Lib → CodecSender
sending running x lib = record { running = running; sender = some x; camera_lib = lib }

abbrev pub one_call : Frame → Trace
one_call f = session (send_packet_ex f.buf f.size 0 mime_h264 5) ∷ session poll ∷ []

abbrev pub all_calls : List Frame → Trace
all_calls [] = []
all_calls (f ∷ fs) = one_call f ++ all_calls fs

module _ (env : Env) (accepts : (log : Trace) → is_neg (env.status log) ≡ false) where
  on_codec_buffer-sends :
      (running : Bool) (x : RtpSender) (lib : Lib) (f : Frame) (log : Trace)
      → x.inited ≡ true
      → f.size < max_packet_size
      → on_codec_buffer env f.buf (pos f.size) (sending running x lib) log
        ≡ done tt (sending running x lib) (log ++ one_call f)
  unfolding on_codec_buffer send_buffer_header sent mime_h264
  on_codec_buffer-sends running x lib f log up small =
      let fits : leb max_packet_size f.size ≡ false = ground arith in
      let word : f.size % 2 ^ 32 ≡ f.size = omega arith in
      let call : Call = session (send_packet_ex f.buf f.size 0 mime_h264 5) in
      rw (
        up,
        fits,
        word,
        accepts (log ++ (call ∷ [])),
        append_assoc log (call ∷ []) (session poll ∷ []),
      )

  send_frames-calls :
      (running : Bool) (x : RtpSender) (lib : Lib) (fs : List Frame) (log : Trace)
      → x.inited ≡ true
      → AllSendable fs
      → send_frames env fs (sending running x lib) log
        ≡ done tt (sending running x lib) (log ++ all_calls fs)
  unfolding send_frames
  send_frames-calls running x lib [] log up all = rw (append-nil log)
  send_frames-calls running x lib (f ∷ fs) log up (lies, small, all) = rw (
    on_codec_buffer-sends running x lib f log up small,
    send_frames-calls running x lib fs (log ++ one_call f) up all,
    append_assoc log (one_call f) (all_calls fs),
  )

-- The packets that arrive for the frames.
abbrev pub frame_packets : Carrier → List Frame → List Packet
frame_packets carry [] = []
frame_packets carry (f ∷ fs) = carry f.buf f.size mime_h264 5 ∷ frame_packets carry fs

arrivals-all_calls :
    (carry : Carrier) (fs : List Frame) → arrivals carry (all_calls fs) ≡ frame_packets carry fs
arrivals-all_calls carry [] = refl
arrivals-all_calls carry (f ∷ fs) =
    ap (λ ps. carry f.buf f.size mime_h264 5 ∷ ps) (arrivals-all_calls carry fs)

-- `ReceiveSource` for each packet.
unfoldable receive_all : List Packet → Prog CodecReceiver (Unit {0})
receive_all [] = ret tt
receive_all (p ∷ ps) = do
  Receiver.receive_source p.extension p.payload (of_word (length p.payload % 2 ^ 32))
  receive_all ps

hand_on-received : (es : List Event) → hand_on es ≡ receive_all (received es)
unfolding hand_on receive_all
hand_on-received [] = refl
hand_on-received (receive_source p ∷ es) = rw (hand_on-received es)
hand_on-received (begin_data_access ∷ es) = hand_on-received es
hand_on-received (end_data_access ∷ es) = hand_on-received es
hand_on-received (usleep ∷ es) = hand_on-received es
hand_on-received (delete_packet p ∷ es) = hand_on-received es

five : length mime_h264 ≤ 4 * 5
unfolding mime_h264
five = omega arith

-- The sender went on as it was, and the loop, however the packets are found, hands the receiver what
-- makes it call the decoder with the frames.
abbrev pub Delivers :
    Carrier
    → (List Packet → List (List (List Packet)))
    → List Frame
    → CodecSender
    → Outcome CodecSender (Unit {0})
    → Trace
    → ℕ
    → CodecReceiver
    → Trace
    → Type 0
Delivers carry route fs s result log spare r log' =
    (calls : Trace) × (result ≡ done tt s (log ++ calls))
    × (let passes = route (arrivals carry calls) in
        hand_on (thread_loop true (pass_tests passes + spare) passes) r log'
        ≡ done tt r (log' ++ decoded fs))

module _ (carry : Carrier)
    (payload : (buf extension : List ℕ) (len words : ℕ)
      → len ≤ length buf
      → (carry buf len extension words).payload ≡ take len buf)
    (extended : (buf extension : List ℕ) (len words : ℕ)
      → length extension ≤ 4 * words
      → (rest : List ℕ) × ((carry buf len extension words).extension
          ≡ some (extension ++ rest))) where
  receive_all-decodes :
      (fs : List Frame) (r : CodecReceiver) (log : Trace)
      → AllSendable fs
      → receive_all (with_payload (frame_packets carry fs)) r log ≡ done tt r (log ++ decoded fs)
  unfolding receive_all
  receive_all-decodes [] r log all = rw (append-nil log)
  receive_all-decodes (f ∷ fs) r log (lies, small, all) =
      let p : Packet = carry f.buf f.size mime_h264 5 in
      let (rest, marked) = extended f.buf mime_h264 f.size 5 five in
      let carried : p.payload ≡ take f.size f.buf = payload f.buf mime_h264 f.size 5 lies in
      let long : length p.payload ≡ f.size =
        ap length carried ∙ omega (arith, length-take f.size f.buf) in
      let int : of_word (f.size % 2 ^ 32) ≡ pos f.size = of_word_small f.size (omega arith) in
      elim (Bool-cases (ltb 0 f.size)) [
        | inl full ↦ rw (
          long,
          full,
          marked,
          long,
          int,
          carried,
          receive_source-accepts rest (take f.size f.buf) (pos f.size) r log,
          receive_all-decodes fs r
              (log ++ (codec (add_codec_buffer (take f.size f.buf) (pos f.size)) ∷ [])) all,
          append_assoc log (codec (add_codec_buffer (take f.size f.buf) (pos f.size)) ∷ [])
              (decoded fs),
        )
        | inr none_there ↦ rw (long, none_there, receive_all-decodes fs r log all)
      ]

-- Where the session takes every packet, what arrives has the payload that was sent and an extension
-- that starts with the header data, and the source and the passes in which packets are found keep
-- them all, in order: the frames of a sender whose session stands, each in its memory and small
-- enough for a packet, come to the decoder of the receiver, those without bytes left out, each once,
-- in order and as they were.
pub send_frames-delivered :
    (env : Env) (carry : Carrier) (route : List Packet → List (List (List Packet)))
    (fs : List Frame) (running : Bool) (x : RtpSender) (lib : Lib) (log : Trace) (r : CodecReceiver)
    (log' : Trace) (spare : ℕ)
    → ((before : Trace) → is_neg (env.status before) ≡ false)
    → ((buf extension : List ℕ) (len words : ℕ)
        → len ≤ length buf
        → (carry buf len extension words).payload ≡ take len buf)
    → ((buf extension : List ℕ) (len words : ℕ)
        → length extension ≤ 4 * words
        → (rest : List ℕ) × ((carry buf len extension words).extension ≡ some (extension ++ rest)))
    → ((ps : List Packet) → join (join (route ps)) ≡ ps)
    → x.inited ≡ true
    → AllSendable fs
    → Delivers carry route fs
        (sending running x lib)
        (send_frames env fs (sending running x lib) log)
        log
        spare
        r
        log'
send_frames-delivered env carry route fs running x lib log r log' spare accepts payload extended
      keeps up all =
    let ps : List Packet = arrivals carry (all_calls fs) in
    let passes : List (List (List Packet)) = route ps in
    let es : List Event = thread_loop true (pass_tests passes + spare) passes in
    let got : received es ≡ with_payload (frame_packets carry fs) =
      (thread_loop-delivers passes (pass_tests passes + spare) (omega arith)).0
      ∙ ap with_payload (keeps ps ∙ arrivals-all_calls carry fs) in
    (
      all_calls fs,
      send_frames-calls env accepts running x lib fs log up all,
      ap (λ (p : Prog CodecReceiver (Unit {0})). p r log') (hand_on-received es)
          ∙ ap (λ (qs : List Packet). receive_all qs r log') got
          ∙ receive_all-decodes carry payload extended fs r log' all,
    )
