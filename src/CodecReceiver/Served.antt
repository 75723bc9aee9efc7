-- ===== src/CodecReceiver/Served.antt =====
-- A CodecReceiver (Media/CodecReceiver.cpp) together with the codec library that serves its calls
-- (Media/Codec/CodecApi.cpp).
use greatone.Base.{
  ◌≡◌, refl, Bool, true, false, ℤ, Option, List, [], ◌∷◌, ◌++◌, none, some, is_neg, Bool-cases, inl,
  inr, pos,
}
use greatone.World.{
  Call, Env, Outcome, done, crash, ret, after, ◌>>◌, Trace, session, create, codec, media, system,
  pthread_create, media_create, media_configure, media_start, get_buffers, CodecCall,
  register_buffer_call, add_codec_buffer,
}
use greatone.World as World
use greatone.CommonThread.{run, request_exit, is_zero}
use greatone.Receive.Defs as Receive
use greatone.RtpSender.Defs.{set_defaults}
use greatone.Codec as Codec
use greatone.Codec.{
  MediaEnv, CodecBase, ApiCall, codec_create, register_call, start, stop, add, serve_all, serve,
  api_create, api_stop, fetch_inputs, fetch_outputs,
}
use greatone.CodecReceiver.{CodecReceiver, new, create_codec, start_video, stop_video, de_init}
use greatone.CodecReceiver.Life.{life}

-- The calls of a client that come to the codec library.
abbrev pub requests : Trace → List ApiCall
requests [] = []
requests (codec (World.codec_create flags surface encoder) ∷ log) =
    codec_create flags surface encoder ∷ requests log
requests (codec register_buffer_call ∷ log) = register_call ∷ requests log
requests (codec World.start_codec ∷ log) = start ∷ requests log
requests (codec World.stop_codec ∷ log) = stop ∷ requests log
requests (codec (add_codec_buffer buf len) ∷ log) = add buf len ∷ requests log
requests (_ ∷ log) = requests log

-- The library has no codec in the end.
abbrev pub Free : Outcome (Option CodecBase) (Unit {0}) → Type 0
Free (done r o log) = o ≡ none
Free crash = ⊥

abbrev pub ServedFree : MediaEnv → Outcome CodecReceiver Bool → Type 0
ServedFree media_env (done r s log) = Free (serve_all media_env (requests log) none [])
ServedFree media_env crash = ⊥

abbrev Survives : Outcome CodecBase ℤ → Type 0
Survives (done r s log) = Unit {0}
Survives crash = ⊥

start_codec-Survives :
    (media_env : MediaEnv) (s : CodecBase) (log : Trace)
    → Survives (Codec.start_codec media_env s log)
unfolding Codec.start_codec fetch_inputs fetch_outputs
start_codec-Survives media_env s log =
    let first = (log ++ (media media_start ∷ [])) ++ (media (get_buffers true) ∷ []) in
    let second = first ++ (media (get_buffers false) ∷ []) in
    elim (Bool-cases (is_zero (media_env.calls.status first))) [
      | inl e ↦ elim (Bool-cases (is_zero (media_env.calls.status second))) [
        | inl f ↦ rw (e, f) tt
        | inr f ↦ rw (e, f) tt
      ]
      | inr e ↦ elim (Bool-cases (is_zero (media_env.calls.status second))) [
        | inl f ↦ rw (e, f) tt
        | inr f ↦ rw (e, f) tt
      ]
    ]

serve_all-Free :
    (media_env : MediaEnv) (flags : ℤ) (surface encoder : Bool)
    → Free (serve_all media_env (codec_create flags surface encoder ∷ start ∷ stop ∷ []) none [])
unfolding serve_all serve api_create api_stop Codec.new Codec.create_codec Codec.stop_codec
serve_all-Free media_env flags surface encoder =
    let made : CodecBase = record {
      inputs = none;
      outputs = none;
      has_callback = false;
      count = 0;
    } in
    let created : Trace =
      media (media_create encoder) ∷ media (media_configure flags surface) ∷ [] in
    stopped (Codec.start_codec media_env made created) (start_codec-Survives media_env made created)
  where
    stopped :
        (o : Outcome CodecBase ℤ)
        → Survives o
        → Free (
            after
              (after
                (elim o [ done a t log' ↦ done tt (some t) log' | crash ↦ crash ])
                (λ _. ret (pos 0)))
              (λ _. serve_all media_env (stop ∷ [])))
    stopped (done r s log) h = refl
    stopped crash h = h

abbrev defaults : Trace
defaults =
    session (World.set_default_payload_type 96)
    ∷ session (World.set_default_mark true)
    ∷ session (World.set_maximum_packet_size 65535)
    ∷ session (World.set_default_timestamp_increment 1)
    ∷ []

-- Where the codec library is loaded with all its functions: whatever the session,
-- `pthread_create` and MediaCodec return, the calls of a receiver that is created, started and
-- deinitialised, and gets no packet in between, served by the codec library whose thread has no
-- turn in between, go without a crash and leave no codec behind.
pub life-ServedFree :
    (env : Env) (media_env : MediaEnv) (surface : Bool) (flags port : ℤ)
    → ServedFree media_env (life env surface flags port new [])
unfolding create_codec Receive.init_session Receive.start_thread Receive.stop_thread
    Receive.register_callback Receive.deinit_session run request_exit set_defaults Receive.new
    start_video de_init stop_video new
life-ServedFree env media_env surface flags port =
    let before : Trace = session (create 8000 true port) ∷ [] in
    elim (Bool-cases (is_neg (env.status before))) [
      | inl failed ↦
          let later : Trace =
            before
            ++ (codec (World.codec_create flags surface false)
                ∷ codec World.start_codec
                ∷ system (pthread_create true)
                ∷ []) in
          elim (Bool-cases (is_zero (env.status later))) [
            | inl began ↦ rw (failed, began) (serve_all-Free media_env flags surface false)
            | inr not_begun ↦ rw (failed, not_begun) (serve_all-Free media_env flags surface false)
          ]
      | inr made ↦
          let later : Trace =
            before
            ++ (defaults
                ++ (codec (World.codec_create flags surface false)
                    ∷ codec World.start_codec
                    ∷ system (pthread_create true)
                    ∷ [])) in
          elim (Bool-cases (is_zero (env.status later))) [
            | inl began ↦ rw (made, began) (serve_all-Free media_env flags surface false)
            | inr not_begun ↦ rw (made, not_begun) (serve_all-Free media_env flags surface false)
          ]
    ]
