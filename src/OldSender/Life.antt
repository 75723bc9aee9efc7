-- ===== src/OldSender/Life.antt =====
-- The life of an older CodecSender.
use greatone.Base.{
  ℕ, suc, ◌≡◌, refl, Bool, true, false, not, ◌&&◌, ℤ, [], ◌∷◌, ◌++◌, none, is_neg, Bool-cases, inl,
  inr, ◌==◌, if◌then◌else◌,
}
use greatone.World.{
  Env, Prog, Outcome, done, crash, ◌>>◌, ◌>>=◌, Trace, session, create, codec, codec_create,
  register_buffer_call, service, connect_camera, disconnect_camera,
}
use greatone.World as World
use greatone.RtpSender.Defs as Rtp
use greatone.RtpSender.Defs.{set_defaults}
use greatone.OldSender.{
  CodecSender, new, create_codec, set_up, call_service, start_video, stop_video, de_init,
}

-- `CreateCodec`; when it succeeds, `StartVideo` and `StopVideo`; then `DeInit`.
abbrev pub life : Env → (surface : Bool) (flags port camera_id : ℤ) → Prog CodecSender Bool
life env surface flags port camera_id = do
  made ← create_codec env flags port camera_id
  if made then (start_video surface >> stop_video >> de_init) else de_init

abbrev pub disconnects : Trace → ℕ
disconnects [] = 0
disconnects (service disconnect_camera ∷ log) = suc (disconnects log)
disconnects (_ ∷ log) = disconnects log

-- The calls up to the session's creation, and those up to the connection with the camera.
abbrev created : (port : ℤ) → Trace
created port = session (create 8000 true port) ∷ []

abbrev pub connected : (flags port camera_id : ℤ) → Trace
connected flags port camera_id =
    created port
    ++ (session (World.set_default_payload_type 96)
        ∷ session (World.set_default_mark true)
        ∷ session (World.set_maximum_packet_size 65535)
        ∷ session (World.set_default_timestamp_increment 1)
        ∷ codec (codec_create flags false true)
        ∷ codec register_buffer_call
        ∷ service (connect_camera camera_id)
        ∷ [])

-- A session and a camera are there.
abbrev pub is_up : Env → (flags port camera_id : ℤ) → Bool
is_up env flags port camera_id =
    not (is_neg (env.status (created port)))
    && not (env.address (connected flags port camera_id) == 0)

abbrev pub Ends : (up : Bool) → Outcome CodecSender Bool → Type 0
Ends true (done r s log) = (r ≡ true) × (s.sender ≡ none) × (disconnects log ≡ 2)
Ends true crash = ⊥
Ends false (done r s log) = ⊥
Ends false crash = Unit {0}

-- Where the codec library is loaded with all its functions: the life of a sender ends with true
-- and without an RtpSender, and the camera is then disconnected twice, when the session can be
-- created and the service gives a camera. Without one of these it crashes.
pub life-Ends :
    (env : Env) (surface : Bool) (flags port camera_id : ℤ)
    → Ends (is_up env flags port camera_id) (life env surface flags port camera_id new [])
unfolding create_codec set_up call_service Rtp.init_session Rtp.new set_defaults start_video
    stop_video de_init Rtp.deinit_session Rtp.disconnect new
life-Ends env surface flags port camera_id =
    elim (Bool-cases (is_neg (env.status (created port)))) [
      | inl failed ↦ rw failed tt
      | inr made ↦ elim (Bool-cases (env.address (connected flags port camera_id) == 0)) [
        | inl absent ↦ rw (made, absent) tt
        | inr present ↦ elim (Bool-cases surface) [
          | inl shown ↦ rw (made, present, shown) (refl, refl, refl)
          | inr hidden ↦ rw (made, present, hidden) (refl, refl, refl)
        ]
      ]
    ]
