-- ===== src/CodecReceiver/Life.antt =====
-- The life of a CodecReceiver.
use greatone.Base.{
  ◌≡◌, refl, Bool, true, false, ℤ, [], ◌∷◌, ◌++◌, none, some, is_neg, Bool-cases, inl, inr,
}
use greatone.World.{
  Env, Prog, Outcome, done, crash, ◌>>◌, Trace, session, create, codec, start_codec, system,
  pthread_create,
}
use greatone.CommonThread.{run, request_exit, is_zero}
use greatone.Receive.Defs as Receive
use greatone.Receive.Defs.{RtpReceive}
use greatone.RtpSender.Defs.{set_defaults}
use greatone.CodecReceiver.{CodecReceiver, new, create_codec, start_video, stop_video, de_init}

-- `CreateCodec`, `StartVideo` and `DeInit`, one after the other.
abbrev pub life : Env → (surface : Bool) → (flags port : ℤ) → Prog CodecReceiver Bool
life env surface flags port = create_codec env surface flags port >> start_video env >> de_init

abbrev pub Ended : Outcome CodecReceiver Bool → Type 0
Ended (done r s log) = (r ≡ true) × (s.receive ≡ none)
Ended crash = ⊥

-- A receiver after `initSession`, with its callback or without.
abbrev fresh : ℤ → (has_callback : Bool) → RtpReceive
fresh port has_callback = record Receive.new { local_port = port; has_callback = has_callback }

started-Ended :
    (env : Env) (running : Bool) (r : RtpReceive) (log : Trace)
    → Ended ((start_video env >> de_init) (record { running = running; receive = some r }) log)
unfolding start_video de_init stop_video Receive.start_thread Receive.stop_thread
    Receive.deinit_session run request_exit
started-Ended env running r log =
    elim (Bool-cases (
      is_zero
        (env.status ((log ++ (codec start_codec ∷ [])) ++ (system (pthread_create true) ∷ []))))) [
          | inl began ↦ rw began (refl, refl)
          | inr failed ↦ rw failed (refl, refl)
        ]

-- Whatever the session, the codec and `pthread_create` return, a receiver that is created, started
-- and ended goes through its life without a call through NULL, and has no RtpReceive in the end.
pub life-Ended :
    (env : Env) (surface : Bool) (flags port : ℤ) (log : Trace)
    → Ended (life env surface flags port new log)
unfolding create_codec Receive.init_session Receive.start_thread Receive.stop_thread
    Receive.register_callback Receive.deinit_session run request_exit set_defaults Receive.new
    start_video de_init stop_video new
life-Ended env surface flags port log =
    elim (Bool-cases (is_neg (env.status (log ++ (session (create 8000 true port) ∷ []))))) [
      | inl failed ↦ rw failed (started-Ended env false (fresh port false) _)
      | inr made ↦ rw made (started-Ended env false (fresh port true) _)
    ]
