-- ===== src/CodecMedia/Sending.antt =====
-- A sender of camera frames whose start fails (Media/CodecMedia.cpp).
use greatone.Base.{
  ℕ, ℤ, Bool, true, false, none, some, Option, List, [], ◌∷◌, ◌++◌, ◌≡◌, refl, is_neg,
}
use greatone.World.{
  Env, Outcome, done, crash, Trace, ◌>>◌, session, create, codec, convert_key_value,
}
use greatone.Loader as Loader
use greatone.Loader.{Lib, load_base_lib}
use greatone.RtpSender.Defs as Rtp
use greatone.RtpSender.Defs.{RtpSender, set_defaults}
use greatone.CodecSender as Sender
use greatone.CodecSender.{CodecSender}
use greatone.CodecMedia.{
  CodecMedia, call_base, load_and_convert, start_codec_sender, stop_codec_sender,
}
use greatone.CodecMedia.Receiving.{Loaded}

-- True is returned, while the sender that is there has no session.
abbrev pub Unready : Option CodecSender → Type 0
Unready none = ⊥
Unready (some x) = (r : RtpSender) × (x.sender ≡ some r) × (r.inited ≡ false)

abbrev pub SaysReady : Outcome CodecMedia Bool → Type 0
SaysReady (done r t log) = (r ≡ true) × Unready t.sender
SaysReady crash = ⊥

-- When the session cannot be created, `StartCodecSender` keeps the sender that it made. Called
-- again, with any arguments, it returns true, although there is no session; and `StopCodecSender`
-- after it goes through a pointer of the camera library, which was not loaded.
pub start_codec_sender-SaysReady :
    (env : Env) (sdk sdk' : ℕ) (surface surface' : Bool) (flags flags' : ℤ) (ip ip' : List ℕ)
    (dest_port local_port dest_port' local_port' : ℤ) (s : CodecMedia) (log : Trace)
    → Loaded s.base_lib
    → s.camera_lib ≡ Loader.new
    → s.sender ≡ none
    → is_neg (
        env.status
          ((log ++ (codec convert_key_value ∷ [])) ++ (session (create 8000 true local_port) ∷ [])))
      ≡ true
    → SaysReady (
        (start_codec_sender env sdk surface flags ip dest_port local_port
            >> start_codec_sender env sdk' surface' flags' ip' dest_port' local_port')
          s log)
      × ((start_codec_sender env sdk surface flags ip dest_port local_port >> stop_codec_sender) s
            log
          ≡ crash)
unfolding start_codec_sender stop_codec_sender load_and_convert load_base_lib call_base Sender.new
    Sender.create_codec Sender.stop_video Sender.call_camera Rtp.new Rtp.init_session set_defaults
    Loader.new
start_codec_sender-SaysReady env sdk sdk' surface surface' flags flags' ip ip' dest_port local_port
      dest_port' local_port' s log (loaded, converts) no_camera no_sender failed =
    (
      rw (no_sender, loaded, converts, failed)
          (refl, (record Rtp.new { local_port = local_port }, refl, refl)),
      rw (no_sender, loaded, converts, failed, no_camera) refl,
    )
