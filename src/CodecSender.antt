-- ===== src/CodecSender.antt =====
-- The class CodecSender of Media/CodecSender.cpp: frames of the camera go to the encoder, and coded
-- frames to an RtpSender. The functions of the codec library are taken to be loaded; those of the
-- camera library are called through the pointers that CameraLib looked up.
pub mod Frame
pub mod Life
use greatone.Base.{
  not, get_or, ℕ, zero, suc, Bool, true, false, Option, none, some, List, [], ◌∷◌, ◌++◌, ◌==◌, ℤ,
  pos, negsuc, is_neg, if◌then◌else◌, length,
}
use greatone.World.{
  codec, codec_create, register_buffer_call, start_codec, stop_codec, add_codec_buffer, camera,
  CameraCall, camera_setup, camera_release, start_preview, stop_preview, set_display_orientation,
  set_parameter, get_parameter, Env, Prog, Outcome, done, crash, ret, ◌>>=◌, ◌>>◌, get, put, tell,
  ask, ask_address,
}
use greatone.CommonThread.{within, is_zero}
use greatone.CodecReceiver.{mime_h264}
use greatone.Loader.{Lib, load_camera_lib, release_lib}
use greatone.RtpSender.Defs as Rtp
use greatone.RtpSender.Defs.{RtpSender, deinit_session, send_buffer_header}
use greatone.CodecSender.Frame.{nv21_to_nv12}

-- `mpSender` is an RtpSender or NULL; the camera library is that of the singleton CameraLib.
pub record CodecSender : Type 0 where
  pub running : Bool
  pub sender : Option RtpSender
  pub camera_lib : Lib

-- The constructor.
unfoldable pub new : Lib → CodecSender
new lib = record { running = false; sender = none; camera_lib = lib }

-- A call of a method of `mpSender`, and one of CameraLib.
abbrev on_sender : {A : Type 0} → Prog RtpSender A → Prog CodecSender A
on_sender p s log = elim s.sender [
  | none ↦ crash
  | some sender ↦ within (λ _. sender) (λ t r. record t { sender = some r }) p s log
]

abbrev on_camera_lib : {A : Type 0} → Prog Lib A → Prog CodecSender A
on_camera_lib p = within (λ s. s.camera_lib) (λ t l. record t { camera_lib = l }) p

-- Whether the pointer of the index can be called: it was looked up and is not NULL.
abbrev pub is_callable : Lib → ℕ → Bool
is_callable lib i = not (get_or lib.functions i 0 == 0)

-- A call through such a pointer.
unfoldable pub call_camera : (i : ℕ) → CameraCall → Prog CodecSender (Unit {0})
call_camera i c s log = if is_callable s.camera_lib i then tell (camera c) s log else crash

module _ (env : Env) where
  -- A call through such a pointer, for its result.
  unfoldable pub ask_camera : (i : ℕ) → CameraCall → Prog CodecSender ℤ
  ask_camera i c s log = if is_callable s.camera_lib i then ask env (camera c) s log else crash

  -- The codec is created when the camera is set up.
  unfoldable pub create_encoder : (surface : Bool) (flags : ℤ) → Prog CodecSender Bool
  create_encoder surface flags = do
    made ← ask env (codec (codec_create flags surface true))
    if is_zero made then ret false else do tell (codec register_buffer_call); ret true

  -- What follows the loading of the camera library.
  unfoldable pub set_up_camera :
      (surface : Bool) (flags camera_id : ℤ) (loaded : Bool) → Prog CodecSender Bool
  unfolding create_encoder ask_camera
  set_up_camera surface flags camera_id loaded =
      if loaded
      then (do
        cam_set ← ask_camera 0 (camera_setup camera_id)
        if is_neg cam_set then ret false else create_encoder surface flags)
      else ret false

  -- `CreateCodec`; `sdk` is the number of the system's version.
  unfoldable pub create_codec :
      (sdk : ℕ) (surface : Bool) (flags port camera_id : ℤ) → Prog CodecSender Bool
  unfolding set_up_camera
  create_codec sdk surface flags port camera_id = do
    s ← get
    put (record s { sender = some Rtp.new })
    inited ← on_sender (Rtp.init_session env port)
    if inited
        then (do
          loaded ← on_camera_lib (load_camera_lib env sdk)
          set_up_camera surface flags camera_id loaded)
        else ret false

  -- `ConnectDest`.
  unfoldable pub connect_dest : (ip : List ℕ) (port : ℤ) → Prog CodecSender Bool
  connect_dest ip port = on_sender (Rtp.connect env ip port)

  -- `onCodecBuffer`.
  unfoldable pub on_codec_buffer : (buf : List ℕ) (size : ℤ) → Prog CodecSender (Unit {0})
  on_codec_buffer buf size = do
    on_sender (send_buffer_header env buf size mime_h264 (pos (length mime_h264)))
    ret tt

-- `DeInit`.
unfoldable pub de_init : Prog CodecSender Bool
de_init = do
  call_camera 1 camera_release
  on_camera_lib release_lib
  on_sender deinit_session
  s ← get
  put (record s { sender = none })
  ret true

-- `StartVideo` and `StopVideo`.
unfoldable pub start_video : Prog CodecSender Bool
start_video = do tell (codec start_codec); call_camera 4 start_preview; ret true

unfoldable pub stop_video : Prog CodecSender Bool
stop_video = do call_camera 5 stop_preview; tell (codec stop_codec); ret true

-- `SetDisplayOrientation`, `SetCameraParameter` and `GetCameraParameter`.
unfoldable pub set_orientation : ℤ → Prog CodecSender (Unit {0})
set_orientation value = call_camera 6 (set_display_orientation value)

unfoldable pub set_camera_parameter : List ℕ → Prog CodecSender (Unit {0})
set_camera_parameter params = call_camera 2 (set_parameter params)

unfoldable pub get_camera_parameter : Env → Prog CodecSender ℕ
get_camera_parameter env = do call_camera 3 get_parameter; (λ s log. done (env.address log) s log)

-- `VideoSource`, on a frame of `len` bytes.
unfoldable pub video_source : (frame : List ℕ) (len : ℕ) → Prog CodecSender (Unit {0})
video_source frame len s log = elim (nv21_to_nv12 frame len) [
  | none ↦ crash
  | some converted ↦ tell (codec (add_codec_buffer converted (pos len))) s log
]
