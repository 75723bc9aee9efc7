-- ===== src/OldSender.antt =====
-- The older class CodecSender of temp/CodecSender.cpp, which calls Android's camera service itself
-- and does not send what the encoder gives. The functions of the codec library are taken to be
-- loaded; the service is a parameter.
pub mod Life
use greatone.Base.{
  ℕ, ◌%◌, ◌^◌, Bool, true, false, not, Option, none, some, List, ℤ, ◌==◌, if◌then◌else◌, of_word,
  drop,
}
use greatone.World.{
  service, connect_camera, get_status, set_listener, disconnect_camera, set_preview_flags, noop,
  barcode_scanner, set_parameters, get_parameters, set_preview_target, start_camera_preview,
  stop_camera_preview, ServiceCall, codec, codec_create, register_buffer_call, start_codec,
  stop_codec, add_codec_buffer, Env, Prog, crash, done, ret, ◌>>=◌, ◌>>◌, get, put, tell,
  ask_address,
}
use greatone.CommonThread.{within}
use greatone.RtpSender.Defs as Rtp
use greatone.RtpSender.Defs.{RtpSender, deinit_session}

-- `mpSender` is an RtpSender or NULL; `camera` says whether `mCamera` is not NULL.
pub record CodecSender : Type 0 where
  pub running : Bool
  pub sender : Option RtpSender
  pub camera : Bool

-- The constructor.
unfoldable pub new : CodecSender
new = record { running = false; sender = none; camera = false }

-- A call of a method of `mpSender`, and one of `mCamera`; through NULL they are undefined.
abbrev on_sender : {A : Type 0} → Prog RtpSender A → Prog CodecSender A
on_sender p s log = elim s.sender [
  | none ↦ crash
  | some sender ↦ within (λ _. sender) (λ t r. record t { sender = some r }) p s log
]

unfoldable pub call_service : ServiceCall → Prog CodecSender (Unit {0})
call_service c s log = if s.camera then tell (service c) s log else crash

-- The codec and the camera of `CreateCodec`.
unfoldable pub set_up : Env → (flags camera_id : ℤ) → Prog CodecSender Bool
unfolding call_service
set_up env flags camera_id = do
  tell (codec (codec_create flags false true))
  tell (codec register_buffer_call)
  address ← ask_address env (service (connect_camera camera_id))
  t ← get
  put (record t { camera = not (address == 0) })
  call_service get_status
  call_service set_listener
  call_service (set_preview_flags barcode_scanner)
  ret true

-- The second `CreateCodec`; the first has no body. What `CodecCreate` returns is not used, and the
-- status of the camera is only logged.
unfoldable pub create_codec : Env → (flags port camera_id : ℤ) → Prog CodecSender Bool
unfolding set_up
create_codec env flags port camera_id = do
  s ← get
  put (record s { sender = some Rtp.new })
  inited ← on_sender (Rtp.init_session env port)
  if inited then set_up env flags camera_id else ret false

-- `StartVideo` and `StopVideo`.
unfoldable pub start_video : (surface : Bool) → Prog CodecSender Bool
unfolding call_service
start_video surface = do
  tell (codec start_codec)
  if surface then call_service set_preview_target else ret tt
  call_service start_camera_preview
  ret true

unfoldable pub stop_video : Prog CodecSender Bool
unfolding call_service
stop_video = do
  tell (codec stop_codec)
  call_service stop_camera_preview
  s ← get
  if s.camera
      then (do tell (service (set_preview_flags noop)); tell (service disconnect_camera))
      else ret tt
  ret true

-- `DeInit`.
unfoldable pub de_init : Prog CodecSender Bool
unfolding stop_video
de_init = do
  stop_video
  on_sender deinit_session
  s ← get
  put (record s { sender = none })
  ret true

-- `ConnectDest`.
unfoldable pub connect_dest : Env → (ip : List ℕ) (port : ℤ) → Prog CodecSender Bool
connect_dest env ip port = on_sender (Rtp.connect env ip port)

-- The part of `postData` that depends on the bytes of the heap, when its base is not NULL.
unfoldable pub add_posted : (heap : Option (List ℕ)) (offset size : ℕ) → Prog CodecSender (Unit {0})
add_posted none offset size = ret tt
add_posted (some bytes) offset size =
    tell (codec (add_codec_buffer (drop offset bytes) (of_word (size % 2 ^ 32))))

-- `postData`; `present` says whether there is a `dataPtr`.
unfoldable pub post_data :
    (present : Bool) (heap : Option (List ℕ)) (offset size : ℕ) → Prog CodecSender (Unit {0})
unfolding add_posted call_service
post_data false heap offset size = ret tt
post_data true heap offset size = do
  add_posted heap offset size
  call_service (set_preview_flags barcode_scanner)

-- `SetCameraParameter` and `GetCameraParameter`.
unfoldable pub set_camera_parameter : List ℕ → Prog CodecSender (Unit {0})
unfolding call_service
set_camera_parameter params = call_service (set_parameters params)

unfoldable pub get_camera_parameter : Env → Prog CodecSender ℕ
unfolding call_service
get_camera_parameter env = do call_service get_parameters; (λ s log. done (env.address log) s log)
