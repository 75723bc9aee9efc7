-- ===== src/CodecMedia.antt =====
-- The entry points of Media/CodecMedia.cpp for the Java side: static pointers to a player, a
-- recorder, a receiver, a sender of camera frames and an RtpSender, and the singletons that load the
-- libraries. (Where an object that is still pointed to is replaced, it is lost, and is not deleted.)
pub mod Receiving
pub mod Sending
use greatone.Base.{
  get_or, ℕ, Bool, true, false, not, Option, none, some, List, [], ◌∷◌, ℤ, pos, length, ◌==◌,
  if◌then◌else◌,
}
use greatone.World.{
  codec, convert_key_value, test_add, CodecCall, Env, Prog, Outcome, done, crash, ret, ◌>>=◌, ◌>>◌,
  get, put, tell,
}
use greatone.CommonThread.{within}
use greatone.Loader.{Lib, load_base_lib}
use greatone.FileCodec.Decoder as Decoder
use greatone.FileCodec.Decoder.{FileDeCodec}
use greatone.FileCodec.Encoder as Encoder
use greatone.FileCodec.Encoder.{FileEnCodec, add_decodec_source}
use greatone.CodecReceiver as Receiver
use greatone.CodecReceiver.{CodecReceiver, mime_h264}
use greatone.CodecSender as Sender
use greatone.CodecSender.{CodecSender}
use greatone.SenderMedia.{Media, kept, sender_create, sender_destroy, sender_byte_array}
use greatone.RtpSender.Defs.{connect}

-- While there is a CodecSender, it has the singleton CameraLib, which outlives it.
pub record CodecMedia : Type 0 where
  pub file_decoder : Option FileDeCodec
  pub file_encoder : Option FileEnCodec
  pub receiver : Option CodecReceiver
  pub sender : Option CodecSender
  pub rtp_sender : Media
  pub base_lib : Lib
  pub camera_lib : Lib

-- The static pointers before the first call.
unfoldable pub new : (base_lib camera_lib : Lib) → CodecMedia
new base_lib camera_lib = record {
  file_decoder = none;
  file_encoder = none;
  receiver = none;
  sender = none;
  rtp_sender = none;
  base_lib = base_lib;
  camera_lib = camera_lib;
}

-- A method of an object that a pointer points to; through NULL it is undefined.
module _ {S A : Type 0} where
  abbrev pub through : Option S → (Option S → CodecMedia) → Prog S A → Prog CodecMedia A
  through none store p s log = crash
  through (some x) store p s log = within (λ _. x) (λ _ x. store (some x)) p s log

abbrev pub on_decoder : {A : Type 0} → Prog FileDeCodec A → Prog CodecMedia A
on_decoder p s = through s.file_decoder (λ x. record s { file_decoder = x }) p s

abbrev pub on_encoder : {A : Type 0} → Prog FileEnCodec A → Prog CodecMedia A
on_encoder p s = through s.file_encoder (λ x. record s { file_encoder = x }) p s

abbrev pub on_receiver : {A : Type 0} → Prog CodecReceiver A → Prog CodecMedia A
on_receiver p s = through s.receiver (λ x. record s { receiver = x }) p s

abbrev pub on_sender : {A : Type 0} → Prog CodecSender A → Prog CodecMedia A
on_sender p s = through s.sender (λ x. record s { sender = x }) p s

abbrev pub on_rtp_sender : {A : Type 0} → Prog Media A → Prog CodecMedia A
on_rtp_sender p = within (λ s. s.rtp_sender) (λ s x. record s { rtp_sender = x }) p

-- Whether a pointer is not NULL.
abbrev pub is_some : {A : Type 0} → Option A → Bool
is_some none = false
is_some (some a) = true

-- A call through a function pointer of CodecBaseLib.
unfoldable pub call_base : (i : ℕ) → CodecCall → Prog CodecMedia (Unit {0})
call_base i c s log = if get_or s.base_lib.functions i 0 == 0 then crash else tell (codec c) s log

-- `StopVideoSend`.
unfoldable pub stop_video_send : Prog CodecMedia Bool
unfolding call_base
stop_video_send = do call_base 0 (test_add (pos 1) (pos 1)); ret true

-- `StartFileDecoder` and `StopFileDecoder`; `opened` is what `fopen` finds in the file.
unfoldable pub start_file_decoder : (opened : Option (List ℕ)) (flags : ℤ) → Prog CodecMedia Bool
unfolding call_base
start_file_decoder opened flags = do
  call_base 7 convert_key_value
  s ← get
  if is_some s.file_decoder then ret true else do
    put (record s { file_decoder = some Decoder.new })
    on_decoder (Decoder.create_codec opened flags)
    on_decoder Decoder.start_video
    ret true

unfoldable pub stop_file_decoder : Prog CodecMedia Bool
stop_file_decoder = do
  s ← get
  if not (is_some s.file_decoder) then ret false else do
    on_decoder Decoder.stop_video
    on_decoder Decoder.de_init
    t ← get
    put (record t { file_decoder = none })
    ret true

-- `AddEncoderData` and `StopFileEncoder`, which do not look at the pointer.
unfoldable pub add_encoder_data : List ℕ → ℤ → Prog CodecMedia Bool
add_encoder_data bytes len = do on_encoder (add_decodec_source bytes len); ret true

unfoldable pub stop_file_encoder : Prog CodecMedia Bool
stop_file_encoder = do on_encoder Encoder.stop_video; on_encoder Encoder.de_init

-- `StopCodecSender`, `StartCameraVideo` and `StopCameraVideo`.
unfoldable pub stop_codec_sender : Prog CodecMedia Bool
stop_codec_sender = do
  s ← get
  if not (is_some s.sender) then ret false else do
    on_sender Sender.stop_video
    on_sender Sender.de_init
    t ← get
    put (elim t.sender [
      | none ↦ t
      | some x ↦ record t { sender = none; camera_lib = x.camera_lib }
    ])
    ret true

unfoldable pub start_camera_video : Prog CodecMedia Bool
start_camera_video = do
  s ← get
  if is_some s.sender then (do on_sender Sender.start_video; ret true) else ret false

unfoldable pub stop_camera_video : Prog CodecMedia Bool
stop_camera_video = do
  s ← get
  if is_some s.sender then (do on_sender Sender.stop_video; ret true) else ret true

-- `SetCameraParameter`, `SetDisplayOrientation` and `CodecSenderData` (`AddDecodecSource` is empty).
unfoldable pub set_camera_parameter : List ℕ → Prog CodecMedia Bool
set_camera_parameter params = do
  s ← get
  if is_some s.sender
      then (do on_sender (Sender.set_camera_parameter params); ret true)
      else ret true

unfoldable pub set_display_orientation : ℤ → Prog CodecMedia Bool
set_display_orientation value = do
  s ← get
  if is_some s.sender then (do on_sender (Sender.set_orientation value); ret true) else ret true

unfoldable pub codec_sender_data : Prog CodecMedia Bool
codec_sender_data = do s ← get; ret (is_some s.sender)

-- `StopCodecRecver`, which does not look at the pointer.
unfoldable pub stop_codec_recver : Prog CodecMedia Bool
stop_codec_recver = do
  on_receiver Receiver.stop_video
  on_receiver Receiver.de_init
  s ← get
  put (record s { receiver = none })
  ret true

module _ (env : Env) where
  -- `LoadBaseLib` of the singleton, for the number that the system's property gives, and the
  -- conversion of the format.
  unfoldable pub load_and_convert : (sdk : ℕ) → Prog CodecMedia (Unit {0})
  unfolding call_base
  load_and_convert sdk = do
    within (λ s. s.base_lib) (λ s l. record s { base_lib = l }) (load_base_lib env sdk)
    call_base 7 convert_key_value

  -- `StartFileEncoder`.
  unfoldable pub start_file_encoder :
      (sdk : ℕ) (opened surface : Bool) (flags : ℤ) → Prog CodecMedia Bool
  unfolding load_and_convert
  start_file_encoder sdk opened surface flags = do
    load_and_convert sdk
    s ← get
    put (record s { file_encoder = some Encoder.new })
    on_encoder (Encoder.create_codec opened surface flags)
    on_encoder Encoder.start_video
    ret true

  -- `StartCodecSender`.
  unfoldable pub start_codec_sender :
      (sdk : ℕ) (surface : Bool) (flags : ℤ) (ip : List ℕ) (dest_port local_port : ℤ)
      → Prog CodecMedia Bool
  unfolding load_and_convert
  start_codec_sender sdk surface flags ip dest_port local_port = do
    s ← get
    if is_some s.sender then ret true else do
      load_and_convert sdk
      t ← get
      put (record t { sender = some (Sender.new t.camera_lib) })
      made ← on_sender (Sender.create_codec env sdk surface flags local_port (pos 0))
      if made then (do on_sender (Sender.connect_dest env ip dest_port); ret true) else ret false

  -- `GetCameraParameter`; 0 for NULL.
  unfoldable pub get_camera_parameter : Prog CodecMedia ℕ
  get_camera_parameter = do
    s ← get
    if is_some s.sender then on_sender (Sender.get_camera_parameter env) else ret 0

  -- `StartCodecRecver`.
  unfoldable pub start_codec_recver :
      (sdk : ℕ) (surface : Bool) (flags port : ℤ) → Prog CodecMedia Bool
  unfolding load_and_convert
  start_codec_recver sdk surface flags port = do
    load_and_convert sdk
    s ← get
    put (record s { receiver = some Receiver.new })
    on_receiver (Receiver.create_codec env surface flags port)
    on_receiver (Receiver.start_video env)
    ret true

  -- `SenderConnect`, which, unlike that of SenderMedia, returns what `connect` does.
  unfoldable pub connect_rtp : (ip : List ℕ) (port : ℤ) → Prog Media Bool
  connect_rtp ip port none log = done false none log
  connect_rtp ip port (some x) log = kept (λ r. r) (connect env ip port x log)
