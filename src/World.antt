-- ===== src/World.antt =====
-- What lies outside: the libraries that the code calls (jrtplib, the loader `dlopen`, the codec and
-- camera libraries behind their function pointers, Android's thread class). A call is recorded in
-- a trace, oldest first, and an environment says what each call returns: it is a parameter of every
-- definition that makes a call, and may return anything.
pub mod History
use greatone.Base.{ℕ, ℤ, Bool, List, [], ◌∷◌, ◌++◌}

-- Calls of the session object of jrtplib (`RTPSession`), with what is passed to them. Of a packet
-- that is the memory at the pointer, the length as `size_t`, and further arguments.
pub data SessionCall : Type 0 where
  create : (timestamp_hz : ℕ) (accept_own : Bool) (portbase : ℤ) → SessionCall
  set_default_payload_type : ℕ → SessionCall
  set_default_mark : Bool → SessionCall
  set_maximum_packet_size : ℕ → SessionCall
  set_default_timestamp_increment : ℕ → SessionCall
  add_destination delete_destination : (ip : ℕ) (port : ℤ) → SessionCall
  clear_destinations : SessionCall
  bye_destroy : (seconds : ℕ) → SessionCall
  send_packet : List ℕ → (len : ℕ) → SessionCall
  send_packet_as : List ℕ → (len payload_type : ℕ) (mark : Bool) (timestamp_inc : ℕ) → SessionCall
  send_packet_ex : List ℕ → (len id : ℕ) (extension : List ℕ) (words : ℕ) → SessionCall
  poll : SessionCall

-- Calls of the codec library, of the camera library, and of threads.
pub data CodecCall : Type 0 where
  codec_create : (flags : ℤ) (surface encoder : Bool) → CodecCall
  register_buffer_call start_codec stop_codec : CodecCall
  add_codec_buffer : List ℕ → ℤ → CodecCall
  convert_key_value : CodecCall
  test_add : ℤ → ℤ → CodecCall

pub data CameraCall : Type 0 where
  camera_setup : (camera : ℤ) → CameraCall
  camera_release stop_preview start_preview get_parameter : CameraCall
  set_parameter : List ℕ → CameraCall
  set_display_orientation : ℤ → CameraCall

-- Calls of Android's MediaCodec, by the library behind the codec functions; the copy into an input
-- buffer at an address, and the call of the registered callback.
pub data MediaCall : Type 0 where
  media_create : (encoder : Bool) → MediaCall
  media_configure : (flags : ℤ) (surface : Bool) → MediaCall
  media_start media_stop : MediaCall
  get_buffers : (input : Bool) → MediaCall
  dequeue_input : MediaCall
  copy_in : (address : ℕ) → List ℕ → MediaCall
  queue_input : (index : ℕ) (len : ℤ) → MediaCall
  dequeue_output : MediaCall
  on_buffer : (address : ℕ) (size : ℤ) (flags : ℕ) → MediaCall
  release_output : (index : ℕ) → MediaCall

-- Calls of the system on a video device (V4L2), with the descriptor that they go to; the calls of
-- `usleep`, and of the registered callback for frames.
pub data Request : Type 0 where
  s_input query_cap stream_on stream_off dequeue_buf : Request
  s_parm : (image : Bool) → Request
  enum_fmt : (index : ℕ) → Request
  try_fmt set_fmt : (pixel_format : ℕ) (width height : ℤ) → Request
  req_bufs : (count : ℕ) → Request
  query_buf queue_buf : (index : ℕ) → Request
  s_ctrl : (id : ℕ) (value : ℤ) → Request

pub data DeviceCall : Type 0 where
  open_device : (number : ℕ) → DeviceCall
  close_device select_device : (handle : ℤ) → DeviceCall
  ioctl : (handle : ℤ) → Request → DeviceCall
  map_memory : (handle : ℤ) (length offset : ℕ) → DeviceCall
  unmap_memory : (address : ℕ) (length : ℤ) → DeviceCall
  sleep : (microseconds : ℤ) → DeviceCall
  frame : (offset : ℕ) (length : ℤ) → DeviceCall

-- Calls of Android's camera service, by the library behind the camera functions, and the call of
-- the registered callback for frames.
pub data PreviewFlags : Type 0 where
  noop barcode_scanner camera_flags : PreviewFlags

pub data ServiceCall : Type 0 where
  connect_camera : (id : ℤ) → ServiceCall
  get_status set_listener disconnect_camera : ServiceCall
  set_preview_flags : PreviewFlags → ServiceCall
  set_parameters : List ℕ → ServiceCall
  get_parameters set_preview_target set_preview_display start_camera_preview stop_camera_preview :
      ServiceCall
  send_orientation : ℤ → ServiceCall
  video_frame : (base : ℕ) (size : ℤ) → ServiceCall

-- The libraries libCodecBase<n>.so and libCamera<n>.so, and the functions looked up in them.
pub data Library : Type 0 where
  codec_base_so camera_so : (n : ℕ) → Library

pub data Symbol : Type 0 where
  test_sym codec_create_sym register_buffer_call_sym start_codec_sym stop_codec_sym add_buffer_sym
        codec_destroy_sym convert_key_value_sym :
      Symbol
  camera_setup_sym camera_release_sym set_camera_parameter_sym get_camera_parameter_sym
        start_preview_sym stop_preview_sym set_display_orientation_sym :
      Symbol

-- `now` tells RTLD_NOW from RTLD_LAZY.
pub data SystemCall : Type 0 where
  dlopen : Library → (now : Bool) → SystemCall
  dlclose : (handle : ℕ) → SystemCall
  dlsym : (handle : ℕ) → Symbol → SystemCall
  dlerror : SystemCall
  run_thread request_exit : SystemCall
  pthread_create : (detached : Bool) → SystemCall
  pthread_join pthread_detach : SystemCall

pub data Call : Type 0 where
  session : SessionCall → Call
  codec : CodecCall → Call
  camera : CameraCall → Call
  media : MediaCall → Call
  service : ServiceCall → Call
  device : DeviceCall → Call
  system : SystemCall → Call

abbrev pub Trace : Type 0
Trace = List Call

-- What the calls return, given all calls up to the one that returns: a status or an `int`, and an
-- address (0 for NULL).
pub record Env : Type 0 where
  pub status : Trace → ℤ
  pub address : Trace → ℕ
  -- `inet_addr`, on the text of an address
  pub inet_addr : List ℕ → ℕ

-- A program over a state `S`. A `crash` is what C leaves undefined, such as a call through NULL.
pub data Outcome (S A : Type 0) : Type 0 where
  done : A → S → Trace → Outcome S A
  crash : Outcome S A

abbrev pub Prog : Type 0 → Type 0 → Type 0
Prog S A = S → Trace → Outcome S A

abbrev pub ret : {S A : Type 0} → A → Prog S A
ret a s log = done a s log

module _ {S A B : Type 0} where
  abbrev pub after : Outcome S A → (A → Prog S B) → Outcome S B
  after (done a s log) k = k a s log
  after crash k = crash

  infixl 5 ◌>>=◌ ◌>>◌
  abbrev pub ◌>>=◌ : Prog S A → (A → Prog S B) → Prog S B
  p >>= k = λ s log. after (p s log) k

  abbrev pub ◌>>◌ : Prog S A → Prog S B → Prog S B
  p >> q = p >>= λ _. q

abbrev pub get : {S : Type 0} → Prog S S
get s log = done s s log

abbrev pub put : {S : Type 0} → S → Prog S (Unit {0})
put s' s log = done tt s' log

-- A call whose result is not used.
abbrev pub tell : {S : Type 0} → Call → Prog S (Unit {0})
tell c s log = done tt s (log ++ (c ∷ []))

-- A call that returns a status, and one that returns an address.
abbrev pub ask : {S : Type 0} → Env → Call → Prog S ℤ
ask env c s log = done (env.status (log ++ (c ∷ []))) s (log ++ (c ∷ []))

abbrev pub ask_address : {S : Type 0} → Env → Call → Prog S ℕ
ask_address env c s log = done (env.address (log ++ (c ∷ []))) s (log ++ (c ∷ []))
