-- ===== src/CameraApi.antt =====
-- The library behind the camera functions: the class JNICameraListen (Media/Camera/CameraListen.cpp,
-- with the parts for a version of Android in Media/Camera/cam4, cam5 and cam6) and the functions of
-- Media/Camera/CameraApi.cpp on the pointer `gListenContext`. Android's camera service is a
-- parameter.
pub mod Connection
use greatone.Base.{
  ℕ, ◌%◌, ◌^◌, Bool, true, false, not, ◌&&◌, Option, none, some, List, [], ◌∷◌, ℤ, pos, negsuc,
  ◌==◌, if◌then◌else◌, of_word,
}
use greatone.World.{
  service, connect_camera, get_status, set_listener, disconnect_camera, set_preview_flags, noop,
  barcode_scanner, camera_flags, set_parameters, get_parameters, set_preview_target,
  set_preview_display, PreviewFlags, start_camera_preview, stop_camera_preview, send_orientation,
  video_frame, ServiceCall, Trace, Env, Prog, Outcome, done, crash, ret, ◌>>=◌, ◌>>◌, get, put,
  tell, ask, ask_address,
}
use greatone.CommonThread.{is_zero}

-- What the camera service answers: statuses and addresses (of the camera, of the parameters and of
-- the heap of a frame, 0 for NULL), and the size of a frame.
pub record ServiceEnv : Type 0 where
  pub calls : Env
  pub size : Trace → ℕ

-- Whether `mCamera` and `mCallback` are not NULL.
pub record JniCameraListen : Type 0 where
  pub camera : Bool
  pub has_callback : Bool

-- The constructor.
unfoldable pub new : (has_callback : Bool) → JniCameraListen
new has_callback = record { camera = false; has_callback = has_callback }

-- A call of `mCamera`; through NULL it is undefined.
unfoldable pub call_service : ServiceCall → Prog JniCameraListen (Unit {0})
call_service c s log = if s.camera then tell (service c) s log else crash

-- `JNICameraListen::CameraRelease`.
unfoldable pub camera_release : Prog JniCameraListen ℤ
camera_release = do
  s ← get
  if not s.camera then ret (pos 0) else do
    tell (service (set_preview_flags noop))
    tell (service disconnect_camera)
    put (record s { camera = false })
    ret (pos 0)

-- `JNICameraListen::stopPreview` and `JNICameraListen::setDisplayOrientation`.
unfoldable pub stop_preview : Prog JniCameraListen (Unit {0})
stop_preview = do s ← get; if s.camera then tell (service stop_camera_preview) else ret tt

unfoldable pub set_display_orientation : ℤ → Prog JniCameraListen (Unit {0})
set_display_orientation value = do
  s ← get
  if s.camera then tell (service (send_orientation value)) else ret tt

-- `setParameters`; NULL for no text.
unfoldable pub set_camera_parameters : Option (List ℕ) → Prog JniCameraListen (Unit {0})
unfolding call_service
set_camera_parameters none = ret tt
set_camera_parameters (some params) = call_service (set_parameters params)

-- `startPreview` of version 4, with both calls under the test.
unfoldable pub start_preview_4 : (surface : Bool) → Prog JniCameraListen (Unit {0})
start_preview_4 surface = do
  s ← get
  if surface && s.camera
      then (do tell (service set_preview_display); tell (service start_camera_preview))
      else ret tt

-- `startPreview` of the versions 5 and 6, with the second call outside the test.
unfoldable pub start_preview : (surface : Bool) → Prog JniCameraListen (Unit {0})
unfolding call_service
start_preview surface = do
  s ← get
  if surface && s.camera then tell (service set_preview_target) else ret tt
  call_service start_camera_preview

-- The method of a version: 4, or else 5 or 6, whose files have the same text.
abbrev pub start_preview_of : (four surface : Bool) → Prog JniCameraListen (Unit {0})
start_preview_of true surface = start_preview_4 surface
start_preview_of false surface = start_preview surface

-- The flags at the end of `CameraSetup`.
abbrev pub flags_of : (four : Bool) → PreviewFlags
flags_of four = if four then camera_flags else barcode_scanner

module _ (env : ServiceEnv) where
  -- `JNICameraListen::CameraSetup`, with the flags of the version. (The name of the client, in the versions
  -- 5 and 6, only goes to the service.)
  unfoldable pub listen_setup : (flags : PreviewFlags) (id : ℤ) → Prog JniCameraListen ℤ
  listen_setup flags id = do
    s ← get
    if s.camera then ret tt else do
      address ← ask_address env.calls (service (connect_camera id))
      put (record s { camera = not (address == 0) })
    t ← get
    if not t.camera then ret (negsuc 0) else do
      status ← ask env.calls (service get_status)
      if not (is_zero status)
          then ret (negsuc 1)
          else do tell (service set_listener); tell (service (set_preview_flags flags)); ret (pos 0)

  -- `JNICameraListen::getParameters`; 0 for NULL.
  unfoldable pub get_camera_parameters : Prog JniCameraListen ℕ
  unfolding call_service
  get_camera_parameters = do
    call_service get_parameters
    (λ s log. done (env.calls.address log) s log)

  -- The frame goes to the callback.
  unfoldable pub show_posted : (base : ℕ) → Prog JniCameraListen (Unit {0})
  show_posted base s log =
      if not (base == 0) && s.has_callback
      then tell (service (video_frame base (of_word (env.size log % 2 ^ 32)))) s log
      else done tt s log

  -- `JNICameraListen::postData`, for a frame at an address (0 for NULL); `present` says whether
  -- there is a `dataPtr`. The frame's offset in its heap is not used.
  unfoldable pub post_data : (present : Bool) (base : ℕ) → Prog JniCameraListen (Unit {0})
  unfolding call_service show_posted
  post_data false base = ret tt
  post_data true base = show_posted base >> call_service (set_preview_flags barcode_scanner)

-- A method of `gListenContext`, where that is not NULL.
abbrev pub on_context :
    {A : Type 0} → Prog JniCameraListen A → Prog (Option JniCameraListen) (Unit {0})
on_context p none log = done tt none log
on_context p (some s) log = elim (p s log) [ done a t log' ↦ done tt (some t) log' | crash ↦ crash ]

-- The functions of the library that return no text, and a frame from the service's thread.
pub data CameraEntry : Type 0 where
  setup : (has_callback : Bool) (id : ℤ) → CameraEntry
  release stop : CameraEntry
  parameters : Option (List ℕ) → CameraEntry
  preview : (surface : Bool) → CameraEntry
  orientation : ℤ → CameraEntry
  post : (present : Bool) (base : ℕ) → CameraEntry

-- `CameraSetup`, when `gListenContext` is set.
abbrev on_setup : Outcome JniCameraListen ℤ → Outcome (Option JniCameraListen) ℤ
on_setup (done r t log) = done r (some t) log
on_setup crash = crash

module _ (env : ServiceEnv) (four : Bool) where
  unfoldable pub enter_camera : CameraEntry → Prog (Option JniCameraListen) ℤ
  unfolding new listen_setup camera_release set_camera_parameters start_preview start_preview_4
      stop_preview set_display_orientation post_data
  enter_camera (setup has_callback id) none log =
      on_setup (listen_setup env (flags_of four) id (new has_callback) log)
  enter_camera (setup has_callback id) (some s) log =
      on_setup (listen_setup env (flags_of four) id s log)
  enter_camera release none log = done (negsuc 0) none log
  enter_camera release (some s) log =
      (do on_context camera_release; put none; ret (pos 0)) (some s) log
  enter_camera (parameters params) s log =
      (on_context (set_camera_parameters params) >> ret (pos 0)) s log
  enter_camera (preview surface) s log =
      (on_context (start_preview_of four surface) >> ret (pos 0)) s log
  enter_camera stop s log = (on_context stop_preview >> ret (pos 0)) s log
  enter_camera (orientation value) s log =
      (on_context (set_display_orientation value) >> ret (pos 0)) s log
  enter_camera (post present base) s log =
      (on_context (post_data env present base) >> ret (pos 0)) s log

  -- Any of these, one after the other.
  unfoldable pub enter_cameras : List CameraEntry → Prog (Option JniCameraListen) (Unit {0})
  unfolding enter_camera
  enter_cameras [] = ret tt
  enter_cameras (e ∷ es) = do enter_camera e; enter_cameras es

-- `GetCameraParameter`, which does not look at `gListenContext`.
unfoldable pub get_camera_parameter : ServiceEnv → Prog (Option JniCameraListen) ℕ
unfolding get_camera_parameters
get_camera_parameter env none log = crash
get_camera_parameter env (some s) log = elim (get_camera_parameters env s log) [
  | done a t log' ↦ done a (some t) log'
  | crash ↦ crash
]
