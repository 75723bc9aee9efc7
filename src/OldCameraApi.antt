-- ===== src/OldCameraApi.antt =====
-- The older library behind the camera functions, Media/Camera/old/CameraApi6.cpp: the class
-- JNICameraListen and the functions on the pointer `gListenContext`. Its fields and what the camera
-- service answers are as in CameraApi.
pub mod Same
use greatone.Base.{
  ℕ, ◌%◌, ◌^◌, Bool, true, false, not, ◌&&◌, Option, none, some, List, [], ◌∷◌, ℤ, pos, negsuc,
  ◌==◌, if◌then◌else◌, of_word,
}
use greatone.World.{
  service, connect_camera, get_status, set_listener, disconnect_camera, set_preview_flags, noop,
  barcode_scanner, set_parameters, get_parameters, set_preview_target, start_camera_preview,
  stop_camera_preview, video_frame, ServiceCall, Prog, Outcome, done, crash, ret, ◌>>=◌, ◌>>◌, get,
  put, tell, ask, ask_address,
}
use greatone.CommonThread.{is_zero}
use greatone.CameraApi.{ServiceEnv, JniCameraListen}

-- The constructor.
unfoldable pub new : (has_callback : Bool) → JniCameraListen
new has_callback = record { camera = false; has_callback = has_callback }

-- A call of `mCamera`; through NULL it is undefined.
unfoldable pub call_service : ServiceCall → Prog JniCameraListen (Unit {0})
call_service c s log = if s.camera then tell (service c) s log else crash

-- `JNICameraListen::CameraRelease`.
unfoldable pub camera_release : Prog JniCameraListen ℤ
camera_release = do
  s ← get
  if not s.camera then ret (pos 0) else do
    tell (service (set_preview_flags noop))
    tell (service disconnect_camera)
    put (record s { camera = false })
    ret (pos 0)

-- `JNICameraListen::SetCameraParameter`; NULL for no text.
unfoldable pub set_camera_parameter : Option (List ℕ) → Prog JniCameraListen (Unit {0})
unfolding call_service
set_camera_parameter none = ret tt
set_camera_parameter (some params) = call_service (set_parameters params)

-- `JNICameraListen::StartPreview` and `JNICameraListen::StopPreview`.
unfoldable pub start_preview : (surface : Bool) → Prog JniCameraListen (Unit {0})
unfolding call_service
start_preview surface = do
  s ← get
  if surface && s.camera then tell (service set_preview_target) else ret tt
  call_service start_camera_preview

unfoldable pub stop_preview : Prog JniCameraListen (Unit {0})
unfolding call_service
stop_preview = call_service stop_camera_preview

module _ (env : ServiceEnv) where
  -- `JNICameraListen::CameraSetup`. (The name of the client only goes to the service.)
  unfoldable pub camera_setup : (id : ℤ) → Prog JniCameraListen ℤ
  camera_setup id = do
    s ← get
    if s.camera then ret tt else do
      address ← ask_address env.calls (service (connect_camera id))
      put (record s { camera = not (address == 0) })
    t ← get
    if not t.camera then ret (negsuc 0) else do
      status ← ask env.calls (service get_status)
      if not (is_zero status) then ret (negsuc 1) else do
        tell (service set_listener)
        tell (service (set_preview_flags barcode_scanner))
        ret (pos 0)

  -- `JNICameraListen::GetCameraParameter`; 0 for NULL.
  unfoldable pub get_camera_parameters : Prog JniCameraListen ℕ
  unfolding call_service
  get_camera_parameters = do
    call_service get_parameters
    (λ s log. done (env.calls.address log) s log)

  -- The frame goes to the callback.
  unfoldable pub show_posted : (base : ℕ) → Prog JniCameraListen (Unit {0})
  show_posted base s log =
      if not (base == 0) && s.has_callback
      then tell (service (video_frame base (of_word (env.size log % 2 ^ 32)))) s log
      else done tt s log

  -- `JNICameraListen::postData`, as in CameraApi.
  unfoldable pub post_data : (present : Bool) (base : ℕ) → Prog JniCameraListen (Unit {0})
  unfolding call_service show_posted
  post_data false base = ret tt
  post_data true base = show_posted base >> call_service (set_preview_flags barcode_scanner)

-- A method of `gListenContext`, where that is not NULL.
abbrev pub on_context :
    {A : Type 0} → Prog JniCameraListen A → Prog (Option JniCameraListen) (Unit {0})
on_context p none log = done tt none log
on_context p (some s) log = elim (p s log) [ done a t log' ↦ done tt (some t) log' | crash ↦ crash ]

-- The functions of the library that return no text, and a frame from the service's thread.
pub data OldEntry : Type 0 where
  setup : (has_callback : Bool) (id : ℤ) → OldEntry
  release stop : OldEntry
  parameters : Option (List ℕ) → OldEntry
  preview : (surface : Bool) → OldEntry
  post : (present : Bool) (base : ℕ) → OldEntry

-- `CameraSetup`, when `gListenContext` is set.
abbrev on_setup : Outcome JniCameraListen ℤ → Outcome (Option JniCameraListen) ℤ
on_setup (done r t log) = done r (some t) log
on_setup crash = crash

module _ (env : ServiceEnv) where
  unfoldable pub enter_old : OldEntry → Prog (Option JniCameraListen) ℤ
  unfolding new camera_setup camera_release set_camera_parameter start_preview stop_preview
      post_data
  enter_old (setup has_callback id) none log = on_setup (camera_setup env id (new has_callback) log)
  enter_old (setup has_callback id) (some s) log = on_setup (camera_setup env id s log)
  enter_old release none log = done (negsuc 0) none log
  enter_old release (some s) log =
      (do on_context camera_release; put none; ret (pos 0)) (some s) log
  enter_old (parameters params) s log =
      (on_context (set_camera_parameter params) >> ret (pos 0)) s log
  enter_old (preview surface) s log = (on_context (start_preview surface) >> ret (pos 0)) s log
  enter_old stop s log = (on_context stop_preview >> ret (pos 0)) s log
  enter_old (post present base) s log =
      (on_context (post_data env present base) >> ret (pos 0)) s log

  -- Any of these, one after the other.
  unfoldable pub enter_olds : List OldEntry → Prog (Option JniCameraListen) (Unit {0})
  unfolding enter_old
  enter_olds [] = ret tt
  enter_olds (e ∷ es) = do enter_old e; enter_olds es

-- `GetCameraParameter`: NULL where there is no context.
unfoldable pub get_camera_parameter : ServiceEnv → Prog (Option JniCameraListen) ℕ
unfolding get_camera_parameters
get_camera_parameter env none log = done 0 none log
get_camera_parameter env (some s) log = elim (get_camera_parameters env s log) [
  | done a t log' ↦ done a (some t) log'
  | crash ↦ crash
]
