-- ===== src/Camera/Capture/Run.antt =====
-- The operations of the camera in any order (Media/Camera/old/CameraHardware.cpp).
use greatone.Base.{
  ℕ, ◌≤◌, refl, Bool, ◌&&◌, List, [], ◌∷◌, ℤ, pos, negsuc, ltb, Bool-cases, inl, inr, arith,
}
use greatone.World.{Trace, Prog, ret, ◌>>◌}
use greatone.Camera.{DeviceEnv, CameraHardware, new}
use greatone.Camera.Capture.{
  init_camera, deinit_camera, start_camera, stop_camera, set_frame_rate, set_own_frame_rate,
  register_callback, set_pixel_format, set_white_balance, set_exposure, video_capture_release_frame,
}
use greatone.Camera.Capture.WellFormed.{Safe, Sound, after-Safe}
use greatone.Camera.Capture.Steps.{init_camera-Sound, deinit_camera-Sound}

start_camera-Sound : Sound start_camera
unfolding start_camera
start_camera-Sound s log w = elim (Bool-cases s.check_init) [ inl e ↦ rw e w | inr e ↦ rw e w ]

stop_camera-Sound : Sound stop_camera
unfolding stop_camera
stop_camera-Sound s log w = elim (Bool-cases s.check_init) [ inl e ↦ rw e w | inr e ↦ rw e w ]

set_frame_rate-Sound : (rate : ℤ) → Sound (set_frame_rate rate)
unfolding set_frame_rate
set_frame_rate-Sound (pos rate) s log w = elim (Bool-cases (ltb 0 rate && ltb rate 50)) [
  | inl e ↦ rw e w
  | inr e ↦ rw e w
]
set_frame_rate-Sound (negsuc rate) s log w = w

set_own_frame_rate-Sound : (rate : ℤ) → Sound (set_own_frame_rate rate)
unfolding set_own_frame_rate
set_own_frame_rate-Sound (pos rate) s log w = elim (Bool-cases (ltb 0 rate && ltb rate 50)) [
  | inl e ↦ rw e w
  | inr e ↦ rw e w
]
set_own_frame_rate-Sound (negsuc rate) s log w = w

-- The operations that other classes call.
pub data Operation : Type 0 where
  init : (width height id : ℤ) → Operation
  deinit start stop : Operation
  frame_rate own_frame_rate format white_balance exposure : ℤ → Operation
  callback : (has_callback : Bool) → Operation
  release_frame : (index : ℕ) → Operation

module _ (env : DeviceEnv) where
  abbrev pub perform : Operation → Prog CameraHardware (Unit {0})
  perform (init width height id) = init_camera env width height id >> ret tt
  perform deinit = deinit_camera env
  perform start = start_camera >> ret tt
  perform stop = stop_camera >> ret tt
  perform (frame_rate rate) = set_frame_rate rate
  perform (own_frame_rate rate) = set_own_frame_rate rate
  perform (format f) = set_pixel_format f
  perform (white_balance value) = set_white_balance env value >> ret tt
  perform (exposure value) = set_exposure env value >> ret tt
  perform (callback has_callback) = register_callback has_callback
  perform (release_frame index) = video_capture_release_frame env index

  abbrev pub perform_all : List Operation → Prog CameraHardware (Unit {0})
  perform_all [] = ret tt
  perform_all (operation ∷ operations) = perform operation >> perform_all operations

  perform-Sound :
      ((l : Trace) → env.granted l ≤ 5) → (operation : Operation) → Sound (perform operation)
  unfolding register_callback set_pixel_format set_white_balance set_exposure
      video_capture_release_frame
  perform-Sound few (init width height id) s log w =
      after-Safe (init_camera env width height id s log) _
        (init_camera-Sound env width height id few s log w) (λ _ t l v. v)
  perform-Sound few deinit s log w = deinit_camera-Sound env s log w
  perform-Sound few start s log w =
      after-Safe (start_camera s log) _ (start_camera-Sound s log w) (λ _ t l v. v)
  perform-Sound few stop s log w =
      after-Safe (stop_camera s log) _ (stop_camera-Sound s log w) (λ _ t l v. v)
  perform-Sound few (frame_rate rate) s log w = set_frame_rate-Sound rate s log w
  perform-Sound few (own_frame_rate rate) s log w = set_own_frame_rate-Sound rate s log w
  perform-Sound few (format f) s log w = w
  perform-Sound few (white_balance value) s log w = w
  perform-Sound few (exposure value) s log w = w
  perform-Sound few (callback has_callback) s log w = w
  perform-Sound few (release_frame index) s log w = w

  all-Sound :
      ((l : Trace) → env.granted l ≤ 5)
      → (operations : List Operation) → Sound (perform_all operations)
  all-Sound few [] s log w = w
  all-Sound few (operation ∷ operations) s log w =
      after-Safe (perform operation s log) _ (perform-Sound few operation s log w)
        (λ _. all-Sound few operations)

  -- On a device that grants at most five buffers, any run on a new camera of InitCamera,
  -- DeinitCamera, StartCamera, StopCamera, RegisterCallback, videoCaptureReleaseFrame and the
  -- functions that set the rate (of both classes), the pixel format, the white balance and the
  -- exposure, in any order and whatever the device answers, goes without an access behind the
  -- five addresses and without a crash, and leaves a camera that has place for all its buffers.
  -- (GetFrameRate and the loop of the thread are not among these.)
  pub perform_all-Safe :
      (operations : List Operation) (log : Trace)
      → ((l : Trace) → env.granted l ≤ 5)
      → Safe (perform_all operations new log)
  unfolding new
  perform_all-Safe operations log few = all-Sound few operations new log (refl, omega arith)
