-- ===== src/Camera/Capture.antt =====
-- The camera's own operations and the loop of its thread (Media/Camera/old/CameraHardware.cpp,
-- Media/Camera/old/BaseCamera.cpp).
pub mod Rate
pub mod Taken
pub mod WellFormed
pub mod Init
pub mod Steps
pub mod Run
use greatone.Base.{
  ℕ, zero, suc, ◌+◌, ◌%◌, ◌/◌, ◌^◌, Bool, true, false, not, ◌&&◌, ◌||◌, Option, none, some, List,
  [], ◌∷◌, ℤ, pos, negsuc, is_neg, is_pos, ltb, ◌==◌, if◌then◌else◌, of_word,
}
use greatone.World.{
  device, s_ctrl, queue_buf, dequeue_buf, select_device, sleep, frame, system, run_thread,
  request_exit, Trace, Prog, done, crash, ret, ◌>>=◌, ◌>>◌, get, put, tell, ask,
}
use greatone.CommonThread.{is_zero}
use greatone.Camera.{DeviceEnv, CameraHardware, request, written}
use greatone.Camera.Format.{Size, is_minus_one, try_fmt_size}
use greatone.Camera.Buffers.{open_camera_dev, close_camera_dev, v4l2_init}

-- `BaseCamera::SetFrameRate`, which sets the member of the base class, and
-- `CameraHardware::setFrameRate`, which sets the one of its own.
unfoldable pub set_frame_rate : ℤ → Prog CameraHardware (Unit {0})
set_frame_rate (pos rate) s log =
    if ltb 0 rate && ltb rate 50
    then done tt (record s { base_sleep_time = some (1000000 / rate) }) log
    else done tt s log
set_frame_rate (negsuc rate) s log = done tt s log

unfoldable pub set_own_frame_rate : ℤ → Prog CameraHardware (Unit {0})
set_own_frame_rate (pos rate) s log =
    if ltb 0 rate && ltb rate 50
    then done tt (record s { sleep_time = some (1000000 / rate) }) log
    else done tt s log
set_own_frame_rate (negsuc rate) s log = done tt s log

-- `GetFrameRate`; with no value, or 0, it is undefined.
unfoldable pub get_frame_rate : Prog CameraHardware ℕ
get_frame_rate s log = elim s.base_sleep_time [
  | none ↦ crash
  | some sleep_time ↦ if sleep_time == 0 then crash else done (1000000 / sleep_time) s log
]

-- `RegisterCallback`, `SetPixelFormat` and `GetPixelFormat`.
unfoldable pub register_callback : (has_callback : Bool) → Prog CameraHardware (Unit {0})
register_callback has_callback = do s ← get; put (record s { has_callback = has_callback })

unfoldable pub set_pixel_format : ℤ → Prog CameraHardware (Unit {0})
set_pixel_format format = do s ← get; put (record s { pixel_format = format })

unfoldable pub get_pixel_format : Prog CameraHardware ℤ
get_pixel_format = do s ← get; ret s.pixel_format

-- `startThread`, `StartCamera` and `StopCamera`.
unfoldable pub start_camera : Prog CameraHardware ℤ
start_camera = do
  s ← get
  if not s.check_init then ret (pos 0) else do
    put (record s { frame_id = 0; capturing = true })
    tell (system run_thread)
    ret (pos 0)

unfoldable pub stop_camera : Prog CameraHardware ℤ
stop_camera = do
  s ← get
  if not s.check_init then ret (pos 0) else do
    put (record s { capturing = false; first_frame = true })
    tell (system request_exit)
    ret (pos 0)

-- The test `i > 1`.
abbrev exceeds_one : ℤ → Bool
exceeds_one (pos n) = ltb 1 n
exceeds_one (negsuc n) = false

module _ (env : DeviceEnv) where
  -- `InitCamera`. The result of `tryFmtSize` and of CHECK_ERROR, a number, becomes a `bool`.
  unfoldable pub init_camera : (width height id : ℤ) → Prog CameraHardware Bool
  unfolding open_camera_dev try_fmt_size v4l2_init
  init_camera width height id = do
    s ← get
    if s.check_init then ret true else do
      put (record s {
        sleep_time = some (1000000 / 30);
        device_id = some id;
        video_width = width;
        video_height = height;
      })
      opened ← open_camera_dev env
      if not (is_zero opened) then ret false else do
        tried ← try_fmt_size env (record { width = width; height = height })
        if not (is_zero tried.0) then ret true else do
          result ← v4l2_init env
          if is_neg result && not (is_zero result)
              then ret (not (is_zero env.unknown_error))
              else (do t ← get; put (record t { check_init = true }); ret true)

  -- `DeInitCamera`.
  unfoldable pub deinit_camera : Prog CameraHardware (Unit {0})
  unfolding close_camera_dev
  deinit_camera = do close_camera_dev env; s ← get; put (record s { check_init = false })

  -- `setWhiteBalance` and `setExposure`; V4L2_CID_BASE is 0x00980900.
  unfoldable pub set_white_balance : ℤ → Prog CameraHardware ℤ
  set_white_balance value = request env (s_ctrl (9963776 + 13) value)

  unfoldable pub set_exposure : ℤ → Prog CameraHardware ℤ
  set_exposure value = request env (s_ctrl (9963776 + 17) value)

  -- `v4l2WaitCamerReady`; a descriptor below 0 has no place in an `fd_set`.
  unfoldable pub wait_camera_ready : Prog CameraHardware ℤ
  wait_camera_ready s log =
      if is_neg s.handle
      then crash
      else (do
        r ← ask env.calls (device (select_device s.handle))
        if is_minus_one r || is_zero r then ret (negsuc 0) else ret (pos 0))
          s log

  -- `getPreviewFrame`, which returns the number of a line when it fails.
  unfoldable pub get_preview_frame : Prog CameraHardware ℤ
  get_preview_frame = do
    err ← request env dequeue_buf
    if is_neg err then ret (pos 754) else ret (pos 0)

  -- A frame that was taken out goes to the callback, if its length is above 1.
  unfoldable pub show_frame : (offset : ℕ) (len : ℤ) → Prog CameraHardware (Unit {0})
  show_frame offset len s log =
      if s.has_callback && exceeds_one len
      then tell (device (frame offset len)) s log
      else done tt s log

  -- `mCapturing`, which another thread may have cleared; and a sleep of `mSleepTime`.
  unfoldable pub is_capturing : Prog CameraHardware Bool
  is_capturing s log = done (s.capturing && not (env.stopped log)) s log

  unfoldable pub sleep_own : Prog CameraHardware (Unit {0})
  sleep_own s log = elim s.sleep_time [
    | none ↦ crash
    | some time ↦ tell (device (sleep (pos time))) s log
  ]

  -- The frame is taken out, shown, and its buffer is given back.
  unfoldable pub film_frame : Prog CameraHardware (Option ℤ)
  unfolding get_preview_frame show_frame
  film_frame = do
    got ← get_preview_frame
    index ← written env.index
    offset ← written env.offset
    len ← written (λ log. of_word (env.length log % 2 ^ 32))
    time ← written (λ log. env.timestamp log % 2 ^ 64)
    if not (is_zero got) then (do tell (device (sleep (pos 10000))); ret (some got)) else (do
      s ← get
      put (record s { timestamp = time })
      show_frame offset len
      request env (queue_buf index)
      ret none)

  -- One round of the loop of `getCaptureFrame`; `none` where it goes on.
  unfoldable pub capture_round : Prog CameraHardware (Option ℤ)
  unfolding is_capturing wait_camera_ready sleep_own film_frame
  capture_round = do
    running ← is_capturing
    if not running then ret (some (pos 0)) else do
      ready ← wait_camera_ready
      sleep_own
      still_running ← is_capturing
      if not still_running
          then ret (some (pos 0))
          else do if not (is_zero ready) then ret (some (pos 384)) else film_frame

  -- `getCaptureFrame`, which the loop of the thread calls; `none` when the fuel is used up.
  unfoldable pub get_capture_frame : (fuel : ℕ) → Prog CameraHardware (Option ℤ)
  unfolding capture_round
  get_capture_frame zero = ret none
  get_capture_frame (suc fuel) = do
    let rest = get_capture_frame fuel
    ended ← capture_round
    elim ended [ none ↦ rest | some result ↦ ret (some result) ]

  -- `videoCaptureGetFrame`, which takes a frame out and gives it back.
  unfoldable pub video_capture_get_frame : Prog CameraHardware ℤ
  unfolding wait_camera_ready get_preview_frame
  video_capture_get_frame = do
    ready ← wait_camera_ready
    if not (is_zero ready) then ret (pos 184) else do
      got ← get_preview_frame
      index ← written env.index
      time ← written (λ log. env.timestamp log % 2 ^ 64)
      if not (is_zero got) then (do tell (device (sleep (pos 10000))); ret got) else (do
        s ← get
        put (record s { timestamp = time })
        request env (queue_buf index)
        ret (pos 0))

  -- `videoCaptureReleaseFrame`.
  unfoldable pub video_capture_release_frame : (index : ℕ) → Prog CameraHardware (Unit {0})
  video_capture_release_frame index = do request env (queue_buf index); ret tt
