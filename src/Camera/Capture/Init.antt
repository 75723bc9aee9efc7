-- ===== src/Camera/Capture/Init.antt =====
-- `InitCamera` of Media/Camera/old/CameraHardware.cpp.
use greatone.Base.{
  ℕ, zero, suc, ◌+◌, ◌<◌, ◌≤◌, ◌≡◌, ◌∙◌, refl, true, false, none, some, List, [], ◌∷◌, ◌++◌, ℤ,
  take, if◌then◌else◌, is_neg, ◌==◌, length, set, length-set, ltb, ltb→lt, Bool-cases, inl, inr,
  arith,
}
use greatone.World.{
  device, open_device, ioctl, query_buf, queue_buf, map_memory, Trace, done, crash,
}
use greatone.CommonThread.{is_zero}
use greatone.Camera.{DeviceEnv, CameraHardware}
use greatone.Camera.Format.{is_minus_one, nv21, nv12, yuyv, try_fmt_size, try_format}
use greatone.Camera.Format.Choice.{Lists, first_in, first_format-Returns}
use greatone.Camera.Buffers.{
  open_camera_dev, map_failed, rounds_of, store_mapping, query_from, query_buffers,
}
use greatone.Camera.Capture.{init_camera}

-- The call that opens the device of an id.
abbrev pub opening : (id : ℤ) → Trace → Trace
opening id log = log ++ (device (open_device (if is_zero id then 0 else 1)) ∷ [])

-- On a device that can be opened, but lists none of the three formats among its first twelve,
-- `InitCamera` says that it succeeded, and leaves the camera uninitialised.
pub init_camera-formats :
    (env : DeviceEnv) (fs : List ℕ) (width height id : ℤ) (s : CameraHardware) (log : Trace)
    → Lists env fs
    → first_in (nv21 ∷ yuyv ∷ nv12 ∷ []) (take 12 fs) ≡ none
    → s.check_init ≡ false
    → is_minus_one (env.calls.status (opening id log)) ≡ false
    → (t : CameraHardware) × (log' : Trace) × (init_camera env width height id s log
        ≡ done true t log')
      × (t.check_init ≡ false)
unfolding init_camera open_camera_dev try_fmt_size try_format
init_camera-formats env fs width height id s log lists missing uninit opened =
    let u = record s {
      sleep_time = some 33333;
      device_id = some id;
      check_init = false;
      video_width = width;
      video_height = height;
      handle = env.calls.status (opening id log);
    } in
    let found = first_format-Returns env fs (nv21 ∷ yuyv ∷ nv12 ∷ []) u (opening id log) lists in
    (u, found.0, rw (uninit, opened, found.1, missing) refl, refl)

-- A device that refuses no request.
abbrev pub Willing : DeviceEnv → Type 0
Willing env =
    (log : Trace)
    → (is_neg (env.calls.status log) ≡ false) × ((env.calls.address log == map_failed) ≡ false)

query_from-overrun :
    (env : DeviceEnv) (left i : ℕ) (s : CameraHardware) (log : Trace)
    → Willing env
    → length s.mem ≡ 5
    → i ≤ 5
    → 5 < left + i
    → query_from env left i s log ≡ crash
unfolding query_from store_mapping
query_from-overrun env zero i s log willing five low high = absurd (omega arith)
query_from-overrun env (suc left) i s log willing five low high =
    let asked = log ++ (device (ioctl s.handle (query_buf i)) ∷ []) in
    let mapped =
      asked ++ (device (map_memory s.handle (env.length asked) (env.offset asked)) ∷ []) in
    let queued = mapped ++ (device (ioctl s.handle (queue_buf i)) ∷ []) in
    let stored : length (set s.mem i (env.calls.address mapped)) ≡ 5 =
      length-set s.mem i (env.calls.address mapped) ∙ five in
    elim (Bool-cases (ltb i (length s.mem))) [
      | inr behind ↦ rw ((willing asked).0, behind) refl
      | inl place ↦
          let below = ltb→lt i (length s.mem) place in
          rw ((willing asked).0, place, (willing mapped).1, (willing queued).0)
            (query_from-overrun env left (suc i) _ queued willing stored
              (omega (arith, below, five)) (omega (arith, high)))
    ]

-- On a device that refuses nothing, `v4l2QueryBuf` with more than five buffers granted writes behind
-- the five addresses of `mMapMem`.
pub query_buffers-overrun :
    (env : DeviceEnv) (s : CameraHardware) (log : Trace)
    → Willing env
    → length s.mem ≡ 5
    → 5 < rounds_of s.buffer_count
    → query_buffers env s log ≡ crash
unfolding query_buffers
query_buffers-overrun env s log willing five many =
    query_from-overrun env (rounds_of s.buffer_count) 0 s log willing five (omega arith)
      (omega (arith, many))
