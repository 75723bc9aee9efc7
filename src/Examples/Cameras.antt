-- ===== src/Examples/Cameras.antt =====
-- The theorems on the camera, with small devices.
use greatone.Base.{
  ℕ, ◌/◌, ◌≡◌, refl, true, false, Option, none, some, List, [], ◌∷◌, ◌++◌, ℤ, pos, negsuc, leb,
  length, arith, get_elem?, le→leb,
}
use greatone.World.{Call, device, ioctl, enum_fmt, Trace, done, crash, ◌>>◌}
use greatone.Camera.{DeviceEnv, CameraHardware, new}
use greatone.Camera.Format.{first_format, nv21, nv12, yuyv}
use greatone.Camera.Format.Choice.{Lists, Answers, Returns, first_format-Returns}
use greatone.Camera.Buffers.{query_buffers}
use greatone.Camera.Capture.{set_frame_rate, get_frame_rate, get_capture_frame, init_camera}
use greatone.Camera.Capture.Rate.{get-set_frame_rate}
use greatone.Camera.Capture.Taken.{Ends, get_capture_frame-Ends}
use greatone.Camera.Capture.Init.{init_camera-formats, query_buffers-overrun}
use greatone.Camera.Capture.WellFormed.{Safe}
use greatone.Camera.Capture.Run.{
  init, deinit, start, stop, frame_rate, perform_all, perform_all-Safe,
}

-- A device that refuses nothing; its thread is stopped after ten calls.
abbrev willing : DeviceEnv
willing = record {
  calls = record { status = λ log. pos 3; address = λ log. 4096; inet_addr = λ text. 0 };
  pixel_format = λ log. nv21;
  width = λ log. 640;
  height = λ log. 480;
  capabilities = λ log. 67108865;
  granted = λ log. 4;
  index = λ log. 2;
  length = λ log. 460800;
  offset = λ log. 8192;
  timestamp = λ log. 77;
  stopped = λ log. leb 10 (length log);
  unknown_error = negsuc 2147483647;
}

get-set_frame_rate_example :
    (set_frame_rate (pos 30) >> get_frame_rate) new []
    ≡ done 30 (record new { base_sleep_time = some (1000000 / 30) }) []
get-set_frame_rate_example = get-set_frame_rate 30 new [] (omega arith) (omega arith)

perform_all-Safe_example : Safe (
    perform_all willing
      (init (pos 640) (pos 480) (pos 0) ∷ start ∷ frame_rate (pos 10) ∷ stop ∷ deinit ∷ deinit ∷ [])
      new
      [])
perform_all-Safe_example =
    perform_all-Safe willing
      (init (pos 640) (pos 480) (pos 0) ∷ start ∷ frame_rate (pos 10) ∷ stop ∷ deinit ∷ deinit ∷ [])
      [] (λ l. omega arith)

-- A camera that is filming.
abbrev filming : CameraHardware
filming = record {
  base_sleep_time = none;
  sleep_time = some 33333;
  pixel_format = pos nv21;
  has_callback = true;
  device_id = some (pos 0);
  check_init = true;
  first_frame = true;
  frame_id = 0;
  video_width = pos 640;
  video_height = pos 480;
  handle = pos 3;
  buffer_count = pos 6;
  mem = 0 ∷ 0 ∷ 0 ∷ 0 ∷ 0 ∷ [];
  mem_length = pos 0;
  timestamp = 0;
  capturing = true;
}

get_capture_frame-Ends_example : Ends willing [] (get_capture_frame willing 11 filming [])
get_capture_frame-Ends_example =
    get_capture_frame-Ends willing 10 33333 11 filming [] (λ l long. le→leb 10 (length l) long) refl
      refl (omega arith)

query_buffers-overrun_example : query_buffers willing filming [] ≡ crash
query_buffers-overrun_example =
    query_buffers-overrun willing filming [] (λ log. (refl, refl)) refl (omega arith)

-- A device that lists two formats, one of them NV12.
abbrev last : Trace → Option Call
last [] = none
last (c ∷ []) = some c
last (c ∷ d ∷ cs) = last (d ∷ cs)

abbrev status_if : Option ℕ → ℤ
status_if none = negsuc 0
status_if (some f) = pos 0

abbrev format_if : Option ℕ → ℕ
format_if none = 0
format_if (some f) = f

abbrev status_of : List ℕ → Option Call → ℤ
status_of fs (some (device (ioctl h (enum_fmt i)))) = status_if (get_elem? fs i)
status_of fs _ = pos 3

abbrev format_of : List ℕ → Option Call → ℕ
format_of fs (some (device (ioctl h (enum_fmt i)))) = format_if (get_elem? fs i)
format_of fs _ = 0

abbrev listing : List ℕ → DeviceEnv
listing fs = record willing {
  calls = record {
    status = λ log. status_of fs (last log);
    address = λ log. 4096;
    inet_addr = λ text. 0;
  };
  pixel_format = λ log. format_of fs (last log);
}

last-append : (log : Trace) (c : Call) → last (log ++ (c ∷ [])) ≡ some c
last-append [] c = refl
last-append (x ∷ []) c = refl
last-append (x ∷ y ∷ cs) c = last-append (y ∷ cs) c

listing-Lists : (fs : List ℕ) → Lists (listing fs) fs
listing-Lists fs log h i = listed (get_elem? fs i) refl
  where
    listed :
        (o : Option ℕ)
        → get_elem? fs i ≡ o
        → Answers (listing fs) o (log ++ (device (ioctl h (enum_fmt i)) ∷ []))
    listed none at = rw (last-append log (device (ioctl h (enum_fmt i))), at) refl
    listed (some f) at = rw (last-append log (device (ioctl h (enum_fmt i))), at) (refl, refl)

abbrev nv12_camera : List ℕ
nv12_camera = 1196444237 ∷ nv12 ∷ []

first_format-Returns_example :
    Returns
      (listing nv12_camera)
      (first_format (listing nv12_camera) (nv21 ∷ yuyv ∷ nv12 ∷ []))
      (some nv12)
      filming
      []
first_format-Returns_example =
    first_format-Returns (listing nv12_camera) nv12_camera (nv21 ∷ yuyv ∷ nv12 ∷ []) filming []
      (listing-Lists nv12_camera)

abbrev mjpeg_camera : List ℕ
mjpeg_camera = 1196444237 ∷ []

init_camera-formats_example :
    (t : CameraHardware) × (log' : Trace) × (init_camera
        (listing mjpeg_camera)
        (pos 640)
        (pos 480)
        (pos 0)
        new
        []
      ≡ done true t log')
    × (t.check_init ≡ false)
unfolding new
init_camera-formats_example =
    init_camera-formats (listing mjpeg_camera) mjpeg_camera (pos 640) (pos 480) (pos 0) new []
      (listing-Lists mjpeg_camera) refl refl refl
