-- ===== src/Camera.antt =====
-- The class CameraHardware of Media/Camera/old/CameraHardware.cpp and its base class BaseCamera
-- (Media/Camera/old/BaseCamera.cpp), which film with a V4L2 device. The device is a parameter.
pub mod Format
pub mod Buffers
pub mod Capture
use greatone.Base.{
  ℕ, Bool, true, false, Option, none, some, List, [], ◌∷◌, ℤ, pos, negsuc, replicate,
}
use greatone.World.{Env, Trace, Prog, device, DeviceCall, ioctl, Request, done, ask, get}

-- What the system answers, given all calls up to the one that returns: a status or a descriptor,
-- the address of a mapping, and what it writes into the structure that the call passes.
pub record DeviceEnv : Type 0 where
  pub calls : Env
  pub pixel_format : Trace → ℕ
  pub width : Trace → ℕ
  pub height : Trace → ℕ
  pub capabilities : Trace → ℕ
  pub granted : Trace → ℕ
  pub index : Trace → ℕ
  pub length : Trace → ℕ
  pub offset : Trace → ℕ
  pub timestamp : Trace → ℕ
  -- Whether another thread has cleared `mCapturing` by then.
  pub stopped : Trace → Bool
  -- Android's UNKNOWN_ERROR
  pub unknown_error : ℤ

-- `mTvdFlag` and `mTakingPicture` are false all the time. BaseCamera and CameraHardware both declare
-- an `mSleepTime`; `none` stands for a member that has no value yet.
pub record CameraHardware : Type 0 where
  pub base_sleep_time : Option ℕ
  pub sleep_time : Option ℕ
  pub pixel_format : ℤ
  pub has_callback : Bool
  pub device_id : Option ℤ
  pub check_init : Bool
  pub first_frame : Bool
  pub frame_id : ℕ
  pub video_width : ℤ
  pub video_height : ℤ
  pub handle : ℤ
  pub buffer_count : ℤ
  pub mem : List ℕ
  pub mem_length : ℤ
  pub timestamp : ℕ
  pub capturing : Bool

-- The constructors.
unfoldable pub new : CameraHardware
new = record {
  base_sleep_time = none;
  sleep_time = none;
  pixel_format = negsuc 0;
  has_callback = false;
  device_id = none;
  check_init = false;
  first_frame = true;
  frame_id = 0;
  video_width = pos 1280;
  video_height = pos 720;
  handle = pos 0;
  buffer_count = pos 5;
  mem = replicate 5 0;
  mem_length = pos 0;
  timestamp = 0;
  capturing = false;
}

-- A request to the device at the descriptor.
abbrev pub request : DeviceEnv → Request → Prog CameraHardware ℤ
request env r s log = ask env.calls (device (ioctl s.handle r)) s log

-- What the device wrote, for the calls so far.
abbrev pub written : {A : Type 0} → (Trace → A) → Prog CameraHardware A
written f s log = done (f log) s log
