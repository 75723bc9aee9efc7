-- ===== src/Camera/Format.antt =====
-- The choice of a pixel format and a size (Media/Camera/old/CameraHardware.cpp).
pub mod Choice
use greatone.Base.{
  ℕ, zero, suc, ◌%◌, ◌^◌, Bool, true, false, Option, none, some, List, [], ◌∷◌, ℤ, pos, negsuc,
  is_neg, ◌==◌, if◌then◌else◌, to_word, of_word,
}
use greatone.World.{enum_fmt, try_fmt, set_fmt, Trace, Prog, done, ret, ◌>>=◌, ◌>>◌, get, put}
use greatone.CommonThread.{is_zero}
use greatone.Camera.{DeviceEnv, CameraHardware, request, written}

-- The status -1.
abbrev pub is_minus_one : ℤ → Bool
is_minus_one (negsuc zero) = true
is_minus_one _ = false

abbrev pub nv21 : ℕ
nv21 = 825382478

abbrev pub nv12 : ℕ
nv12 = 842094158

abbrev pub yuyv : ℕ
yuyv = 1448695129

pub record Size : Type 0 where
  pub width : ℤ
  pub height : ℤ

module _ (env : DeviceEnv) where
  -- The loop of `getFormatCapture` from the index on, with so many tries left.
  unfoldable pub format_from : (left : ℕ) (format index : ℕ) → Prog CameraHardware ℤ
  format_from zero format index = ret (negsuc 0)
  format_from (suc left) format index = do
    let rest = format_from left format (suc index)
    err ← request env (enum_fmt index)
    pixel_format ← written env.pixel_format
    if is_minus_one err
        then ret (negsuc 0)
        else (if pixel_format == format then ret (pos 0) else rest)

  -- `getFormatCapture`.
  unfoldable pub get_format_capture : (format : ℕ) → Prog CameraHardware ℤ
  unfolding format_from
  get_format_capture format = format_from 12 format 0

  -- The first of some formats that the device has.
  unfoldable pub first_format : List ℕ → Prog CameraHardware (Option ℕ)
  first_format [] = ret none
  first_format (format ∷ formats) = do
    let rest = first_format formats
    err ← get_format_capture format
    if is_zero err then ret (some format) else rest

  -- What `tryFmtSize` does with the format that was found; the size that it leaves.
  unfoldable pub try_format : Option ℕ → Size → Prog CameraHardware (ℤ × Size)
  try_format none size = ret (negsuc 0, size)
  try_format (some format) size = do
    err ← request env (try_fmt format size.width size.height)
    if is_neg err
        then ret (err, size)
        else written (λ log. (
          pos 0,
          record {
            width = of_word (env.width log % 2 ^ 32);
            height = of_word (env.height log % 2 ^ 32);
          },
        ))

  -- `tryFmtSize`.
  unfoldable pub try_fmt_size : Size → Prog CameraHardware (ℤ × Size)
  unfolding first_format try_format
  try_fmt_size size = do format ← first_format (nv21 ∷ yuyv ∷ nv12 ∷ []); try_format format size

  -- The part of `v4l2SetVideoParams` that follows the choice of a format.
  unfoldable pub set_size : Prog CameraHardware ℤ
  unfolding try_fmt_size
  set_size = do
    s ← get
    tried ← try_fmt_size (record { width = s.video_width; height = s.video_height })
    put (record s { video_width = tried.1.width; video_height = tried.1.height })
    err ← request env (set_fmt (to_word s.pixel_format) tried.1.width tried.1.height)
    t ← get
    width ← written (λ log. of_word (env.width log % 2 ^ 32))
    height ← written (λ log. of_word (env.height log % 2 ^ 32))
    if is_neg err
        then ret err
        else (do put (record t { video_width = width; video_height = height }); ret (pos 0))

  unfoldable pub with_format : Option ℕ → Prog CameraHardware ℤ
  unfolding set_size
  with_format none = ret (negsuc 0)
  with_format (some format) = do s ← get; put (record s { pixel_format = pos format }); set_size

  -- `v4l2SetVideoParams`.
  unfoldable pub set_video_params : Prog CameraHardware ℤ
  unfolding set_size with_format first_format
  set_video_params = do
    s ← get
    if is_neg s.pixel_format
        then (do format ← first_format (nv21 ∷ nv12 ∷ yuyv ∷ []); with_format format)
        else set_size
