-- ===== src/Camera/Capture/WellFormed.antt =====
-- What holds of a camera between its operations (Media/Camera/old/CameraHardware.cpp).
use greatone.Base.{
  ℕ, zero, suc, ◌+◌, ◌≤◌, ◌≡◌, ◌∙◌, Option, none, some, List, [], ◌∷◌, ◌++◌, pos, is_neg, ◌==◌,
  length, set, length-set, Bool-cases, inl, inr, arith, lt→ltb, of_word, ◌%◌, ◌/◌, ◌^◌, to_word,
}
use greatone.World.{
  device, ioctl, enum_fmt, try_fmt, set_fmt, query_cap, stream_on, stream_off, req_bufs, query_buf,
  queue_buf, map_memory, Trace, Prog, Outcome, done, crash, after,
}
use greatone.CommonThread.{is_zero}
use greatone.Camera.{DeviceEnv, CameraHardware}
use greatone.Camera.Format.{
  is_minus_one, nv21, nv12, yuyv, format_from, get_format_capture, first_format, try_format,
  try_fmt_size, set_size, with_format, set_video_params, Size,
}
use greatone.Camera.Buffers.{
  map_failed, rounds_of, store_mapping, check_capability, req_buffers, query_from, start_streaming,
  stop_streaming,
}

-- There is place for five addresses, and no more buffers than that.
abbrev pub WellFormed : CameraHardware → Type 0
WellFormed s = (length s.mem ≡ 5) × (rounds_of s.buffer_count ≤ 5)

abbrev pub Safe : {A : Type 0} → Outcome CameraHardware A → Type 0
Safe (done a s log) = WellFormed s
Safe crash = ⊥

-- A program that is safe wherever the camera is well-formed.
abbrev pub Sound : {A : Type 0} → Prog CameraHardware A → Type 0
Sound p = (s : CameraHardware) (log : Trace) → WellFormed s → Safe (p s log)

pub after-Safe :
    {A B : Type 0} (o : Outcome CameraHardware A) (k : A → Prog CameraHardware B)
    → Safe o
    → ((a : A) → Sound (k a))
    → Safe (after o k)
after-Safe (done a s log) k h next = next a s log h
after-Safe crash k h next = absurd h

few_rounds : (n : ℕ) → n ≤ 5 → rounds_of (of_word (n % 2 ^ 32)) ≤ 5
few_rounds n few = ground arith

module _ (env : DeviceEnv) where
  format_from-Sound : (left f i : ℕ) → Sound (format_from env left f i)
  unfolding format_from
  format_from-Sound zero f i s log w = w
  format_from-Sound (suc left) f i s log w =
      let asked = log ++ (device (ioctl s.handle (enum_fmt i)) ∷ []) in
      elim (Bool-cases (is_minus_one (env.calls.status asked))) [
        | inl e ↦ rw e w
        | inr e ↦ elim (Bool-cases (env.pixel_format asked == f)) [
          | inl e' ↦ rw (e, e') w
          | inr e' ↦ rw (e, e') (format_from-Sound left f (suc i) s asked w)
        ]
      ]

  get_format_capture-Sound : (f : ℕ) → Sound (get_format_capture env f)
  unfolding get_format_capture
  get_format_capture-Sound f = format_from-Sound 12 f 0

  pub first_format-Sound : (fs : List ℕ) → Sound (first_format env fs)
  unfolding first_format
  first_format-Sound [] s log w = w
  first_format-Sound (f ∷ fs) s log w =
      after-Safe (get_format_capture env f s log) _ (get_format_capture-Sound f s log w)
        (λ err t l v. elim (Bool-cases (is_zero err)) [
          | inl e ↦ rw e v
          | inr e ↦ rw e (first_format-Sound fs t l v)
        ])

  try_format-Sound : (o : Option ℕ) (size : Size) → Sound (try_format env o size)
  unfolding try_format
  try_format-Sound none size s log w = w
  try_format-Sound (some f) size s log w =
      elim (Bool-cases (
        is_neg (
          env.calls.status
            (log ++ (device (ioctl s.handle (try_fmt f size.width size.height)) ∷ []))))) [
              | inl e ↦ rw e w
              | inr e ↦ rw e w
            ]

  pub try_fmt_size-Sound : (size : Size) → Sound (try_fmt_size env size)
  unfolding try_fmt_size
  try_fmt_size-Sound size s log w =
      after-Safe (first_format env (nv21 ∷ yuyv ∷ nv12 ∷ []) s log) _
        (first_format-Sound (nv21 ∷ yuyv ∷ nv12 ∷ []) s log w) (λ o. try_format-Sound o size)

  set_size-Sound : Sound (set_size env)
  unfolding set_size
  set_size-Sound s log w =
      let size : Size = record { width = s.video_width; height = s.video_height } in
      after-Safe (try_fmt_size env size s log) _ (try_fmt_size-Sound size s log w) (λ tried t l v.
        let asked =
          l
          ++ (device
                (ioctl s.handle (set_fmt (to_word s.pixel_format) tried.1.width tried.1.height))
              ∷ []) in
        elim (Bool-cases (is_neg (env.calls.status asked))) [ inl e ↦ rw e w | inr e ↦ rw e w ])

  with_format-Sound : (o : Option ℕ) → Sound (with_format env o)
  unfolding with_format
  with_format-Sound none s log w = w
  with_format-Sound (some f) s log w = set_size-Sound (record s { pixel_format = pos f }) log w

  pub set_video_params-Sound : Sound (set_video_params env)
  unfolding set_video_params
  set_video_params-Sound s log w = elim (Bool-cases (is_neg s.pixel_format)) [
    | inl e ↦ rw e (
        after-Safe (first_format env (nv21 ∷ nv12 ∷ yuyv ∷ []) s log) _
          (first_format-Sound (nv21 ∷ nv12 ∷ yuyv ∷ []) s log w) with_format-Sound)
    | inr e ↦ rw e (set_size-Sound s log w)
  ]

  pub check_capability-Sound : Sound (check_capability env)
  unfolding check_capability
  check_capability-Sound s log w =
      let asked = log ++ (device (ioctl s.handle query_cap) ∷ []) in
      elim (Bool-cases (is_neg (env.calls.status asked))) [
        | inl e ↦ rw e w
        | inr e ↦ elim (Bool-cases (env.capabilities asked % 2 == 0)) [
          | inl f ↦ rw (e, f) w
          | inr f ↦ elim (Bool-cases (env.capabilities asked / 2 ^ 26 % 2 == 0)) [
            | inl g ↦ rw (e, f, g) w
            | inr g ↦ rw (e, f, g) w
          ]
        ]
      ]

  pub start_streaming-Sound : Sound (start_streaming env)
  unfolding start_streaming
  start_streaming-Sound s log w =
      elim (Bool-cases
        (is_neg (env.calls.status (log ++ (device (ioctl s.handle stream_on) ∷ []))))) [
          | inl e ↦ rw e w
          | inr e ↦ rw e w
        ]

  pub stop_streaming-Sound : Sound (stop_streaming env)
  unfolding stop_streaming
  stop_streaming-Sound s log w =
      elim (Bool-cases
        (is_neg (env.calls.status (log ++ (device (ioctl s.handle stream_off) ∷ []))))) [
          | inl e ↦ rw e w
          | inr e ↦ rw e w
        ]

  pub req_buffers-Sound : ((l : Trace) → env.granted l ≤ 5) → Sound (req_buffers env)
  unfolding req_buffers
  req_buffers-Sound few s log w =
      let asked = log ++ (device (ioctl s.handle (req_bufs 5)) ∷ []) in
      elim (Bool-cases (is_neg (env.calls.status asked))) [
        | inl e ↦ rw e (w.0, omega arith)
        | inr e ↦ rw e (w.0, few_rounds (env.granted asked) (few asked))
      ]

  pub query_from-Sound : (left i : ℕ) → left + i ≤ 5 → Sound (query_from env left i)
  unfolding query_from store_mapping
  query_from-Sound zero i fits s log w = w
  query_from-Sound (suc left) i fits s log w =
      let asked = log ++ (device (ioctl s.handle (query_buf i)) ∷ []) in
      let mapped =
        asked ++ (device (map_memory s.handle (env.length asked) (env.offset asked)) ∷ []) in
      let queued = mapped ++ (device (ioctl s.handle (queue_buf i)) ∷ []) in
      let fits' : left + suc i ≤ 5 = omega (arith, fits) in
      let place = lt→ltb i (length s.mem) (omega (arith, w.0)) in
      let stored : length (set s.mem i (env.calls.address mapped)) ≡ 5 =
        length-set s.mem i (env.calls.address mapped) ∙ w.0 in
      elim (Bool-cases (is_neg (env.calls.status asked))) [
        | inl e ↦ rw e w
        | inr e ↦ elim (Bool-cases (env.calls.address mapped == map_failed)) [
          | inl f ↦ rw (e, place, f) (stored, w.1)
          | inr f ↦ elim (Bool-cases (is_neg (env.calls.status queued))) [
            | inl g ↦ rw (e, place, f, g) (stored, w.1)
            | inr g ↦ rw (e, place, f, g) (query_from-Sound left (suc i) fits' _ _ (stored, w.1))
          ]
        ]
      ]
