-- ===== src/Camera/Capture/Steps.antt =====
-- `InitCamera` and `DeInitCamera` in a well-formed camera (Media/Camera/old/CameraHardware.cpp).
use greatone.Base.{
  ℕ, zero, suc, ◌+◌, ◌≤◌, ◌≡◌, refl, false, not, ◌&&◌, Option, none, some, [], ◌∷◌, ◌++◌, ℤ, is_neg,
  if◌then◌else◌, get_elem?, get_elem?-below, Bool-cases, inl, inr, arith,
}
use greatone.World.{device, ioctl, s_input, open_device, Trace, Prog, ret, ◌>>=◌}
use greatone.CommonThread.{is_zero}
use greatone.Camera.{DeviceEnv, CameraHardware}
use greatone.Camera.Format.{is_minus_one, try_fmt_size, Size, set_video_params}
use greatone.Camera.Buffers.{
  rounds_of, check_capability, set_capture_params, req_buffers, query_buffers, start_streaming,
  stop_streaming, unmap_entry, unmap_from, unmap_buffers, v4l2_init, open_camera_dev,
  close_camera_dev,
}
use greatone.Camera.Capture.{init_camera, deinit_camera}
use greatone.Camera.Capture.WellFormed.{
  WellFormed, Safe, Sound, after-Safe, try_fmt_size-Sound, set_video_params-Sound,
  check_capability-Sound, start_streaming-Sound, stop_streaming-Sound, req_buffers-Sound,
  query_from-Sound,
}

module _ (env : DeviceEnv) where
  query_buffers-Sound : Sound (query_buffers env)
  unfolding query_buffers
  query_buffers-Sound s log w =
      query_from-Sound env (rounds_of s.buffer_count) 0 (omega (arith, w.1)) s log w

  unmap_entry-Sound : (a : ℕ) (o : Option ℕ) → o ≡ some a → Sound (unmap_entry env o)
  unfolding unmap_entry
  unmap_entry-Sound a none h s log w = cc
  unmap_entry-Sound a (some b) h s log w = w

  unmap_from-Sound : (left i : ℕ) → left + i ≤ 5 → Sound (unmap_from env left i)
  unfolding unmap_from
  unmap_from-Sound zero i fits s log w = w
  unmap_from-Sound (suc left) i fits s log w =
      let fits' : left + suc i ≤ 5 = omega (arith, fits) in
      let (a, at) = get_elem?-below s.mem i (omega (arith, w.0)) in
      after-Safe (unmap_entry env (get_elem? s.mem i) s log) _
        (unmap_entry-Sound a (get_elem? s.mem i) at s log w)
        (λ err t l v. elim (Bool-cases (is_neg err)) [
          | inl e ↦ rw e v
          | inr e ↦ rw e (unmap_from-Sound left (suc i) fits' t l v)
        ])

  unmap_buffers-Sound : Sound (unmap_buffers env)
  unfolding unmap_buffers
  unmap_buffers-Sound s log w =
      unmap_from-Sound (rounds_of s.buffer_count) 0 (omega (arith, w.1)) s log w

  or_unknown-Sound :
      (step next : Prog CameraHardware ℤ)
      → Sound step
      → Sound next
      → Sound (step >>= λ err. if is_neg err then ret env.unknown_error else next)
  or_unknown-Sound step next h then_ s log w =
      after-Safe (step s log) _ (h s log w) (λ err t l v. elim (Bool-cases (is_neg err)) [
        | inl e ↦ rw e v
        | inr e ↦ rw e (then_ t l v)
      ])

  v4l2_init-Sound : ((l : Trace) → env.granted l ≤ 5) → Sound (v4l2_init env)
  unfolding v4l2_init
  v4l2_init-Sound few s log w =
      let asked = log ++ (device (ioctl s.handle s_input) ∷ []) in
      elim (Bool-cases (is_minus_one (env.calls.status asked))) [
        | inl e ↦ rw e w
        | inr e ↦ rw e (
            after-Safe (check_capability env s asked) _ (check_capability-Sound env s asked w) (λ _.
              or_unknown-Sound (set_capture_params env false) _ (λ s log w. w)
                (or_unknown-Sound (set_video_params env) _ (set_video_params-Sound env) (
                  or_unknown-Sound (req_buffers env) _ (req_buffers-Sound env few) (
                    or_unknown-Sound (query_buffers env) _ query_buffers-Sound (
                      or_unknown-Sound (start_streaming env) _ (start_streaming-Sound env)
                        (λ s log w. w)))))))
      ]

  open_camera_dev-Sound :
      (id : ℤ) (s : CameraHardware) (log : Trace)
      → s.device_id ≡ some id
      → WellFormed s
      → Safe (open_camera_dev env s log)
  unfolding open_camera_dev
  open_camera_dev-Sound id s log known w =
      let asked = log ++ (device (open_device (if is_zero id then 0 else 1)) ∷ []) in
      elim (Bool-cases (is_minus_one (env.calls.status asked))) [
        | inl e ↦ rw (known, e) w
        | inr e ↦ rw (known, e) w
      ]

  close_camera_dev-Sound : Sound (close_camera_dev env)
  unfolding close_camera_dev
  close_camera_dev-Sound s log w =
      after-Safe (stop_streaming env s log) _ (stop_streaming-Sound env s log w) (λ _ t l v.
        after-Safe (unmap_buffers env t l) _ (unmap_buffers-Sound t l v)
          (λ _ u m x. elim (Bool-cases (is_zero u.handle)) [ inl e ↦ rw e x | inr e ↦ rw e x ]))

  pub init_camera-Sound :
      (width height id : ℤ)
      → ((l : Trace) → env.granted l ≤ 5)
      → Sound (init_camera env width height id)
  unfolding init_camera
  init_camera-Sound width height id few s log w =
      let u : CameraHardware = record s {
        sleep_time = some 33333;
        device_id = some id;
        check_init = false;
        video_width = width;
        video_height = height;
      } in
      let size : Size = record { width = width; height = height } in
      elim (Bool-cases s.check_init) [
        | inl e ↦ rw e w
        | inr e ↦ rw e (
            after-Safe (open_camera_dev env u log) _ (open_camera_dev-Sound id u log refl w)
              (λ opened t l v. elim (Bool-cases (is_zero opened)) [
                | inr f ↦ rw f v
                | inl f ↦ rw f (
                    after-Safe (try_fmt_size env size t l) _ (try_fmt_size-Sound env size t l v)
                      (λ tried p m x. elim (Bool-cases (is_zero tried.0)) [
                        | inr g ↦ rw g x
                        | inl g ↦ rw g (
                            after-Safe (v4l2_init env p m) _ (v4l2_init-Sound few p m x)
                              (λ result q n y.
                                elim (Bool-cases (is_neg result && not (is_zero result))) [
                                  | inl h ↦ rw h y
                                  | inr h ↦ rw h y
                                ]))
                      ]))
              ]))
      ]

  pub deinit_camera-Sound : Sound (deinit_camera env)
  unfolding deinit_camera
  deinit_camera-Sound s log w =
      after-Safe (close_camera_dev env s log) _ (close_camera_dev-Sound s log w) (λ _ t l v. v)
