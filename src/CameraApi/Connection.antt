-- ===== src/CameraApi/Connection.antt =====
-- The connection to the camera service that Media/Camera/CameraApi.cpp keeps.
use greatone.Base.{
  ℕ, ℤ, ◌≡◌, refl, Bool, true, false, not, ◌&&◌, Option, none, some, [], ◌∷◌, ◌++◌, pos, ◌==◌,
  if◌then◌else◌, Bool-cases, inl, inr,
}
use greatone.World.{
  Call, service, connect_camera, disconnect_camera, video_frame, ServiceCall, get_status, Trace,
  Outcome, done, crash, after, ret,
}
use greatone.World.History.{replay, replay-append}
use greatone.CommonThread.{is_zero}
use greatone.CameraApi.{
  ServiceEnv, JniCameraListen, new, CameraEntry, setup, release, stop, parameters, preview,
  orientation, post, call_service, listen_setup, camera_release, set_camera_parameters,
  start_preview, start_preview_4, stop_preview, set_display_orientation, show_posted, post_data,
  enter_camera,
}

module _ (env : ServiceEnv) where
  -- Whether a camera is connected; `none` once a camera was connected while one was, or a camera
  -- was called or disconnected while none was.
  abbrev service_step : Option Bool → Trace → ServiceCall → Option Bool
  service_step none log c = none
  service_step (some b) log (connect_camera id) =
      if b then none else some (not (env.calls.address log == 0))
  service_step (some b) log disconnect_camera = if b then some false else none
  service_step (some b) log (video_frame base size) = some b
  service_step (some b) log c = if b then some true else none

  abbrev connection_step : Option Bool → Trace → Call → Option Bool
  connection_step b log (service c) = service_step b log c
  connection_step b log _ = b

  abbrev pub connection : Trace → Option Bool
  connection log = replay connection_step (some false) [] log

  connection-append :
      (log : Trace) (c : Call)
      → connection (log ++ (c ∷ [])) ≡ connection_step (connection log) (log ++ (c ∷ [])) c
  connection-append = replay-append connection_step (some false) []

  -- A context has a connected camera, and without a context none is connected.
  abbrev pub Connected : Option JniCameraListen → Trace → Type 0
  Connected none log = connection log ≡ some false
  Connected (some s) log = (s.camera ≡ true) × (connection log ≡ some true)

  abbrev pub Keeps : {A : Type 0} → Outcome (Option JniCameraListen) A → Type 0
  Keeps (done r s log) = Connected s log
  Keeps crash = ⊥

  abbrev pub NeverFails : Type 0
  NeverFails =
      (log : Trace) (id : ℤ)
      → (env.calls.address (log ++ (service (connect_camera id) ∷ [])) == 0) ≡ false

  setup-Keeps :
      (four has_callback : Bool) (id : ℤ) (o : Option JniCameraListen) (log : Trace)
      → NeverFails
      → Connected o log
      → Keeps (enter_camera env four (setup has_callback id) o log)
  unfolding enter_camera listen_setup new
  setup-Keeps four has_callback id none log never h =
      let linked = log ++ (service (connect_camera id) ∷ []) in
      elim (Bool-cases (is_zero (env.calls.status (linked ++ (service get_status ∷ []))))) [
        | inl up ↦ rw (never log id, up) (refl, simp (connection-append, h, never))
        | inr down ↦ rw (never log id, down) (refl, simp (connection-append, h, never))
      ]
  setup-Keeps four has_callback id (some s) log never (there, h) =
      elim (Bool-cases (is_zero (env.calls.status (log ++ (service get_status ∷ []))))) [
        | inl up ↦ rw (there, up) (refl, simp (connection-append, h))
        | inr down ↦ rw (there, down) (refl, simp (connection-append, h))
      ]

  preview-Keeps :
      (four surface : Bool) (o : Option JniCameraListen) (log : Trace)
      → Connected o log
      → Keeps (enter_camera env four (preview surface) o log)
  unfolding enter_camera start_preview start_preview_4 call_service
  preview-Keeps true surface none log h = h
  preview-Keeps false surface none log h = h
  preview-Keeps true true (some s) log (there, h) = rw there (refl, simp (connection-append, h))
  preview-Keeps true false (some s) log (there, h) = rw there (refl, h)
  preview-Keeps false true (some s) log (there, h) = rw there (refl, simp (connection-append, h))
  preview-Keeps false false (some s) log (there, h) = rw there (refl, simp (connection-append, h))

  abbrev Stays : {A : Type 0} → Outcome JniCameraListen A → Type 0
  Stays (done r s log) = Connected (some s) log
  Stays crash = ⊥

  posted :
      (p : Outcome JniCameraListen (Unit {0}))
      → Stays p
      → Keeps (
          after
            (elim p [ done a t log' ↦ done tt (some t) log' | crash ↦ crash ])
            (λ _. ret (pos 0)))
  posted (done r s log) h = h
  posted crash h = h

  post_data-Stays :
      (base : ℕ) (s : JniCameraListen) (log : Trace)
      → Connected (some s) log
      → Stays (post_data env true base s log)
  unfolding post_data show_posted call_service
  post_data-Stays base s log (there, h) = elim (Bool-cases (not (base == 0) && s.has_callback)) [
    | inl shown ↦ rw (shown, there) (refl, simp (connection-append, h))
    | inr hidden ↦ rw (hidden, there) (refl, simp (connection-append, h))
  ]

  post-Keeps :
      (four present : Bool) (base : ℕ) (o : Option JniCameraListen) (log : Trace)
      → Connected o log
      → Keeps (enter_camera env four (post present base) o log)
  unfolding enter_camera post_data
  post-Keeps four present base none log h = h
  post-Keeps four false base (some s) log h = posted (done tt s log) h
  post-Keeps four true base (some s) log h =
      posted (post_data env true base s log) (post_data-Stays base s log h)

  pub enter_camera-Keeps :
      (four : Bool) (e : CameraEntry) (o : Option JniCameraListen) (log : Trace)
      → NeverFails
      → Connected o log
      → Keeps (enter_camera env four e o log)
  unfolding enter_camera camera_release stop_preview set_display_orientation set_camera_parameters
      call_service
  enter_camera-Keeps four (setup has_callback id) o log never h =
      setup-Keeps four has_callback id o log never h
  enter_camera-Keeps four (preview surface) o log never h = preview-Keeps four surface o log h
  enter_camera-Keeps four (post present base) o log never h = post-Keeps four present base o log h
  enter_camera-Keeps four release none log never h = h
  enter_camera-Keeps four release (some s) log never (there, h) =
      rw there (simp (connection-append, h))
  enter_camera-Keeps four (parameters params) none log never h = h
  enter_camera-Keeps four (parameters none) (some s) log never h = h
  enter_camera-Keeps four (parameters (some params)) (some s) log never (there, h) =
      rw there (refl, simp (connection-append, h))
  enter_camera-Keeps four stop none log never h = h
  enter_camera-Keeps four stop (some s) log never (there, h) =
      rw there (refl, simp (connection-append, h))
  enter_camera-Keeps four (orientation value) none log never h = h
  enter_camera-Keeps four (orientation value) (some s) log never (there, h) =
      rw there (refl, simp (connection-append, h))
