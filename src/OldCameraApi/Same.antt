-- ===== src/OldCameraApi/Same.antt =====
-- The older camera library and that of Media/Camera/CameraApi.cpp.
use greatone.Base.{ℤ, ◌≡◌, refl, Bool, true, false, none, some, [], ◌∷◌, ◌++◌, ◌==◌, pos}
use greatone.World.{service, connect_camera, Trace, done, crash, ◌>>◌}
use greatone.CameraApi as CameraApi
use greatone.CameraApi.{ServiceEnv, CameraEntry, enter_camera}
use greatone.OldCameraApi.{
  OldEntry, setup, release, stop, parameters, preview, post, new, call_service, camera_setup,
  stop_preview, enter_old,
}

-- The function of the present library of the same name.
abbrev pub as_entry : OldEntry → CameraEntry
as_entry (setup has_callback id) = CameraEntry.setup has_callback id
as_entry release = CameraEntry.release
as_entry stop = CameraEntry.stop
as_entry (parameters params) = CameraEntry.parameters params
as_entry (preview surface) = CameraEntry.preview surface
as_entry (post present base) = CameraEntry.post present base

-- When the service refuses the connection, `StopPreview` of the older library goes through NULL, while
-- that of the present one does nothing.
stop-refused :
    (env : ServiceEnv) (has_callback : Bool) (id : ℤ) (log : Trace)
    → (env.calls.address (log ++ (service (connect_camera id) ∷ [])) == 0) ≡ true
    → ((enter_old env (setup has_callback id) >> enter_old env stop) none log ≡ crash)
      × ((enter_camera env false (CameraEntry.setup has_callback id)
              >> enter_camera env false CameraEntry.stop)
            none log
          ≡ done (pos 0) (some (new has_callback)) (log ++ (service (connect_camera id) ∷ [])))
unfolding enter_old enter_camera camera_setup CameraApi.listen_setup new CameraApi.new stop_preview
    CameraApi.stop_preview call_service CameraApi.call_service
stop-refused env has_callback id log refused = (rw refused refl, rw refused refl)
