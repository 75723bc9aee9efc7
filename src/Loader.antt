-- ===== src/Loader.antt =====
-- The singletons CodecBaseLib (Media/CodecContext.cpp) and CameraLib (Media/CameraContext.cpp), which
-- load the library for a version of Android and look its functions up.
pub mod Laws
use greatone.Base.{ℕ, Bool, true, false, not, List, [], ◌∷◌, pos, ◌==◌, if◌then◌else◌}
use greatone.World.{
  Library, codec_base_so, camera_so, Symbol, test_sym, codec_create_sym, register_buffer_call_sym,
  start_codec_sym, stop_codec_sym, add_buffer_sym, codec_destroy_sym, convert_key_value_sym,
  camera_setup_sym, camera_release_sym, set_camera_parameter_sym, get_camera_parameter_sym,
  start_preview_sym, stop_preview_sym, set_display_orientation_sym, dlopen, dlclose, dlsym, dlerror,
  system, codec, test_add, Call, Env, Prog, crash, ret, ◌>>=◌, ◌>>◌, get, put, tell, ask_address,
}

-- The handle of the library (0 for NULL) and the function pointers, in the order of their lookup.
pub record Lib : Type 0 where
  pub handle : ℕ
  pub functions : List ℕ

-- The constructors. (The function pointers have no value yet.)
unfoldable pub new : Lib
new = record { handle = 0; functions = [] }

-- The number of the library for an SDK version; 0 where the switch opens none.
unfoldable pub library_number : (version : ℕ) → ℕ
library_number version =
    if version == 17
    then 4
    else if version == 21
    then 5
    else if version == 22
    then 5
    else if version == 23
    then 6
    else 0

unfoldable pub codec_symbols : List Symbol
codec_symbols =
    test_sym ∷ codec_create_sym ∷ register_buffer_call_sym ∷ start_codec_sym ∷ stop_codec_sym
    ∷ add_buffer_sym ∷ codec_destroy_sym ∷ convert_key_value_sym ∷ []

unfoldable pub camera_symbols : List Symbol
camera_symbols =
    camera_setup_sym ∷ camera_release_sym ∷ set_camera_parameter_sym ∷ get_camera_parameter_sym
    ∷ start_preview_sym ∷ stop_preview_sym ∷ set_display_orientation_sym ∷ []

-- A call of the first pointer, `testAdd`.
unfoldable pub call_test : List ℕ → Prog Lib (Unit {0})
call_test [] s log = crash
call_test (address ∷ _) s log =
    if address == 0 then crash else tell (codec (test_add (pos 57) (pos 3))) s log

module _ (env : Env) where
  -- The `switch`: it leaves the handle alone where it opens no library.
  unfoldable pub open_library : (Library) → (now : Bool) (number : ℕ) → Prog Lib (Unit {0})
  open_library library now number = if number == 0 then ret tt else do
    s ← get
    handle ← ask_address env (system (dlopen library now))
    put (record s { handle = handle })

  -- The lookups, one after the other.
  unfoldable pub look_up : (handle : ℕ) → List Symbol → Prog Lib (List ℕ)
  look_up handle [] = ret []
  look_up handle (symbol ∷ symbols) = do
    address ← ask_address env (system (dlsym handle symbol))
    addresses ← look_up handle symbols
    ret (address ∷ addresses)

  -- `LoadBaseLib`.
  unfoldable pub load_base_lib : (version : ℕ) → Prog Lib Bool
  unfolding open_library look_up call_test codec_symbols
  load_base_lib version = do
    s ← get
    if not (s.handle == 0) then ret false else do
      open_library (codec_base_so (library_number version)) true (library_number version)
      tell (system dlerror)
      t ← get
      functions ← look_up t.handle codec_symbols
      put (record t { functions = functions })
      err ← ask_address env (system dlerror)
      if not (err == 0) then ret false else do call_test functions; ret (not (t.handle == 0))

  -- `LoadCameraLib`.
  unfoldable pub load_camera_lib : (version : ℕ) → Prog Lib Bool
  unfolding open_library look_up camera_symbols
  load_camera_lib version = do
    s ← get
    if not (s.handle == 0) then ret false else do
      open_library (camera_so (library_number version)) (not (version == 23))
          (library_number version)
      tell (system dlerror)
      t ← get
      functions ← look_up t.handle camera_symbols
      put (record t { functions = functions })
      err ← ask_address env (system dlerror)
      ret (err == 0)

-- `ReleaseLib` of CameraLib, and the destructors.
unfoldable pub release_lib : Prog Lib Bool
release_lib = do
  s ← get
  if s.handle == 0
      then ret true
      else do tell (system (dlclose s.handle)); put (record s { handle = 0 }); ret true
