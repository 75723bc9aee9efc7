-- ===== src/CodecSender/Life.antt =====
-- The life of a CodecSender.
use greatone.Base.{
  ℕ, ◌≡◌, ◌≢◌, refl, Bool, true, false, ℤ, [], ◌∷◌, ◌++◌, none, some, is_neg, Bool-cases, inl, inr,
  ◌==◌, ==_iff,
}
use greatone.World.{
  Env, Prog, Outcome, done, crash, ◌>>◌, after, Trace, session, create, codec, codec_create, camera,
  camera_setup, Symbol, system, dlsym,
}
use greatone.CommonThread.{is_zero, part_done}
use greatone.Loader as Loader
use greatone.Loader.{Lib, release_lib}
use greatone.Loader.Laws.{Callable, load_camera_lib-Callable}
use greatone.RtpSender.Defs as Rtp
use greatone.RtpSender.Defs.{RtpSender, set_defaults}
use greatone.CodecSender.{
  CodecSender, new, create_codec, set_up_camera, create_encoder, de_init, is_callable, call_camera,
  ask_camera,
}

-- `CreateCodec`, then `DeInit`.
abbrev pub life :
    Env → (sdk : ℕ) (surface : Bool) (flags port camera_id : ℤ) → Prog CodecSender Bool
life env sdk surface flags port camera_id =
    create_codec env sdk surface flags port camera_id >> de_init

abbrev pub Ended : Outcome CodecSender Bool → Type 0
Ended (done r s log) = (r ≡ true) × (s.sender ≡ none) × (s.camera_lib.handle ≡ 0)
Ended crash = ⊥

abbrev state : Bool → RtpSender → Lib → CodecSender
state running x lib = record { running = running; sender = some x; camera_lib = lib }

-- `DeInit` of a sender that was created, whatever came of it.
de_init-Ended :
    (running : Bool) (x : RtpSender) (lib : Lib) (log : Trace)
    → is_callable lib 1 ≡ true
    → Ended (de_init (state running x lib) log)
unfolding de_init call_camera release_lib Rtp.deinit_session Rtp.disconnect
de_init-Ended running x lib log can = elim (Bool-cases (lib.handle == 0)) [
  | inl shut ↦ elim (Bool-cases x.inited) [
    | inl up ↦ elim (Bool-cases x.connected) [
      | inl linked ↦ rw (can, shut, up, linked) (refl, refl, (==_iff lib.handle 0).0 shut)
      | inr apart ↦ rw (can, shut, up, apart) (refl, refl, (==_iff lib.handle 0).0 shut)
    ]
    | inr down ↦ rw (can, shut, down) (refl, refl, (==_iff lib.handle 0).0 shut)
  ]
  | inr loaded ↦ elim (Bool-cases x.inited) [
    | inl up ↦ elim (Bool-cases x.connected) [
      | inl linked ↦ rw (can, loaded, up, linked) (refl, refl, refl)
      | inr apart ↦ rw (can, loaded, up, apart) (refl, refl, refl)
    ]
    | inr down ↦ rw (can, loaded, down) (refl, refl, refl)
  ]
]

set_up-Ended :
    (env : Env) (surface : Bool) (flags camera_id : ℤ) (loaded running : Bool) (x : RtpSender)
    (lib : Lib) (log : Trace)
    → is_callable lib 0 ≡ true
    → is_callable lib 1 ≡ true
    → Ended
        ((set_up_camera env surface flags camera_id loaded >> de_init) (state running x lib) log)
unfolding set_up_camera ask_camera create_encoder
set_up-Ended env surface flags camera_id false running x lib log can0 can =
    de_init-Ended running x lib log can
set_up-Ended env surface flags camera_id true running x lib log can0 can =
    let before = log ++ (camera (camera_setup camera_id) ∷ []) in
    elim (Bool-cases (is_neg (env.status before))) [
      | inl failed ↦ rw (can0, failed) (de_init-Ended running x lib _ can)
      | inr ready ↦
          elim (Bool-cases
            (is_zero (env.status (before ++ (codec (codec_create flags surface true) ∷ []))))) [
              | inl failed ↦ rw (can0, ready, failed) (de_init-Ended running x lib _ can)
              | inr made ↦ rw (can0, ready, made) (de_init-Ended running x lib _ can)
            ]
    ]

loaded-Ended :
    (env : Env) (surface : Bool) (flags camera_id : ℤ) (running : Bool) (x : RtpSender) (lib : Lib)
    (o : Outcome Lib Bool)
    → Callable o
    → Ended (
        after
          (after
            (part_done (λ t l. record t { camera_lib = l }) (state running x lib) o)
            (set_up_camera env surface flags camera_id))
          (λ _. de_init))
loaded-Ended env surface flags camera_id running x lib (done r t l) (can0, can) =
    set_up-Ended env surface flags camera_id r running x t l (rw can0 refl) (rw can refl)
loaded-Ended env surface flags camera_id running x lib crash h = absurd h

-- A sender after `initSession`.
abbrev fresh : ℤ → Bool → RtpSender
fresh port inited = record Rtp.new { local_port = port; inited = inited }

-- When the session can be created, no camera library is open before, and every function that is
-- looked up is found, then, whichever of the later steps of `CreateCodec` fails, `DeInit` after it
-- makes no call through NULL and leaves no RtpSender and no open camera library behind.
pub create-de_init-Ended :
    (env : Env) (sdk : ℕ) (surface : Bool) (flags port camera_id : ℤ) (lib : Lib) (log : Trace)
    → is_neg (env.status (log ++ (session (create 8000 true port) ∷ []))) ≡ false
    → lib.handle ≡ 0
    → ((before : Trace) (handle : ℕ) (symbol : Symbol)
        → env.address (before ++ (system (dlsym handle symbol) ∷ [])) ≢ 0)
    → Ended (life env sdk surface flags port camera_id (new lib) log)
unfolding create_codec new Rtp.init_session Rtp.new set_defaults
create-de_init-Ended env sdk surface flags port camera_id lib log made shut found = rw made (
    loaded-Ended env surface flags camera_id false (fresh port true) lib _
      (load_camera_lib-Callable env sdk lib _ shut found))

-- When the session cannot be created and the camera library was never loaded, `DeInit` after
-- `CreateCodec` crashes: it calls `CameraRelease` through a pointer that was never set.
pub create-de_init-crash :
    (env : Env) (sdk : ℕ) (surface : Bool) (flags port camera_id : ℤ) (log : Trace)
    → is_neg (env.status (log ++ (session (create 8000 true port) ∷ []))) ≡ true
    → life env sdk surface flags port camera_id (new Loader.new) log ≡ crash
unfolding create_codec new Rtp.init_session Rtp.new set_defaults de_init call_camera Loader.new
create-de_init-crash env sdk surface flags port camera_id log failed = rw failed refl
