-- ===== src/Loader/Laws.antt =====
-- What the loading of a library comes to.
use greatone.Base.{
  get_or, ℕ, zero, suc, ◌<◌, sym, ap, ◌∙◌, ◌||◌, ◌≡◌, ◌≢◌, refl, arith, Bool, true, false, not,
  List, [], ◌∷◌, ◌++◌, length, ◌==◌, if◌then◌else◌, Bool-cases, inl, inr, ne→==_false, ==_iff,
}
use greatone.World.{Symbol}
use greatone.World.{ret, ◌>>◌, ◌>>=◌, put, Prog}
use greatone.World.{
  Outcome, done, crash, Trace, Env, Call, system, dlsym, dlerror, dlopen, codec_base_so,
  ask_address,
}
use greatone.World.History.{replay, replay-append}
use greatone.Loader.{
  Lib, library_number, codec_symbols, camera_symbols, open_library, look_up, call_test,
  load_base_lib, load_camera_lib,
}

-- By whether no library was open and whether none is known for the version: a library that was open
-- stays as it is, without a call; otherwise none is open for a version that has none, and for
-- another version every function was looked up.
abbrev pub CameraLoaded : (shut unknown : Bool) → Lib → Trace → Outcome Lib Bool → Type 0
CameraLoaded shut unknown s log crash = ⊥
CameraLoaded false unknown s log (done r t l) = (r ≡ false) × (t ≡ s) × (l ≡ log)
CameraLoaded true false s log (done r t l) = length t.functions ≡ 7
CameraLoaded true true s log (done r t l) = t.handle ≡ 0

-- `LoadCameraLib` always returns. Where a library is open already it returns false, changes nothing
-- and calls nothing; otherwise no library is open after it for a version that has none, and for
-- any other version it has looked up all seven functions.
pub load_camera_lib-CameraLoaded :
    (env : Env) (version : ℕ) (s : Lib) (log : Trace)
    → CameraLoaded
        (s.handle == 0)
        (library_number version == 0)
        s
        log
        (load_camera_lib env version s log)
unfolding load_camera_lib open_library look_up camera_symbols
load_camera_lib-CameraLoaded env version s log = elim (Bool-cases (s.handle == 0)) [
  | inl shut ↦ elim (Bool-cases (library_number version == 0)) [
    | inl unknown ↦ rw (shut, unknown) ((==_iff s.handle 0).0 shut)
    | inr known ↦ rw (shut, known) refl
  ]
  | inr loaded ↦ rw loaded (refl, refl, refl)
]

-- The first two functions of the library are there.
abbrev pub Callable : Outcome Lib Bool → Type 0
Callable crash = ⊥
Callable (done r t l) =
    ((get_or t.functions 0 0 == 0) ≡ false) × ((get_or t.functions 1 0 == 0) ≡ false)

pub load_camera_lib-Callable :
    (env : Env) (version : ℕ) (s : Lib) (log : Trace)
    → s.handle ≡ 0
    → ((before : Trace) (handle : ℕ) (symbol : Symbol)
        → env.address (before ++ (system (dlsym handle symbol) ∷ [])) ≢ 0)
    → Callable (load_camera_lib env version s log)
unfolding load_camera_lib open_library look_up camera_symbols
load_camera_lib-Callable env version s log shut found =
    elim (Bool-cases (library_number version == 0)) [
      | inl unknown ↦
          rw (shut, unknown) (ne→==_false _ 0 (found _ _ _), ne→==_false _ 0 (found _ _ _))
      | inr known ↦ rw (shut, known) (ne→==_false _ 0 (found _ _ _), ne→==_false _ 0 (found _ _ _))
    ]

-- Whether a lookup gave NULL since the last `dlerror`.
abbrev pub pending_step : Env → Bool → Trace → Call → Bool
pending_step env b log (system dlerror) = false
pending_step env b log (system (dlsym handle symbol)) = b || (env.address log == 0)
pending_step env b log _ = b

abbrev pub pending : Env → Trace → Bool
pending env = replay (pending_step env) false []

pending-append :
    (env : Env) (log : Trace) (c : Call)
    → pending env (log ++ (c ∷ [])) ≡ pending_step env (pending env log) (log ++ (c ∷ [])) c
pending-append env = replay-append (pending_step env) false []

-- What `dlerror` is documented to do: it returns a text after such a lookup.
abbrev pub Reports : Env → Type 0
Reports env =
    (log : Trace)
    → pending env log ≡ true
    → (env.address (log ++ (system dlerror ∷ [])) == 0) ≡ false

abbrev pub has_null : List ℕ → Bool
has_null [] = false
has_null (a ∷ others) = (a == 0) || has_null others

-- A run of lookups: one address for each symbol, and something is pending if one is NULL.
abbrev LooksUp : Env → ℕ → List Symbol → Lib → Trace → Type 0
LooksUp env handle symbols s log =
    (addresses : List ℕ) × (log' : Trace) × (look_up env handle symbols s log
      ≡ done addresses s log')
    × (length addresses ≡ length symbols)
    × (pending env log' ≡ (pending env log || has_null addresses))

or_assoc : (a b c : Bool) → ((a || b) || c) ≡ (a || (b || c))
or_assoc true b c = refl
or_assoc false b c = refl

or_false : (a : Bool) → a ≡ (a || false)
or_false true = refl
or_false false = refl

look_up-LooksUp :
    (env : Env) (handle : ℕ) (symbols : List Symbol) (s : Lib) (log : Trace)
    → LooksUp env handle symbols s log
unfolding look_up
look_up-LooksUp env handle [] s log = ([], log, refl, refl, or_false (pending env log))
look_up-LooksUp env handle (symbol ∷ symbols) s log =
    let log1 : Trace = log ++ (system (dlsym handle symbol) ∷ []) in
    let (others, log', ran, long, same) = look_up-LooksUp env handle symbols s log1 in
    (
      env.address log1 ∷ others,
      log',
      rw ran refl,
      ap suc long,
      same
          ∙ ap (λ b. b || has_null others) (pending-append env log (system (dlsym handle symbol)))
          ∙ or_assoc (pending env log) (env.address log1 == 0) (has_null others),
    )

-- All eight functions, none of them NULL.
abbrev pub AllFound : List ℕ → Type 0
AllFound functions = (length functions ≡ 8) × (has_null functions ≡ false)

pub get_or-AllFound :
    (functions : List ℕ) (i : ℕ)
    → i < length functions
    → has_null functions ≡ false
    → (get_or functions i 0 == 0) ≡ false
get_or-AllFound [] i inside found = absurd (omega arith)
get_or-AllFound (a ∷ others) zero inside found = elim (Bool-cases (a == 0)) [
  | inl null_there ↦ let wrong : true ≡ false = rw null_there at found in cc
  | inr there ↦ there
]
get_or-AllFound (a ∷ others) (suc i) inside found =
    get_or-AllFound others i (omega arith) (elim (Bool-cases (a == 0)) [
      | inl null_there ↦ let wrong : true ≡ false = rw null_there at found in cc
      | inr there ↦ rw there at found
    ])

-- By whether no library was open and whether none is known for the version.
abbrev pub BaseLoaded : (shut unknown : Bool) → Lib → Trace → Outcome Lib Bool → Type 0
BaseLoaded shut unknown s log crash = ⊥
BaseLoaded false unknown s log (done r t l) = (r ≡ false) × (t ≡ s) × (l ≡ log)
BaseLoaded true false s log (done r t l) =
    r ≡ true → ((t.handle == 0) ≡ false) × AllFound t.functions
BaseLoaded true true s log (done r t l) = (r ≡ false) × (t.handle ≡ 0)

-- `LoadBaseLib` from the lookups on.
find_all : Env → Lib → Prog Lib Bool
find_all env t = do
  functions ← look_up env t.handle codec_symbols
  put (record t { functions = functions })
  err ← ask_address env (system dlerror)
  if not (err == 0) then ret false else do call_test functions; ret (not (t.handle == 0))

-- It returns, with true only for an open library with all functions, and leaves the handle alone.
abbrev Found : Lib → Outcome Lib Bool → Type 0
Found t crash = ⊥
Found t (done r u l) =
    (r ≡ true → ((u.handle == 0) ≡ false) × AllFound u.functions) × (u.handle ≡ t.handle)

test-Found :
    (no_error : Bool) (t : Lib) (log : Trace) (functions : List ℕ)
    → t.functions ≡ functions
    → length functions ≡ 8
    → (no_error ≡ true → has_null functions ≡ false)
    → Found t (
        (if not no_error then ret false else (call_test functions >> ret (not (t.handle == 0)))) t
          log)
unfolding call_test
test-Found false t log functions same long found = (λ e. cc, refl)
test-Found true t log [] same long found = absurd (omega (arith, long))
test-Found true t log (a ∷ others) same long found = elim (Bool-cases (a == 0)) [
  | inl null_there ↦ let wrong : true ≡ false = rw null_there at (found refl) in cc
  | inr there ↦ elim (Bool-cases (t.handle == 0)) [
    | inl shut ↦ rw (there, shut) (λ e. cc, refl)
    | inr opened ↦ rw (there, opened) (λ e. (refl, rw same (long, found refl)), refl)
  ]
]

none_null : (b n err : Bool) → b ≡ n → (b ≡ true → err ≡ false) → err ≡ true → n ≡ false
none_null b false err same reported e = refl
none_null b true err same reported e = let wrong = sym e ∙ reported same in cc

find_all-Found :
    (env : Env) (t : Lib) (log : Trace)
    → Reports env
    → pending env log ≡ false
    → Found t (find_all env t t log)
unfolding find_all codec_symbols
find_all-Found env t log reports none_pending =
    let (functions, log', ran, long, same) = look_up-LooksUp env t.handle codec_symbols t log in
    rw ran (
      test-Found (env.address (log' ++ (system dlerror ∷ [])) == 0)
        (record t { functions = functions }) (log' ++ (system dlerror ∷ [])) functions refl long
        (λ e.
          none_null (pending env log') (has_null functions) _
            (same ∙ ap (λ b. b || has_null functions) none_pending) (reports log') e))

Found-BaseLoaded :
    (unknown : Bool) (s t : Lib) (log : Trace) (o : Outcome Lib Bool)
    → (unknown ≡ true → t.handle ≡ 0)
    → Found t o
    → BaseLoaded true unknown s log o
Found-BaseLoaded unknown s t log crash none_open h = absurd h
Found-BaseLoaded false s t log (done r u l) none_open (sure, same) = sure
Found-BaseLoaded true s t log (done false u l) none_open (sure, same) =
    (refl, same ∙ none_open refl)
Found-BaseLoaded true s t log (done true u l) none_open (sure, same) =
    let opened = (sure refl).0 in
    let wrong : true ≡ false = rw (same, none_open refl) at opened in cc

-- Where `dlerror` reports a lookup that gave NULL, `LoadBaseLib` always returns, whether the library
-- is there or not: when a library is open already it returns false, changes nothing and calls
-- nothing; otherwise, for a version that has no library, it returns false and none is open, and for
-- any other version it returns true only if a library is open and none of its eight functions is
-- NULL.
pub load_base_lib-BaseLoaded :
    (env : Env) (version : ℕ) (s : Lib) (log : Trace)
    → Reports env
    → BaseLoaded
        (s.handle == 0)
        (library_number version == 0)
        s
        log
        (load_base_lib env version s log)
unfolding load_base_lib open_library find_all
load_base_lib-BaseLoaded env version s log reports = elim (Bool-cases (s.handle == 0)) [
  | inl shut ↦ elim (Bool-cases (library_number version == 0)) [
    | inl unknown ↦
        rw (shut, unknown)
          (Found-BaseLoaded true s s log _ (λ e. (==_iff s.handle 0).0 shut)
            (find_all-Found env s (log ++ (system dlerror ∷ [])) reports
              (pending-append env log (system dlerror))))
    | inr known ↦
        let opening : Trace =
          log ++ (system (dlopen (codec_base_so (library_number version)) true) ∷ []) in
        rw (shut, known)
          (Found-BaseLoaded false s (record s { handle = env.address opening }) log _ (λ e. cc)
            (find_all-Found env (record s { handle = env.address opening })
              (opening ++ (system dlerror ∷ [])) reports
              (pending-append env opening (system dlerror))))
  ]
  | inr loaded ↦ rw loaded (refl, refl, refl)
]
