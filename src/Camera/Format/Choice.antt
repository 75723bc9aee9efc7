-- ===== src/Camera/Format/Choice.antt =====
-- The formats that `getFormatCapture` finds (Media/Camera/old/CameraHardware.cpp).
use greatone.Base.{
  ℕ, zero, suc, ◌≡◌, refl, Bool, true, false, Option, none, some, List, [], ◌∷◌, ◌++◌, ℤ, pos,
  negsuc, ◌==◌, if◌then◌else◌, take, drop, get_elem?, Bool-cases, inl, inr,
}
use greatone.World.{device, ioctl, enum_fmt, Trace, done, Prog}
use greatone.Camera.{DeviceEnv, CameraHardware}
use greatone.Camera.Format.{is_minus_one, format_from, get_format_capture, first_format}

abbrev pub elem : ℕ → List ℕ → Bool
elem f [] = false
elem f (x ∷ xs) = if x == f then true else elem f xs

-- The first of some formats that is in a list.
abbrev pub first_in : (wanted listed : List ℕ) → Option ℕ
first_in [] listed = none
first_in (f ∷ wanted) listed = if elem f listed then some f else first_in wanted listed

abbrev verdict : Bool → ℤ
verdict found = if found then pos 0 else negsuc 0

drop-none : (i : ℕ) (fs : List ℕ) → get_elem? fs i ≡ none → drop i fs ≡ []
drop-none zero [] e = refl
drop-none (suc i) [] e = refl
drop-none zero (x ∷ fs) e = cc
drop-none (suc i) (x ∷ fs) e = drop-none i fs e

drop-some : (i f : ℕ) (fs : List ℕ) → get_elem? fs i ≡ some f → drop i fs ≡ f ∷ drop (suc i) fs
drop-some i f [] e = cc
drop-some zero f (x ∷ fs) e = cc
drop-some (suc i) f (x ∷ fs) e = drop-some i f fs e

module _ (env : DeviceEnv) where
  -- What the device answers when it is asked for a format that is there, and for one behind the last.
  abbrev pub Answers : Option ℕ → (asked : Trace) → Type 0
  Answers none asked = is_minus_one (env.calls.status asked) ≡ true
  Answers (some f) asked =
      (is_minus_one (env.calls.status asked) ≡ false) × (env.pixel_format asked ≡ f)

  -- The device lists these formats, at any time.
  abbrev pub Lists : List ℕ → Type 0
  Lists fs =
      (log : Trace) (h : ℤ) (i : ℕ)
      → Answers (get_elem? fs i) (log ++ (device (ioctl h (enum_fmt i)) ∷ []))

  -- A program that leaves the camera as it is.
  abbrev pub Returns : {A : Type 0} → Prog CameraHardware A → A → CameraHardware → Trace → Type 0
  Returns p a s log = (log' : Trace) × (p s log ≡ done a s log')

  format_from-Returns :
      (fs : List ℕ) (left f i : ℕ) (s : CameraHardware) (log : Trace)
      → Lists fs
      → Returns (format_from env left f i) (verdict (elem f (take left (drop i fs)))) s log
  unfolding format_from
  format_from-Returns fs zero f i s log lists = (log, refl)
  format_from-Returns fs (suc left) f i s log lists =
      go (get_elem? fs i) refl (lists log s.handle i) (
        format_from-Returns fs left f (suc i) s (log ++ (device (ioctl s.handle (enum_fmt i)) ∷ []))
          lists)
    where
      asked : Trace
      asked = log ++ (device (ioctl s.handle (enum_fmt i)) ∷ [])

      go :
          (o : Option ℕ)
          → get_elem? fs i ≡ o
          → Answers o (log ++ (device (ioctl s.handle (enum_fmt i)) ∷ []))
          → Returns
              (format_from env left f (suc i))
              (verdict (elem f (take left (drop (suc i) fs))))
              s
              (log ++ (device (ioctl s.handle (enum_fmt i)) ∷ []))
          → Returns
              (format_from env (suc left) f i)
              (verdict (elem f (take (suc left) (drop i fs))))
              s
              log
      go none at ends rest = (asked, rw (ends, drop-none i fs at) refl)
      go (some x) at (more, same) rest = elim (Bool-cases (x == f)) [
        | inl found ↦ (asked, rw (more, same, drop-some i x fs at, found) refl)
        | inr other ↦ (rest.0, rw (more, same, drop-some i x fs at, other) rest.1)
      ]

  get_format_capture-Returns :
      (fs : List ℕ) (f : ℕ) (s : CameraHardware) (log : Trace)
      → Lists fs
      → Returns (get_format_capture env f) (verdict (elem f (take 12 fs))) s log
  unfolding get_format_capture
  get_format_capture-Returns fs f = format_from-Returns fs 12 f 0

  -- On a device that lists some formats, the formats that are wanted are tried in order, and the
  -- first one among the first twelve that the device lists is chosen, or none if there is none; no
  -- search changes the camera.
  pub first_format-Returns :
      (fs wanted : List ℕ) (s : CameraHardware) (log : Trace)
      → Lists fs
      → Returns (first_format env wanted) (first_in wanted (take 12 fs)) s log
  unfolding first_format
  first_format-Returns fs [] s log lists = (log, refl)
  first_format-Returns fs (f ∷ wanted) s log lists =
      let tried = get_format_capture-Returns fs f s log lists in
      let rest = first_format-Returns fs wanted s tried.0 lists in
      elim (Bool-cases (elem f (take 12 fs))) [
        | inl found ↦ (tried.0, rw (tried.1, found) refl)
        | inr missing ↦ (rest.0, rw (tried.1, missing) rest.1)
      ]
