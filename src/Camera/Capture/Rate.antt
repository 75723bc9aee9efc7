-- ===== src/Camera/Capture/Rate.antt =====
-- The frame rate of Media/Camera/old/BaseCamera.cpp.
use greatone.Base.{
  ℕ, zero, suc, ◌/◌, ◌<◌, ◌≤◌, ◌≡◌, refl, sym, Bool, true, false, pos, ◌==◌, ◌&&◌, not, lt→ltb,
  arith, some, ==_iff, Bool-cases, inl, inr,
}
use greatone.World.{Trace, done, ◌>>◌}
use greatone.Camera.{CameraHardware}
use greatone.Camera.Capture.{set_frame_rate, get_frame_rate}

-- Whether the time between frames is above 0 and gives the rate back, for a rate, and for all rates
-- from one down to 1.
abbrev gives_back : (rate : ℕ) → Bool
gives_back rate = not (1000000 / rate == 0) && (1000000 / (1000000 / rate) == rate)

abbrev give_back : (rate : ℕ) → Bool
give_back zero = true
give_back (suc rate) = gives_back (suc rate) && give_back rate

and-both : (a b : Bool) → (a && b) ≡ true → (a ≡ true) × (b ≡ true)
and-both true true h = (refl, refl)
and-both true false h = (refl, h)
and-both false true h = (h, refl)
and-both false false h = (h, h)

below_top : (rate top : ℕ) → (rate == suc top) ≡ false → rate ≤ suc top → rate ≤ top
below_top rate top other high = ground arith

not-true : (b : Bool) → not b ≡ true → b ≡ false
not-true true h = sym h
not-true false h = refl

give_back-each :
    (top rate : ℕ) → give_back top ≡ true → 0 < rate → rate ≤ top → gives_back rate ≡ true
give_back-each zero rate h low high = absurd (omega arith)
give_back-each (suc top) rate h low high =
    let both = and-both (gives_back (suc top)) (give_back top) h in
    elim (Bool-cases (rate == suc top)) [
      | inl same ↦ rw ((==_iff rate (suc top)).0 same) both.0
      | inr other ↦ give_back-each top rate both.1 low (below_top rate top other high)
    ]

all_rates : give_back 49 ≡ true
all_rates = refl

-- A frame rate above 0 and below 50 that is set is the one that is read back, although only the
-- time between frames, in whole microseconds, is kept; and nothing else changes.
pub get-set_frame_rate :
    (rate : ℕ) (s : CameraHardware) (log : Trace)
    → 0 < rate
    → rate < 50
    → (set_frame_rate (pos rate) >> get_frame_rate) s log
      ≡ done rate (record s { base_sleep_time = some (1000000 / rate) }) log
unfolding set_frame_rate get_frame_rate
get-set_frame_rate rate s log low high =
    let e =
      and-both (not (1000000 / rate == 0)) (1000000 / (1000000 / rate) == rate)
        (give_back-each 49 rate all_rates low (omega arith)) in
    rw
      (
        lt→ltb 0 rate low,
        lt→ltb rate 50 high,
        not-true (1000000 / rate == 0) e.0,
        (==_iff (1000000 / (1000000 / rate)) rate).0 e.1,
      )
      refl
