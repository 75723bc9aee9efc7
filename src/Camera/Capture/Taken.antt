-- ===== src/Camera/Capture/Taken.antt =====
-- The buffers that the loop takes out (Media/Camera/old/CameraHardware.cpp).
use greatone.Base.{
  ℕ, zero, suc, ◌-◌, ◌%◌, ◌^◌, ◌<◌, ◌≤◌, ◌≡◌, refl, ◌∙◌, ltb, ltb→lt, ltb_false→le, Bool, true,
  false, not, ◌&&◌, ◌||◌, Option, none, some, List, [], ◌∷◌, ◌++◌, ℤ, pos, is_neg, ◌==◌,
  if◌then◌else◌, length, length-append, of_word, Bool-cases, inl, inr, arith, ==_iff,
}
use greatone.World.{
  Call, device, ioctl, dequeue_buf, queue_buf, select_device, sleep, Trace, Outcome, done, crash,
  after,
}
use greatone.World.History.{replay, replay-append}
use greatone.CommonThread.{is_zero}
use greatone.Camera.{DeviceEnv, CameraHardware}
use greatone.Camera.Format.{is_minus_one}
use greatone.Camera.Capture.{
  get_capture_frame, capture_round, film_frame, show_frame, get_preview_frame, is_capturing,
  wait_camera_ready, sleep_own, exceeds_one,
}

abbrev without : ℕ → List ℕ → List ℕ
without i [] = []
without i (j ∷ js) = if i == j then js else j ∷ without i js

length-snoc : (log : Trace) (c : Call) → length (log ++ (c ∷ [])) ≡ suc (length log)
length-snoc log c = omega (arith, length-append log (c ∷ []))

module _ (env : DeviceEnv) where
  -- The buffers that were taken out and not given back (whether or not the device accepts them).
  abbrev take_or_give : List ℕ → Trace → Call → List ℕ
  take_or_give held log (device (ioctl h dequeue_buf)) =
      if is_neg (env.calls.status log) then held else env.index log ∷ held
  take_or_give held log (device (ioctl h (queue_buf i))) = without i held
  take_or_give held log _ = held

  abbrev pub held : Trace → List ℕ
  held log = replay take_or_give [] [] log

  held-append :
      (log : Trace) (c : Call)
      → held (log ++ (c ∷ [])) ≡ take_or_give (held log) (log ++ (c ∷ [])) c
  held-append = replay-append take_or_give [] []

  without_self : (i : ℕ) (js : List ℕ) → without i (i ∷ js) ≡ js
  without_self i js = rw ((==_iff i i).1 refl) refl

  -- A part of the loop that began with such calls: it ends with the same buffers taken out, and
  -- where the loop goes on, with more calls.
  abbrev Grows : Option ℤ → (before after : Trace) → Type 0
  Grows none before after = length before < length after
  Grows (some r) before after = Unit {0}

  abbrev Keeps : (time : ℕ) (log : Trace) → Outcome CameraHardware (Option ℤ) → Type 0
  Keeps time log (done r t log') =
      (held log' ≡ held log)
      × (t.sleep_time ≡ some time)
      × (is_neg t.handle ≡ false)
      × Grows r log log'
  Keeps time log crash = ⊥

  film_frame-Keeps :
      (time : ℕ) (s : CameraHardware) (log : Trace)
      → s.sleep_time ≡ some time
      → is_neg s.handle ≡ false
      → Keeps time log (film_frame env s log)
  unfolding film_frame get_preview_frame show_frame
  film_frame-Keeps time s log slept opened =
      let out = log ++ (device (ioctl s.handle dequeue_buf) ∷ []) in
      elim (Bool-cases (is_neg (env.calls.status out))) [
        | inl failed ↦ rw failed (simp (held-append, failed), slept, opened, tt)
        | inr taken ↦
            elim (Bool-cases (s.has_callback && exceeds_one (of_word (env.length out % 2 ^ 32)))) [
              | inl shown ↦
                  rw (taken, shown)
                    (
                      simp (held-append, taken, without_self),
                      slept,
                      opened,
                      rw (length-snoc, length-snoc, length-snoc) (omega arith),
                    )
              | inr hidden ↦
                  rw (taken, hidden)
                    (
                      simp (held-append, taken, without_self),
                      slept,
                      opened,
                      rw (length-snoc, length-snoc) (omega arith),
                    )
            ]
      ]

  Keeps-later :
      (time : ℕ) (log later : Trace) (o : Outcome CameraHardware (Option ℤ))
      → held later ≡ held log
      → length log ≤ length later
      → Keeps time later o
      → Keeps time log o
  Keeps-later time log later (done none t log') same longer (h, slept, opened, grows) =
      (h ∙ same, slept, opened, omega arith)
  Keeps-later time log later (done (some r) t log') same longer (h, slept, opened, grows) =
      (h ∙ same, slept, opened, tt)
  Keeps-later time log later crash same longer h = h

  capture_round-Keeps :
      (time : ℕ) (s : CameraHardware) (log : Trace)
      → s.sleep_time ≡ some time
      → is_neg s.handle ≡ false
      → Keeps time log (capture_round env s log)
  unfolding capture_round is_capturing wait_camera_ready sleep_own
  capture_round-Keeps time s log slept opened =
      let selected = log ++ (device (select_device s.handle) ∷ []) in
      let waited = selected ++ (device (sleep (pos time)) ∷ []) in
      let answer = env.calls.status selected in
      let later : length log ≤ length waited = rw (length-snoc, length-snoc) (omega arith) in
      elim (Bool-cases (s.capturing && not (env.stopped log))) [
        | inr ended ↦ rw ended (refl, slept, opened, tt)
        | inl runs ↦ elim (Bool-cases (is_minus_one answer || is_zero answer)) [
          | inl not_ready ↦ elim (Bool-cases (s.capturing && not (env.stopped waited))) [
            | inr ended ↦
                rw (runs, opened, not_ready, slept, ended) (simp (held-append), refl, opened, tt)
            | inl still ↦
                rw (runs, opened, not_ready, slept, still) (simp (held-append), refl, opened, tt)
          ]
          | inr ready ↦ elim (Bool-cases (s.capturing && not (env.stopped waited))) [
            | inr ended ↦
                rw (runs, opened, ready, slept, ended) (simp (held-append), refl, opened, tt)
            | inl still ↦
                rw (runs, opened, ready, slept, still)
                  (Keeps-later time log waited
                    (film_frame env (record s { sleep_time = some time }) waited)
                    (simp (held-append)) later
                    (film_frame-Keeps time (record s { sleep_time = some time }) waited refl
                      opened))
          ]
        ]
      ]

  and-false : (b : Bool) → (b && false) ≡ false
  and-false true = refl
  and-false false = refl

  capture_round-stopped :
      (s : CameraHardware) (log : Trace)
      → env.stopped log ≡ true
      → capture_round env s log ≡ done (some (pos 0)) s log
  unfolding capture_round is_capturing
  capture_round-stopped s log ended = rw (ended, and-false s.capturing) refl

  before_stop :
      (n : ℕ) (log : Trace)
      → ((l : Trace) → n ≤ length l → env.stopped l ≡ true)
      → env.stopped log ≡ false
      → length log < n
  before_stop n log stops runs = elim (Bool-cases (ltb (length log) n)) [
    | inl below ↦ ltb→lt (length log) n below
    | inr above ↦ cc (stops log (ltb_false→le (length log) n above))
  ]

  -- How the loop ends: it has a result, and holds the buffers that it held.
  abbrev pub Ends : (log : Trace) → Outcome CameraHardware (Option ℤ) → Type 0
  Ends log (done r t log') = (held log' ≡ held log) × ((result : ℤ) × (r ≡ some result))
  Ends log crash = ⊥

  Ends-later :
      (log later : Trace) (o : Outcome CameraHardware (Option ℤ))
      → held later ≡ held log
      → Ends later o
      → Ends log o
  Ends-later log later (done r t log') same (h, ended) = (h ∙ same, ended)
  Ends-later log later crash same h = h

  -- A loop whose sleep is set and whose device is open, with more fuel than the number of calls
  -- after which `mCapturing` is cleared, ends without a crash, whatever the device answers and
  -- whether or not there is a callback; and each buffer that was taken out was given back.
  pub get_capture_frame-Ends :
      (n time fuel : ℕ) (s : CameraHardware) (log : Trace)
      → ((l : Trace) → n ≤ length l → env.stopped l ≡ true)
      → s.sleep_time ≡ some time
      → is_neg s.handle ≡ false
      → n - length log < fuel
      → Ends log (get_capture_frame env fuel s log)
  unfolding get_capture_frame
  get_capture_frame-Ends n time zero s log stops slept opened enough = absurd (omega arith)
  get_capture_frame-Ends n time (suc fuel) s log stops slept opened enough =
      elim (Bool-cases (env.stopped log)) [
        | inl ended ↦ rw (capture_round-stopped s log ended) (refl, (pos 0, refl))
        | inr runs ↦
            go runs (capture_round env s log) (get_capture_frame-Ends n time fuel)
              (capture_round-Keeps time s log slept opened)
      ]
    where
      go :
          env.stopped log ≡ false
          → (o : Outcome CameraHardware (Option ℤ))
          → ((t : CameraHardware) (l : Trace)
              → ((l : Trace) → n ≤ length l → env.stopped l ≡ true)
              → t.sleep_time ≡ some time
              → is_neg t.handle ≡ false
              → n - length l < fuel
              → Ends l (get_capture_frame env fuel t l))
          → Keeps time log o
          → Ends log (
              after o (λ ended. elim ended [
                | none ↦ get_capture_frame env fuel
                | some result ↦ λ s log. done (some result) s log
              ]))
      go runs (done none t l) next (h, slept', opened', longer) =
          Ends-later log l _ h
            (next t l stops slept' opened' (omega (arith, before_stop n log stops runs)))
      go runs (done (some r) t l) next (h, slept', opened', _) = (h, (r, refl))
      go runs crash next h = h
