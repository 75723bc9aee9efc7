-- ===== src/QueueThread/Steps/Wakes.antt =====
-- When the thread of a QueueThread is woken, and what it finds then.
use mathlib.Core.List.{map-append}
use greatone.Base.{
  ℕ, zero, suc, ◌<◌, ◌≡◌, ◌≢◌, refl, sym, ap, subst, ◌∙◌, ◌⊎◌, inl, inr, Bool, true, false, Option,
  none, some, List, [], ◌∷◌, ◌++◌, ℤ, pos, negsuc, arith, ltb, if◌then◌else◌, take, map, append-nil,
  append_assoc, Bool-cases,
}
use greatone.Queue.Mem.{Ptr}
use greatone.Queue.Links.{Delivery}
use greatone.Queue.Laws.{delivery}
use greatone.QueueThread.Steps.{
  Place, between, in_round, waiting, woken, ended, wake, Move, add, signal, stop, go,
}
use greatone.QueueThread.Steps.Model.{
  Model, model_add, model_signal, model_go, model_steps, then_more, and_then,
}

-- A thread that waits has no buffer that it was not told of: one is there only if a signal is still
-- to come.
abbrev pub Told : Model → Type 0
Told f = f.place ≡ waiting → (f.items ≡ []) ⊎ (0 < f.signals)

-- Where no signal is outstanding, a thread that was woken finds a buffer.
abbrev pub Fed : Model → Type 0
Fed f = (f.signals ≡ 0) × (f.place ≡ woken → f.items ≢ []) × (f.place ≡ waiting → f.items ≡ [])

-- A call by another thread as a whole, or a step of the thread.
pub data Call : Type 0 where
  add_buffer : (pn pb : Ptr) → Option (List ℕ) → ℤ → Call
  stop_thread proceed : Call

-- No other step comes between the unlock of `AddBuffer` and its signal.
abbrev pub prompt : List Call → List Move
prompt [] = []
prompt (add_buffer pn pb buff len ∷ cs) = add pn pb buff len ∷ signal ∷ prompt cs
prompt (stop_thread ∷ cs) = stop ∷ prompt cs
prompt (proceed ∷ cs) = go ∷ prompt cs

append_one_ne_nil : {A : Type 0} (xs : List A) (a : A) → xs ++ (a ∷ []) ≢ []
append_one_ne_nil [] a e = cc
append_one_ne_nil (x ∷ xs) a e = cc

wake_ne_waiting : (p : Place) → wake p ≢ waiting
wake_ne_waiting between e = cc
wake_ne_waiting in_round e = cc
wake_ne_waiting waiting e = cc
wake_ne_waiting woken e = cc
wake_ne_waiting ended e = cc

begun_ne_waiting : (b : Bool) → (if b then in_round else ended) ≢ waiting
begun_ne_waiting true e = cc
begun_ne_waiting false e = cc

begun_ne_woken : (b : Bool) → (if b then in_round else ended) ≢ woken
begun_ne_woken true e = cc
begun_ne_woken false e = cc

abbrev pub model : List (List ℕ) → (running : Bool) → Place → ℕ → Model
model items running place signals = record {
  items = items;
  running = running;
  place = place;
  signals = signals;
}

-- The buffers that are added.
abbrev pub added : Option (List ℕ) → ℤ → List (List ℕ)
added none len = []
added (some src) (negsuc n) = []
added (some src) (pos n) = if ltb 0 n then take n src ∷ [] else []

abbrev pub all_added : List Move → List (List ℕ)
all_added [] = []
all_added (add pn pb buff len ∷ mvs) = added buff len ++ all_added mvs
all_added (signal ∷ mvs) = all_added mvs
all_added (stop ∷ mvs) = all_added mvs
all_added (go ∷ mvs) = all_added mvs

-- After the move: what was queued and what is added is what was delivered and what is queued, in
-- order; and the predicate holds. A fault is let through where `faults` says so.
abbrev pub Becomes :
    (faults : Type 0) (P : Model → Type 0) (before : List (List ℕ))
    → Option (List Delivery × Model)
    → Type 0
Becomes faults P before none = faults
Becomes faults P before (some (ds, f)) = (map delivery before ≡ ds ++ map delivery f.items) × P f

module _ (running : Bool) (signals : ℕ) where
  go-Told :
      (place : Place) (items : List (List ℕ))
      → Told (model items running place signals)
      → Becomes (Unit {0}) Told items (model_go place (model items running place signals))
  go-Told between items h = (refl, λ e. absurd (begun_ne_waiting running e))
  go-Told in_round [] h = (refl, λ e. inl refl)
  go-Told in_round (b ∷ bs) h = (refl, λ e. cc)
  go-Told waiting items h = (refl, h)
  go-Told woken [] h = tt
  go-Told woken (b ∷ bs) h = (refl, λ e. cc)
  go-Told ended items h = (refl, h)

  go-Fed :
      (place : Place) (items : List (List ℕ))
      → Fed (model items running place signals)
      → Becomes ⊥ Fed items (model_go place (model items running place signals))
  go-Fed between items (no_signals, woken_fed, waits) = (
    refl,
    (
      no_signals,
      (λ e. absurd (begun_ne_woken running e)),
      (λ e. absurd (begun_ne_waiting running e)),
    ),
  )
  go-Fed in_round [] (no_signals, woken_fed, waits) = (refl, (no_signals, (λ e. cc), (λ e. refl)))
  go-Fed in_round (b ∷ bs) (no_signals, woken_fed, waits) =
      (refl, (no_signals, (λ e. cc), (λ e. cc)))
  go-Fed waiting items h = (refl, h)
  go-Fed woken [] (no_signals, woken_fed, waits) = woken_fed refl refl
  go-Fed woken (b ∷ bs) (no_signals, woken_fed, waits) = (refl, (no_signals, (λ e. cc), (λ e. cc)))
  go-Fed ended items h = (refl, h)

-- The moves of others.
add-Told :
    (f : Model) (buff : Option (List ℕ)) (len : ℤ)
    → Told f
    → ((model_add buff len f).items ≡ f.items ++ added buff len) × Told (model_add buff len f)
add-Told f none len h = (sym (append-nil f.items), h)
add-Told f (some src) (negsuc n) h = (sym (append-nil f.items), h)
add-Told f (some src) (pos n) h = elim (Bool-cases (ltb 0 n)) [
  | inl more ↦ rw more (refl, λ e. inr (omega arith))
  | inr no_bytes ↦ rw no_bytes (sym (append-nil f.items), h)
]

signal-Told :
    (n : ℕ) (f : Model)
    → f.signals ≡ n
    → Told f
    → ((model_signal n f).items ≡ f.items) × Told (model_signal n f)
signal-Told zero f e h = (refl, h)
signal-Told (suc n) f e h = (refl, λ e'. absurd (wake_ne_waiting f.place e'))

-- `AddBuffer` with its signal.
add-Fed :
    (items : List (List ℕ)) (running : Bool) (place : Place) (n : ℕ) (buff : Option (List ℕ))
    (len : ℤ)
    → Fed (model items running place n)
    → let f' = model_add buff len (model items running place n) in
      ((model_signal f'.signals f').items ≡ items ++ added buff len)
      × Fed (model_signal f'.signals f')
add-Fed items running place (suc n) buff len (no_signals, h, w) = absurd (omega arith)
add-Fed items running place zero none len h = (sym (append-nil items), h)
add-Fed items running place zero (some src) (negsuc n) h = (sym (append-nil items), h)
add-Fed items running place zero (some src) (pos n) h = elim (Bool-cases (ltb 0 n)) [
  | inl more ↦ rw more (
    refl,
    (refl, (λ e. append_one_ne_nil items (take n src)), (λ e. absurd (wake_ne_waiting place e))),
  )
  | inr no_bytes ↦ rw no_bytes (sym (append-nil items), h)
]

-- A run that goes on after some deliveries.
then_more-Becomes :
    (F : Type 0) (P : Model → Type 0) (before middle more : List (List ℕ)) (ds : List Delivery)
    (o : Option (List Delivery × Model))
    → map delivery before ≡ ds ++ map delivery middle
    → Becomes F P (middle ++ more) o
    → Becomes F P (before ++ more) (then_more ds o)
then_more-Becomes F P before middle more ds none e h = h
then_more-Becomes F P before middle more ds (some (es, f)) e (kept, h) = (
  map-append delivery before more
      ∙ ap (λ x. x ++ map delivery more) e
      ∙ append_assoc ds (map delivery middle) (map delivery more)
      ∙ ap (λ x. ds ++ x) (sym (map-append delivery middle more) ∙ kept)
      ∙ sym (append_assoc ds es (map delivery f.items)),
  h,
)

-- A run whose first step is a call of another thread.
same_items :
    (F : Type 0) (P : Model → Type 0) (before middle : List (List ℕ))
    (o : Option (List Delivery × Model))
    → middle ≡ before
    → Becomes F P middle o
    → Becomes F P before (then_more [] o)
same_items F P before middle none e h = h
same_items F P before middle (some (es, f)) e h =
    subst (λ x. (map delivery x ≡ es ++ map delivery f.items) × P f) e h

go_first :
    (F : Type 0) (P : Model → Type 0) (items more : List (List ℕ))
    (o : Option (List Delivery × Model)) (rest : Model → Option (List Delivery × Model))
    → Becomes F P items o
    → ((f : Model) → P f → Becomes F P (f.items ++ more) (rest f))
    → Becomes F P (items ++ more) (and_then o rest)
go_first F P items more none rest h k = h
go_first F P items more (some (ds, f)) rest (kept, h) k =
    then_more-Becomes F P items f.items more ds (rest f) kept (k f h)

pub model-Told :
    (mvs : List Move) (f : Model)
    → Told f
    → Becomes (Unit {0}) Told (f.items ++ all_added mvs) (model_steps mvs f)
unfolding model_steps
model-Told [] f h = (ap (map delivery) (append-nil f.items), h)
model-Told (add pn pb buff len ∷ mvs) f h =
    let (queued, told) = add-Told f buff len h in
    same_items (Unit {0}) Told (f.items ++ all_added (add pn pb buff len ∷ mvs))
      ((model_add buff len f).items ++ all_added mvs) (model_steps mvs (model_add buff len f))
      (ap (λ x. x ++ all_added mvs) queued ∙ append_assoc f.items (added buff len) (all_added mvs))
      (model-Told mvs (model_add buff len f) told)
model-Told (signal ∷ mvs) f h =
    let (queued, told) = signal-Told f.signals f refl h in
    same_items (Unit {0}) Told (f.items ++ all_added mvs)
      ((model_signal f.signals f).items ++ all_added mvs)
      (model_steps mvs (model_signal f.signals f)) (ap (λ x. x ++ all_added mvs) queued)
      (model-Told mvs (model_signal f.signals f) told)
model-Told (stop ∷ mvs) f h =
    same_items (Unit {0}) Told (f.items ++ all_added mvs) (f.items ++ all_added mvs)
      (model_steps mvs (record f { running = false })) refl
      (model-Told mvs (record f { running = false }) h)
model-Told (go ∷ mvs) f h =
    go_first (Unit {0}) Told f.items (all_added mvs) (model_go f.place f) (model_steps mvs)
      (go-Told f.running f.signals f.place f.items h) (λ f' h'. model-Told mvs f' h')

pub model-Fed :
    (cs : List Call) (f : Model)
    → Fed f
    → Becomes ⊥ Fed (f.items ++ all_added (prompt cs)) (model_steps (prompt cs) f)
unfolding model_steps
model-Fed [] f h = (ap (map delivery) (append-nil f.items), h)
model-Fed (add_buffer pn pb buff len ∷ cs) f h =
    let (queued, fed) = add-Fed f.items f.running f.place f.signals buff len h in
    let f' = model_add buff len f in
    let rest = model_steps (prompt cs) (model_signal f'.signals f') in
    let more = all_added (prompt cs) in
    same_items ⊥ Fed (f.items ++ (added buff len ++ more)) (f.items ++ (added buff len ++ more))
      (then_more [] rest) refl
      (same_items ⊥ Fed (f.items ++ (added buff len ++ more))
        ((model_signal f'.signals f').items ++ more) rest
        (ap (λ x. x ++ more) queued ∙ append_assoc f.items (added buff len) more)
        (model-Fed cs (model_signal f'.signals f') fed))
model-Fed (stop_thread ∷ cs) f h =
    let more = all_added (prompt cs) in
    same_items ⊥ Fed (f.items ++ more) (f.items ++ more)
      (model_steps (prompt cs) (record f { running = false })) refl
      (model-Fed cs (record f { running = false }) h)
model-Fed (proceed ∷ cs) f h =
    go_first ⊥ Fed f.items (all_added (prompt cs)) (model_go f.place f) (model_steps (prompt cs))
      (go-Fed f.running f.signals f.place f.items h) (λ f' h'. model-Fed cs f' h')
