-- ===== src/QueueThread/Steps/Progress.antt =====
-- What is queued in a QueueThread is delivered.
use greatone.Base.{
  ℕ, zero, suc, ◌*◌, ◌≤◌, ◌≡◌, ◌≢◌, refl, true, some, List, [], ◌∷◌, arith, map, length, replicate,
}
use greatone.Queue.Mem.{Mem, ok}
use greatone.Queue.Laws.{delivery}
use greatone.QueueThread.Steps.{System, Place, between, in_round, waiting, woken, ended, go, steps}
use greatone.QueueThread.Steps.Model.{model_steps}
use greatone.QueueThread.Steps.Agree.{Refines, steps-Agrees}
use greatone.QueueThread.Steps.Wakes.{Fed, model}
use greatone.QueueThread.Steps.Run.{NoAdd, NoAdd-AllEnabled}

-- A number of steps of the thread, at most two for each item, after which the model has delivered all.
abbrev Finishes : List (List ℕ) → Place → Type 0
Finishes items place =
    (n : ℕ) × (n ≤ 2 * length items)
    × (place' : Place) × (model_steps (replicate n go) (model items true place 0)
        ≡ some (map delivery items, model [] true place' 0))

between-Finishes : (items : List (List ℕ)) → Finishes items between
unfolding model_steps
between-Finishes [] = (0, omega arith, between, refl)
between-Finishes (b ∷ bs) =
    let (n, few, place', ran) = between-Finishes bs in (suc (suc n), omega arith, place', rw ran)

model-Finishes :
    (place : Place) (items : List (List ℕ))
    → place ≢ ended
    → Fed (model items true place 0)
    → Finishes items place
unfolding model_steps
model-Finishes between items alive h = between-Finishes items
model-Finishes in_round [] alive h = (0, omega arith, in_round, refl)
model-Finishes in_round (b ∷ bs) alive h =
    let (n, few, place', ran) = between-Finishes bs in (suc n, omega arith, place', rw ran)
model-Finishes waiting [] alive h = (0, omega arith, waiting, refl)
model-Finishes waiting (b ∷ bs) alive h = cc (h.2 refl)
model-Finishes woken [] alive h = absurd (h.1 refl refl)
model-Finishes woken (b ∷ bs) alive h =
    let (n, few, place', ran) = between-Finishes bs in (suc n, omega arith, place', rw ran)
model-Finishes ended items alive h = absurd (alive refl)

replicate-NoAdd : (n : ℕ) → NoAdd (replicate n go)
replicate-NoAdd zero = tt
replicate-NoAdd (suc n) = replicate-NoAdd n

-- A running thread that is not at its end, in a state in which one that was woken has a buffer and one
-- that waits has none, delivers all that is queued, in order, within two steps of its own for each
-- buffer, and leaves the queue empty.
pub steps-finish :
    (place : Place) (items : List (List ℕ)) (m : Mem) (c : System)
    → Refines m c (model items true place 0)
    → place ≢ ended
    → Fed (model items true place 0)
    → (n : ℕ) × (n ≤ 2 * length items)
      × (place' : Place) × (c' : System) × (m' : Mem) × (steps (replicate n go) c m
          ≡ ok (map delivery items, c') m')
      × Refines m' c' (model [] true place' 0)
steps-finish place items m c r alive h =
    let (n, few, place', ran) = model-Finishes place items alive h in
    let agrees =
      steps-Agrees (replicate n go) m c (model items true place 0) r
        (NoAdd-AllEnabled (replicate n go) c m (replicate-NoAdd n)) in
    let (c', m', went, s) = rw ran at agrees in (n, few, place', c', m', went, s)
