-- ===== src/QueueThread/Steps/Model.antt =====
-- The queue of QueueThread without its memory: what the steps are to do.
use greatone.Base.{
  ℕ, zero, suc, ◌+◌, Bool, false, Option, none, some, List, [], ◌∷◌, ◌++◌, ℤ, pos, negsuc, ltb,
  if◌then◌else◌, take,
}
use greatone.Queue.Links.{Delivery}
use greatone.Queue.Laws.{delivery}
use greatone.QueueThread.Steps.{
  Place, between, in_round, waiting, woken, ended, wake, Move, add, signal, stop, go,
}

-- What is queued, oldest first, and the rest of the state.
pub record Model : Type 0 where
  pub items : List (List ℕ)
  pub running : Bool
  pub place : Place
  pub signals : ℕ

abbrev pub model_add : Option (List ℕ) → ℤ → Model → Model
model_add none len f = f
model_add (some src) (negsuc n) f = f
model_add (some src) (pos n) f =
    if ltb 0 n
    then record f { items = f.items ++ (take n src ∷ []); signals = f.signals + 1 }
    else f

abbrev pub model_signal : (signals : ℕ) → Model → Model
model_signal zero f = f
model_signal (suc n) f = record f { signals = n; place = wake f.place }

-- The oldest item is delivered; with none, the thread waits.
abbrev pub model_begin : List (List ℕ) → Model → List Delivery × Model
model_begin [] f = ([], record f { place = waiting })
model_begin (b ∷ bs) f = (delivery b ∷ [], record f { items = bs; place = between })

-- The same behind the wait, where it is a fault to find none.
abbrev pub model_end : List (List ℕ) → Model → Option (List Delivery × Model)
model_end [] f = none
model_end (b ∷ bs) f = some (delivery b ∷ [], record f { items = bs; place = between })

abbrev pub model_go : Place → Model → Option (List Delivery × Model)
model_go between f = some ([], record f { place = if f.running then in_round else ended })
model_go in_round f = some (model_begin f.items f)
model_go waiting f = some ([], record f { place = waiting })
model_go woken f = model_end f.items f
model_go ended f = some ([], record f { place = ended })

abbrev pub model_step : Move → Model → Option (List Delivery × Model)
model_step (add pn pb buff len) f = some ([], model_add buff len f)
model_step signal f = some ([], model_signal f.signals f)
model_step stop f = some ([], record f { running = false })
model_step go f = model_go f.place f

abbrev pub then_more :
    List Delivery → Option (List Delivery × Model) → Option (List Delivery × Model)
then_more ds none = none
then_more ds (some (es, f)) = some (ds ++ es, f)

abbrev pub and_then :
    Option (List Delivery × Model)
    → (Model → Option (List Delivery × Model))
    → Option (List Delivery × Model)
and_then none k = none
and_then (some (ds, f)) k = then_more ds (k f)

-- A run, with all deliveries in order; `none` for a fault.
unfoldable pub model_steps : List Move → Model → Option (List Delivery × Model)
model_steps [] f = some ([], f)
model_steps (mv ∷ mvs) f = and_then (model_step mv f) (model_steps mvs)
