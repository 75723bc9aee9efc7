-- ===== src/QueueThread/Steps/Run.antt =====
-- Runs of QueueThread's thread among the calls of others.
use greatone.Base.{
  ℕ, ◌<◌, ◌≡◌, refl, sym, ◌⊎◌, inl, inr, Bool, true, false, Option, none, some, List, [], ◌∷◌, ◌++◌,
  pos, map, ltb, lt→ltb,
}
use greatone.Queue.Mem.{Ptr, Mem, Run, ok, fault, blocked, out_of_fuel}
use greatone.Queue.Links.{Delivery}
use greatone.Queue.Laws.{delivery}
use greatone.SynQueueThread.Fifo.{After}
use greatone.QueueThread.Steps.{System, between, waiting, Move, add, signal, stop, go, step, steps}
use greatone.QueueThread.Steps.Model.{Model, model_steps}
use greatone.QueueThread.Steps.Agree.{Refines, Enabled, AllEnabled, Agrees, steps-Agrees}
use greatone.QueueThread.Steps.Wakes.{
  Told, Fed, Call, prompt, all_added, Becomes, model, model-Told, model-Fed,
}

-- The run went through, all that was queued and added was delivered or is still queued, in order,
-- and the state stands for one of the model in which the predicate holds.
abbrev pub Accounts :
    (Model → Type 0) → (before : List (List ℕ)) → Run (List Delivery × System) → Type 0
Accounts P before r =
    (ds : List Delivery) × (c : System) × (m : Mem) × (f : Model) × (r ≡ ok (ds, c) m)
    × Refines m c f
    × (map delivery before ≡ ds ++ map delivery f.items)
    × P f

accounts :
    (F : Type 0) (P : Model → Type 0) (before : List (List ℕ)) (r : Run (List Delivery × System))
    (o : Option (List Delivery × Model))
    → Agrees r o
    → Becomes F P before o
    → (F × (r ≡ fault)) ⊎ Accounts P before r
accounts F P before r none h b = inl (b, h)
accounts F P before r (some (ds, f)) (c, m, ran, s) (kept, p) = inr (ds, c, m, f, ran, s, kept, p)

-- No wake-up is lost: in any run, unless it is a fault, every buffer is delivered once and in order
-- or still queued, and a thread that waits in the end has no buffer in its queue, unless a signal
-- is still to come.
pub steps-Told :
    (mvs : List Move) (m : Mem) (c : System) (f : Model)
    → Refines m c f
    → Told f
    → AllEnabled mvs c m
    → (steps mvs c m ≡ fault) ⊎ Accounts Told (f.items ++ all_added mvs) (steps mvs c m)
steps-Told mvs m c f r h e =
    elim (accounts (Unit {0}) Told (f.items ++ all_added mvs) (steps mvs c m) (model_steps mvs f)
      (steps-Agrees mvs m c f r e) (model-Told mvs f h)) [
        | inl (u, faulty) ↦ inl faulty
        | inr done ↦ inr done
      ]

-- While every signal directly follows the unlock of its `AddBuffer`, where every buffer that is
-- added has the length that it is given with, `malloc` returns memory that is not NULL and not in
-- use, and no more than 2^31 - 1 buffers are queued, and a wait ends by a signal only, there is
-- no fault: every buffer is delivered once and in order or still queued, a thread that was woken
-- has a buffer in its queue, and one that waits has none.
pub prompt-Fed :
    (cs : List Call) (m : Mem) (c : System) (f : Model)
    → Refines m c f
    → Fed f
    → AllEnabled (prompt cs) c m
    → Accounts Fed (f.items ++ all_added (prompt cs)) (steps (prompt cs) c m)
prompt-Fed cs m c f r h e =
    elim (accounts ⊥ Fed (f.items ++ all_added (prompt cs)) (steps (prompt cs) c m)
      (model_steps (prompt cs) f) (steps-Agrees (prompt cs) m c f r e) (model-Fed cs f h)) [
        | inl (no_fault, faulty) ↦ absurd no_fault
        | inr done ↦ done
      ]

abbrev pub NoAdd : List Move → Type 0
NoAdd [] = Unit {0}
NoAdd (add pn pb buff len ∷ mvs) = ⊥
NoAdd (signal ∷ mvs) = NoAdd mvs
NoAdd (stop ∷ mvs) = NoAdd mvs
NoAdd (go ∷ mvs) = NoAdd mvs

After-all :
    {A : Type 0} (P : A → Mem → Type 0) (r : Run A) → ((a : A) (m : Mem) → P a m) → After P r
After-all P (ok a m) h = h a m
After-all P fault h = tt
After-all P blocked h = tt
After-all P out_of_fuel h = tt

pub NoAdd-AllEnabled : (mvs : List Move) (c : System) (m : Mem) → NoAdd mvs → AllEnabled mvs c m
NoAdd-AllEnabled [] c m h = tt
NoAdd-AllEnabled (add pn pb buff len ∷ mvs) c m h = absurd h
NoAdd-AllEnabled (signal ∷ mvs) c m h =
    (tt, After-all _ (step signal c m) (λ r m'. NoAdd-AllEnabled mvs r.1 m' h))
NoAdd-AllEnabled (stop ∷ mvs) c m h =
    (tt, After-all _ (step stop c m) (λ r m'. NoAdd-AllEnabled mvs r.1 m' h))
NoAdd-AllEnabled (go ∷ mvs) c m h =
    (tt, After-all _ (step go c m) (λ r m'. NoAdd-AllEnabled mvs r.1 m' h))

-- A thread that is between two rounds with an empty queue, with no signal outstanding. When a buffer
-- is added, taken out in the next round before its signal comes, and the signal comes in the round
-- after, while the thread waits, the thread reads through NULL.
pub steps-fault :
    (m : Mem) (c : System) (pn pb : Ptr) (src : List ℕ) (n : ℕ)
    → Refines m c (model [] true between 0)
    → 0 < n
    → Enabled (add pn pb (some src) (pos n)) c m
    → steps (add pn pb (some src) (pos n) ∷ go ∷ go ∷ go ∷ go ∷ signal ∷ go ∷ []) c m ≡ fault
unfolding model_steps
steps-fault m c pn pb src n r more e =
    let full : ltb 0 n ≡ true = lt→ltb 0 n more in
    let rest : List Move = go ∷ go ∷ go ∷ go ∷ signal ∷ go ∷ [] in
    let agrees =
      steps-Agrees (add pn pb (some src) (pos n) ∷ rest) m c (model [] true between 0) r (
        e,
        After-all _ (step (add pn pb (some src) (pos n)) c m)
            (λ s m'. NoAdd-AllEnabled rest s.1 m' tt),
      ) in
    rw full at agrees

model-waits :
    (mvs : List Move) (items : List (List ℕ))
    → NoAdd mvs
    → model_steps mvs (model items false waiting 0) ≡ some ([], model items false waiting 0)
unfolding model_steps
model-waits [] items h = refl
model-waits (add pn pb buff len ∷ mvs) items h = absurd h
model-waits (signal ∷ mvs) items h = rw (model-waits mvs items h)
model-waits (stop ∷ mvs) items h = rw (model-waits mvs items h)
model-waits (go ∷ mvs) items h = rw (model-waits mvs items h)

-- `StopThread` does not reach a thread that waits with no signal outstanding: whatever steps follow,
-- as long as no buffer is added, none is a fault, nothing is delivered, and the thread still waits.
stop-waits :
    (mvs : List Move) (m : Mem) (c : System) (items : List (List ℕ)) (running : Bool)
    → Refines m c (model items running waiting 0)
    → NoAdd mvs
    → (c' : System) × (m' : Mem) × (steps (stop ∷ mvs) c m ≡ ok ([], c') m')
      × (c'.place ≡ waiting)
      × (c'.thread.running ≡ false)
unfolding model_steps
stop-waits mvs m c items running r h =
    let agrees =
      steps-Agrees (stop ∷ mvs) m c (model items running waiting 0) r
        (NoAdd-AllEnabled (stop ∷ mvs) c m h) in
    let (c', m', ran, s) = rw (model-waits mvs items h) at agrees in
    (c', m', ran, sym s.place, sym s.running)
