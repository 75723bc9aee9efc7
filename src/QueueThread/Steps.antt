-- ===== src/QueueThread/Steps.antt =====
-- QueueThread among other threads: `process` and `consumer` (temp/Common/QueueThread.cpp) taken apart
-- where another thread can act, at the mutex and the condition variable. The callback and the
-- release of its buffer belong to the step that takes the buffer out, since no other thread reaches
-- it any more. A wait ends by a signal only: wake-ups without one are left out.
pub mod Model
pub mod Agree
pub mod Wakes
pub mod Run
pub mod Progress
use greatone.Base.{
  ℕ, zero, suc, ◌+◌, Bool, true, false, Option, List, [], ◌∷◌, ◌++◌, ℤ, ◌≡◌, refl, ◌==◌,
  if◌then◌else◌,
}
use greatone.Queue.Mem.{Ptr, null, Cmd, pure, ◌>>=◌}
use greatone.Queue.Links.{Links, Delivery, lock, unlock, take_oldest, deliver}
use greatone.QueueThread.{QueueThread, consumer, add_buffer, stop_thread}

-- Where the thread stands: before the test of `mRunning`, after it, in `pthread_cond_wait`, signalled
-- there but without the mutex yet, or at its end.
pub data Place : Type 0 where
  between in_round waiting woken ended : Place

-- `signals` counts the calls of `AddBuffer` that gave the mutex back and have not signalled yet.
pub record System : Type 0 where
  pub thread : QueueThread
  pub place : Place
  pub signals : ℕ

-- The next step of the thread, or a part of a call by another: `AddBuffer` up to its unlock, its
-- signal, or `StopThread`.
pub data Move : Type 0 where
  add : (pn pb : Ptr) → Option (List ℕ) → ℤ → Move
  signal stop go : Move

-- `consumer` behind its wait, with the mutex held.
unfoldable pub take_out : Links → QueueThread → Cmd (Delivery × QueueThread)
take_out l t = do
  (p, r) ← take_oldest l
  u ← unlock r
  d ← deliver p u
  pure (d, record t { links = u })

-- `consumer` up to its wait, or to its end where it need not wait.
unfoldable pub begin_consumer : QueueThread → Cmd (List Delivery × Place × QueueThread)
begin_consumer t = do
  l ← lock t.links
  if l.head == null
      then (do u ← unlock l; pure ([], waiting, record t { links = u }))
      else (do (d, t') ← take_out l t; pure (d ∷ [], between, t'))

-- `consumer` from the return of its wait.
unfoldable pub end_consumer : QueueThread → Cmd (List Delivery × Place × QueueThread)
end_consumer t = do l ← lock t.links; (d, t') ← take_out l t; pure (d ∷ [], between, t')

unfoldable pub proceed : Place → QueueThread → Cmd (List Delivery × Place × QueueThread)
unfolding begin_consumer end_consumer
proceed between t = pure ([], (if t.running then in_round else ended), t)
proceed in_round t = begin_consumer t
proceed waiting t = pure ([], waiting, t)
proceed woken t = end_consumer t
proceed ended t = pure ([], ended, t)

-- `pthread_cond_signal`.
abbrev pub wake : Place → Place
wake waiting = woken
wake between = between
wake in_round = in_round
wake woken = woken
wake ended = ended

unfoldable pub give_signal : (signals : ℕ) → System → System
give_signal zero c = c
give_signal (suc n) c = record c { signals = n; place = wake c.place }

unfoldable pub step : Move → System → Cmd (List Delivery × System)
unfolding proceed give_signal
step (add pn pb buff len) c = do
  (added, t) ← add_buffer pn pb buff len c.thread
  pure ([], record c { thread = t; signals = if added then c.signals + 1 else c.signals })
step signal c = pure ([], give_signal c.signals c)
step stop c = pure ([], record c { thread = (stop_thread c.thread).1 })
step go c = do
  (ds, place, t) ← proceed c.place c.thread
  pure (ds, record c { thread = t; place = place })

-- A run, with all deliveries in order.
unfoldable pub steps : List Move → System → Cmd (List Delivery × System)
steps [] c = pure ([], c)
steps (mv ∷ mvs) c = do (ds, c') ← step mv c; (es, c'') ← steps mvs c'; pure (ds ++ es, c'')

-- `consumer` with a given wait, in these parts.
consumer-take_out :
    (wait : Links → Cmd Links) (t : QueueThread)
    → consumer wait t
      ≡ (do l ← lock t.links; w ← if l.head == null then wait l else pure l; take_out w t)
unfolding consumer take_out
consumer-take_out wait t = refl
