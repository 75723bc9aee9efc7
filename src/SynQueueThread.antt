-- ===== src/SynQueueThread.antt =====
-- The class SynQueueThread of temp/Common/SynQueueThread.cpp: buffers are queued by any thread, and
-- a thread of its own hands them to the callback `ThreadLoop`, which is called with no bytes where
-- the queue is empty.
pub mod Clear
pub mod Fifo
use greatone.Base.{
  ℕ, zero, suc, ◌+◌, ◌-◌, ◌%◌, ◌^◌, ◌≤◌, Bool, true, false, Option, none, some, List, [], ◌∷◌, ◌++◌,
  ℤ, pos, negsuc, ◌==◌, ltb, leb, if◌then◌else◌, length,
}
use greatone.Queue.Mem.{Ptr, null, Cmd, ok, fault, pure, ◌>>=◌, ◌>>◌}
use greatone.Queue.Links.{Links, Delivery, lock, unlock, put_front, take_oldest, deliver, clear_all}

pub record SynQueueThread : Type 0 where
  pub links : Links
  pub running : Bool
  -- the bytes of `mTag` before its NUL
  pub tag : List ℕ

-- The constructor. (It also writes one byte behind `mTag`, which the state does not show.)
unfoldable pub new : SynQueueThread
new = record {
  links = record { head = null; data_count = 0; locked = false };
  running = false;
  tag = [];
}

-- `strcpy` into an array of 32 bytes.
unfoldable pub copy_tag : Option (List ℕ) → SynQueueThread → Cmd SynQueueThread
copy_tag none t = pure t
copy_tag (some s) t = if ltb (length s) 32 then pure (record t { tag = s }) else (λ _. fault)

-- `StartThread`; `created` is what `pthread_create` returns.
unfoldable pub start_thread : ℕ → Option (List ℕ) → SynQueueThread → Cmd (Bool × SynQueueThread)
start_thread created tag t =
    if created == 0
    then (do t' ← copy_tag tag (record t { running = true }); pure (true, t'))
    else pure (false, record t { running = false })

-- `StopThread`.
unfoldable pub stop_thread : SynQueueThread → Bool × SynQueueThread
stop_thread t = (true, record t { running = false })

-- `run`; only the result of `pthread_create` decides.
unfoldable pub run : ℕ → SynQueueThread → Bool × SynQueueThread
run created t = (created == 0, record t { running = true })

-- `requestExit`.
unfoldable pub request_exit : SynQueueThread → Bool × SynQueueThread
request_exit t = (true, record t { running = false })

-- `AddBuffer`; `malloc` returns `pn` for the node and `pb` for the bytes.
unfoldable pub add_buffer :
    (pn pb : Ptr) → Option (List ℕ) → ℤ → SynQueueThread → Cmd (Bool × SynQueueThread)
add_buffer pn pb none len t = pure (false, t)
add_buffer pn pb (some src) (negsuc n) t = pure (false, t)
add_buffer pn pb (some src) (pos n) t =
    if ltb 0 n
    then (do l ← put_front pn pb t.links src n; pure (true, record t { links = l }))
    else pure (false, t)

-- The call `ThreadLoop("", 0)`.
unfoldable pub idle : Links → Delivery
idle l = record { bytes = []; num = pos 0; locked = l.locked }

-- `consumer`.
unfoldable pub consumer : SynQueueThread → Cmd (Delivery × SynQueueThread)
unfolding idle
consumer t = do
  l ← lock t.links
  if l.head == null then (do u ← unlock l; pure (idle u, record t { links = u })) else (do
    (p, r) ← take_oldest l
    u ← unlock r
    d ← deliver p u
    pure (d, record t { links = u }))

-- `clearQueue`: the head and the count stay as they are.
unfoldable pub clear_queue : SynQueueThread → Cmd SynQueueThread
clear_queue t = do l ← lock t.links; clear_all l; u ← unlock l; pure (record t { links = u })

-- A queue and the place of its thread in `process`: between the test of `mRunning` and the call of
-- `consumer`, or not.
pub record Config : Type 0 where
  pub thread : SynQueueThread
  pub in_round : Bool

-- One step of the program around a queue: a call of `AddBuffer` or of `StopThread` from any
-- thread, or, in the thread of the queue, the test of `mRunning` or the call of `consumer`.
pub data Op : Type 0 where
  add : (pn pb : Ptr) → Option (List ℕ) → ℤ → Op
  stop test consume : Op

-- The deliveries of the step, and the state after it: the loop of `process`, taken apart so that
-- the other threads can act between its test and its body.
unfoldable pub step : Op → Config → Cmd (List Delivery × Config)
step (add pn pb buff len) c = do
  (_, t) ← add_buffer pn pb buff len c.thread
  pure ([], record c { thread = t })
step stop c = pure ([], record c { thread = (stop_thread c.thread).1 })
step test c = pure ([], record c { in_round = c.thread.running })
step consume c =
    if c.in_round
    then (do (d, t) ← consumer c.thread; pure (d ∷ [], record { thread = t; in_round = false }))
    else pure ([], c)

-- A run of steps, with all deliveries in order.
unfoldable pub steps : List Op → Config → Cmd (List Delivery × Config)
steps [] c = pure ([], c)
steps (op ∷ ops) c = do (ds, c') ← step op c; (es, c'') ← steps ops c'; pure (ds ++ es, c'')
