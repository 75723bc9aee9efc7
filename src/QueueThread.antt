-- ===== src/QueueThread.antt =====
-- The class QueueThread of temp/Common/QueueThread.cpp: buffers are queued by any thread, and a
-- thread of its own waits for one on a condition variable and hands it to `ThreadLoop`.
pub mod Wait
pub mod Process
pub mod Steps
use greatone.Base.{
  ℕ, Bool, true, false, Option, none, some, List, [], ◌∷◌, ℤ, pos, negsuc, ◌==◌, ltb, if◌then◌else◌,
  length,
}
use greatone.Queue.Mem.{Ptr, null, Cmd, ok, fault, pure, ◌>>=◌, ◌>>◌}
use greatone.Queue.Links.{Links, Delivery, lock, unlock, put_front, take_oldest, deliver, clear_all}

pub record QueueThread : Type 0 where
  pub links : Links
  pub running : Bool
  -- the bytes of `mTag` before its NUL
  pub tag : List ℕ

-- The constructor. (It also writes one byte behind `mTag`, which the state does not show.)
unfoldable pub new : QueueThread
new = record {
  links = record { head = null; data_count = 0; locked = false };
  running = false;
  tag = [];
}

-- `strcpy` into an array of 32 bytes.
unfoldable pub copy_tag : Option (List ℕ) → QueueThread → Cmd QueueThread
copy_tag none t = pure t
copy_tag (some s) t = if ltb (length s) 32 then pure (record t { tag = s }) else (λ _. fault)

-- `StartThread`; `created` is what `pthread_create` returns.
unfoldable pub start_thread : ℕ → Option (List ℕ) → QueueThread → Cmd (Bool × QueueThread)
unfolding copy_tag
start_thread created tag t =
    if created == 0
    then (do t' ← copy_tag tag (record t { running = true }); pure (true, t'))
    else pure (false, record t { running = false })

-- `StopThread`.
unfoldable pub stop_thread : QueueThread → Bool × QueueThread
stop_thread t = (true, record t { running = false })

-- `AddBuffer`; `malloc` returns `pn` for the node and `pb` for the bytes. The signal on the
-- condition has no effect on the state.
unfoldable pub add_buffer :
    (pn pb : Ptr) → Option (List ℕ) → ℤ → QueueThread → Cmd (Bool × QueueThread)
add_buffer pn pb none len t = pure (false, t)
add_buffer pn pb (some src) (negsuc n) t = pure (false, t)
add_buffer pn pb (some src) (pos n) t =
    if ltb 0 n
    then (do l ← put_front pn pb t.links src n; pure (true, record t { links = l }))
    else pure (false, t)

-- `consumer`. `wait` is what happens in `pthread_cond_wait`: it is called with the mutex held, lets
-- the other threads change the queue, and returns with the mutex held again.
unfoldable pub consumer : (wait : Links → Cmd Links) → QueueThread → Cmd (Delivery × QueueThread)
consumer wait t = do
  l ← lock t.links
  w ← if l.head == null then wait l else pure l
  (p, r) ← take_oldest w
  u ← unlock r
  d ← deliver p u
  pure (d, record t { links = u })

-- `process`, with what each wait is. There is one for each test of `mRunning` that finds it set; the
-- test after them finds it cleared. The result is what was delivered, first to last.
unfoldable pub process : List (Links → Cmd Links) → QueueThread → Cmd (List Delivery × QueueThread)
unfolding consumer
process [] t = pure ([], t)
process (wait ∷ waits) t = do (d, u) ← consumer wait t; (ds, v) ← process waits u; pure (d ∷ ds, v)

-- `clearQueue`: the head and the count stay as they are.
unfoldable pub clear_queue : QueueThread → Cmd QueueThread
clear_queue t = do l ← lock t.links; clear_all l; u ← unlock l; pure (record t { links = u })
