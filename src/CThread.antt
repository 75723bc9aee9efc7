-- ===== src/CThread.antt =====
-- The class CThread of temp/Common/CThread.cpp: a queue whose thread waits for a buffer and hands
-- it to a callback that was registered with a context.
pub mod Wait
pub mod Process
use greatone.Base.{
  [], ◌∷◌, ℕ, Bool, true, false, Option, none, some, List, ℤ, pos, negsuc, ◌==◌, ◌||◌, ltb,
  if◌then◌else◌,
}
use greatone.Queue.Mem.{Ptr, null, Cmd, ok, pure, ◌>>=◌, ◌>>◌}
use greatone.Queue.Links.{Links, Delivery, lock, unlock, put_front, take_oldest, deliver}

pub record CThread : Type 0 where
  pub links : Links
  pub running : Bool
  -- `mMasterPoint` and `mCallback`
  pub master_point : Ptr
  pub callback : Ptr

-- The constructor.
unfoldable pub new : CThread
new = record {
  links = record { head = null; data_count = 0; locked = false };
  running = false;
  master_point = null;
  callback = null;
}

-- `start`; `created` is what `pthread_create` returns.
unfoldable pub start : ℕ → CThread → Bool × CThread
start created t =
    if created == 0
    then (true, record t { running = true })
    else (false, record t { running = false })

-- `stop`.
unfoldable pub stop : CThread → Bool × CThread
stop t = (true, record t { running = false })

-- `setCallback`.
unfoldable pub set_callback : (context callback : Ptr) → CThread → CThread
set_callback context callback t = record t { master_point = context; callback = callback }

-- `addBuffer`; `malloc` returns `pn` for the node and `pb` for the bytes.
unfoldable pub add_buffer : (pn pb : Ptr) → Option (List ℕ) → ℤ → CThread → Cmd (Bool × CThread)
add_buffer pn pb none len t = pure (false, t)
add_buffer pn pb (some src) (negsuc n) t = pure (false, t)
add_buffer pn pb (some src) (pos n) t =
    if ltb 0 n
    then (do l ← put_front pn pb t.links src n; pure (true, record t { links = l }))
    else pure (false, t)

-- `consumer`; `wait` is what happens in `pthread_cond_wait`. The result is what the callback is
-- handed, if one is registered: without one the buffer is released all the same.
unfoldable pub consumer : (wait : Links → Cmd Links) → CThread → Cmd (Option Delivery × CThread)
consumer wait t = do
  l ← lock t.links
  w ← if l.head == null then wait l else pure l
  (p, r) ← take_oldest w
  u ← unlock r
  d ← deliver p u
  pure (
    if (t.callback == null) || (t.master_point == null) then none else some d,
    record t { links = u },
  )

-- `process`, as that of QueueThread; the result has `none` for a buffer that no callback got.
unfoldable pub process : List (Links → Cmd Links) → CThread → Cmd (List (Option Delivery) × CThread)
unfolding consumer
process [] t = pure ([], t)
process (wait ∷ waits) t = do (d, u) ← consumer wait t; (ds, v) ← process waits u; pure (d ∷ ds, v)
