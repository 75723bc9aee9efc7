-- ===== src/SynQueueThread/Clear.antt =====
-- The release of all buffers of a SynQueueThread.
use greatone.Base.{◌≡◌, true, false, List}
use greatone.Queue.Mem.{Mem, ok}
use greatone.Queue.Chain.{Cell}
use greatone.Queue.Links.{lock, unlock}
use greatone.Queue.Laws.{IsQueue}
use greatone.Queue.Release.{Cleared, clear_all-Cleared}
use greatone.SynQueueThread.{SynQueueThread, clear_queue}

-- `clearQueue` of a SynQueueThread frees the node and the block of every buffer and nothing else,
-- and leaves the head and the count as they were.
pub clear_queue-frees :
    (t : SynQueueThread) (m : Mem) (cs : List Cell)
    → IsQueue m t.links cs
    → (m' : Mem) × (clear_queue t m
        ≡ ok (record t { links = record (t.links) { locked = false } }) m')
      × Cleared m m' cs
unfolding clear_queue lock unlock
clear_queue-frees t m cs q =
    let (m', ran, done) = clear_all-Cleared m t.links cs true q in (m', rw (q.unlocked, ran), done)
