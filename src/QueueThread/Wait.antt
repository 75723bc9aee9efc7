-- ===== src/QueueThread/Wait.antt =====
-- The wait for a buffer in QueueThread, and the release of all buffers.
use greatone.Base.{◌≡◌, true, false, List, [], ◌∷◌, ◌==◌}
use greatone.Queue.Mem.{null, Mem, Run, ok, fault, Cmd, load}
use greatone.Queue.Chain.{Cell, last, but_last, contents, contents-last}
use greatone.Queue.Unlink.{unlink_last}
use greatone.Queue.Links.{Links, Delivery, lock, unlock, take_oldest}
use greatone.Queue.Laws.{IsQueue, delivery, Served, rest_links, serve, head_ne_null}
use greatone.Queue.Release.{Cleared, clear_all-Cleared}
use greatone.QueueThread.{QueueThread, consumer, clear_queue}

-- The result of `consumer` with the cells that it finds once it need not wait: the oldest buffer is
-- delivered and the others are left, and with no buffer it is a fault.
abbrev pub Consumes : List Cell → QueueThread → Run (Delivery × QueueThread) → Type 0
Consumes [] t r = r ≡ fault
Consumes (c ∷ cs) t r =
    (m' : Mem) × (r ≡ ok (delivery (last c cs).bytes, record t { links = rest_links c cs }) m')
    × IsQueue m' (rest_links c cs) (but_last c cs)
    × (contents (c ∷ cs) ≡ (last c cs).bytes ∷ contents (but_last c cs))

pub consume-null : (l : Links) (m : Mem) → l.head ≡ null → take_oldest l m ≡ fault
unfolding take_oldest unlink_last load
consume-null l m e = rw e

module _ (wait : Links → Cmd Links) (t : QueueThread) (m : Mem) where
  -- With a buffer in the queue `consumer` does not wait, whatever a wait would do: it delivers the
  -- oldest buffer and leaves the others, in a queue.
  pub consumer-queued :
      (c : Cell) (cs : List Cell)
      → IsQueue m t.links (c ∷ cs)
      → Consumes (c ∷ cs) t (consumer wait t m)
  unfolding consumer lock unlock
  consumer-queued c cs q = go (serve m t.links c cs q)
    where
      more : (t.links.head == null) ≡ false
      more = head_ne_null m t.links c cs q

      go : Served m t.links c cs → Consumes (c ∷ cs) t (consumer wait t m)
      go s = (s.after, rw (q.unlocked, more, s.taken, s.delivered), s.queue, contents-last c cs)

  empty : IsQueue m t.links [] → (t.links.head == null) ≡ true
  empty q = rw q.head

  -- Where the queue is empty, `consumer` goes on with the queue that the wait leaves: it delivers
  -- the oldest buffer of that queue and leaves the others, and is a fault where there is none.
  pub consumer-Consumes :
      (cs : List Cell) (l' : Links) (m' : Mem)
      → IsQueue m t.links []
      → wait (record (t.links) { locked = true }) m ≡ ok (record l' { locked = true }) m'
      → IsQueue m' l' cs
      → Consumes cs t (consumer wait t m)
  unfolding consumer lock unlock
  consumer-Consumes [] l' m' q w q' =
      rw (q.unlocked, empty q, w, consume-null (record l' { locked = true }) m' q'.head)
  consumer-Consumes (c ∷ cs) l' m' q w q' = go (serve m' l' c cs q')
    where
      go : Served m' l' c cs → Consumes (c ∷ cs) t (consumer wait t m)
      go s =
          (s.after, rw (q.unlocked, empty q, w, s.taken, s.delivered), s.queue, contents-last c cs)

-- `clearQueue` of a QueueThread frees the node and the block of every buffer and nothing else, and leaves the head
-- and the count as they were.
pub clear_queue-Cleared :
    (t : QueueThread) (m : Mem) (cs : List Cell)
    → IsQueue m t.links cs
    → (m' : Mem) × (clear_queue t m
        ≡ ok (record t { links = record (t.links) { locked = false } }) m')
      × Cleared m m' cs
unfolding clear_queue lock unlock
clear_queue-Cleared t m cs q =
    let (m', ran, done) = clear_all-Cleared m t.links cs true q in (m', rw (q.unlocked, ran), done)
