-- ===== src/QueueThread/Process.antt =====
-- The loop of QueueThread's thread.
use greatone.Base.{ℕ, ◌≤◌, ◌≡◌, refl, List, [], ◌∷◌, map, length, take, drop, arith}
use greatone.Queue.Mem.{Mem, Run, ok, Cmd}
use greatone.Queue.Chain.{Cell, but_last, length-but_last, contents}
use greatone.Queue.Links.{Links, Delivery}
use greatone.Queue.Laws.{IsQueue, delivery, rest_links}
use greatone.QueueThread.{QueueThread, process}
use greatone.QueueThread.Wait.{consumer-queued}

-- The oldest `n` buffers are delivered, oldest first, and the others are left, in a queue.
abbrev pub Processes :
    (n : ℕ) → List Cell → QueueThread → Run (List Delivery × QueueThread) → Type 0
Processes n cs t r =
    (m' : Mem) × (l' : Links) × (rest : List Cell) × (r
      ≡ ok (map delivery (take n (contents cs)), record t { links = l' }) m')
    × IsQueue m' l' rest
    × (contents rest ≡ drop n (contents cs))

-- A loop that runs no more often than there are buffers in the queue never waits, whatever a wait
-- would do, and delivers one buffer in each round, the oldest first: the buffer that stands at a place
-- in the queue is delivered in the round of that number, and the buffers behind the last round stay.
pub process-Processes :
    (waits : List (Links → Cmd Links)) (t : QueueThread) (m : Mem) (cs : List Cell)
    → IsQueue m t.links cs
    → length waits ≤ length cs
    → Processes (length waits) cs t (process waits t m)
unfolding process
process-Processes [] t m cs q fits = (m, t.links, cs, refl, q, refl)
process-Processes (wait ∷ waits) t m [] q fits = absurd (omega arith)
process-Processes (wait ∷ waits) t m (c ∷ cs) q fits =
    let (m', ran, queue, order) = consumer-queued wait t m c cs q in
    let (m'', l', rest, loop, queue', order') =
      process-Processes waits (record t { links = rest_links c cs }) m' (but_last c cs) queue
        (omega (arith, length-but_last c cs, fits)) in
    (m'', l', rest, rw (ran, loop, order) refl, queue', rw order order')
