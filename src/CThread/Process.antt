-- ===== src/CThread/Process.antt =====
-- The loop of CThread's thread.
use greatone.Base.{
  ℕ, ◌≤◌, ◌≡◌, refl, none, some, Option, List, [], ◌∷◌, ◌==◌, ◌||◌, if◌then◌else◌, map, length,
  take, drop, arith,
}
use greatone.Queue.Mem.{null, Mem, Run, ok, Cmd}
use greatone.Queue.Chain.{Cell, but_last, length-but_last, contents}
use greatone.Queue.Links.{Links, Delivery}
use greatone.Queue.Laws.{IsQueue, delivery, rest_links}
use greatone.CThread.{CThread, process}
use greatone.CThread.Wait.{consumer-oldest}

-- What comes to the callback of a buffer.
abbrev pub handed : CThread → List ℕ → Option Delivery
handed t bytes =
    if (t.callback == null) || (t.master_point == null) then none else some (delivery bytes)

-- The oldest `n` buffers leave the queue, oldest first, and the others are left.
abbrev pub HandsOver :
    (n : ℕ) → List Cell → CThread → Run (List (Option Delivery) × CThread) → Type 0
HandsOver n cs t r =
    (m' : Mem) × (l' : Links) × (rest : List Cell) × (r
      ≡ ok (map (handed t) (take n (contents cs)), record t { links = l' }) m')
    × IsQueue m' l' rest
    × (contents rest ≡ drop n (contents cs))

-- A loop that runs no more often than there are buffers in the queue never waits, whatever a wait
-- would do, and takes one buffer out in each round, the oldest first; the callback gets all of them
-- if both it and its context are registered, and none otherwise, and the buffers behind the last
-- round stay.
pub process-HandsOver :
    (waits : List (Links → Cmd Links)) (t : CThread) (m : Mem) (cs : List Cell)
    → IsQueue m t.links cs
    → length waits ≤ length cs
    → HandsOver (length waits) cs t (process waits t m)
unfolding process
process-HandsOver [] t m cs q fits = (m, t.links, cs, refl, q, refl)
process-HandsOver (wait ∷ waits) t m [] q fits = absurd (omega arith)
process-HandsOver (wait ∷ waits) t m (c ∷ cs) q fits =
    let (m', ran, queue, node_gone, block_gone, order) = consumer-oldest wait t m c cs q in
    let (m'', l', rest, loop, queue', order') =
      process-HandsOver waits (record t { links = rest_links c cs }) m' (but_last c cs) queue
        (omega (arith, length-but_last c cs, fits)) in
    (m'', l', rest, rw (ran, loop, order) refl, queue', rw order order')
