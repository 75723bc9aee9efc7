-- ===== src/CThread/Wait.antt =====
-- What a CThread does with a buffer, with a callback and without.
use greatone.Base.{◌≡◌, false, none, some, List, ◌∷◌, ◌==◌, ◌||◌, if◌then◌else◌}
use greatone.Queue.Mem.{null, Mem, ok, Cmd}
use greatone.Queue.Chain.{Cell, last, but_last, contents, contents-last}
use greatone.Queue.Links.{Links, lock, unlock}
use greatone.Queue.Laws.{IsQueue, delivery, Served, rest_links, serve, head_ne_null}
use greatone.CThread.{CThread, consumer}

-- `consumer` of a CThread whose queue is not empty: the oldest buffer leaves the queue, its node and block are released, and the callback gets it
-- exactly if both the callback and its context are registered.
pub consumer-oldest :
    (wait : Links → Cmd Links) (t : CThread) (m : Mem) (c : Cell) (cs : List Cell)
    → IsQueue m t.links (c ∷ cs)
    → (m' : Mem) × (consumer wait t m
        ≡ ok
            (
              if (t.callback == null) || (t.master_point == null)
                  then none
                  else some (delivery (last c cs).bytes),
              record t { links = rest_links c cs },
            )
            m')
      × IsQueue m' (rest_links c cs) (but_last c cs)
      × (m'.nodes (last c cs).node ≡ none)
      × (m'.blocks (last c cs).block ≡ none)
      × (contents (c ∷ cs) ≡ (last c cs).bytes ∷ contents (but_last c cs))
unfolding consumer lock unlock
consumer-oldest wait t m c cs q = go (serve m t.links c cs q)
  where
    more : (t.links.head == null) ≡ false
    more = head_ne_null m t.links c cs q

    go :
        Served m t.links c cs
        → (m' : Mem) × (consumer wait t m
            ≡ ok
                (
                  if (t.callback == null) || (t.master_point == null)
                      then none
                      else some (delivery (last c cs).bytes),
                  record t { links = rest_links c cs },
                )
                m')
          × IsQueue m' (rest_links c cs) (but_last c cs)
          × (m'.nodes (last c cs).node ≡ none)
          × (m'.blocks (last c cs).block ≡ none)
          × (contents (c ∷ cs) ≡ (last c cs).bytes ∷ contents (but_last c cs))
    go s = (
      s.after,
      rw (q.unlocked, more, s.taken, s.delivered),
      s.queue,
      s.node_freed,
      s.block_freed,
      contents-last c cs,
    )
