-- ===== src/Queue/Links.antt =====
-- The members that the queue classes of temp/Common have in common (head, count, mutex), and the
-- lines that their functions share: a new node in front, the oldest node off the end, the callback
-- with the release of its buffer, and the loop that frees all.
use greatone.Base.{
  ℕ, zero, suc, ◌+◌, ◌-◌, ◌%◌, ◌^◌, Bool, true, false, List, ℤ, pos, ◌==◌, ltb, if◌then◌else◌,
  length, take,
}
use greatone.Queue.Mem.{
  Ptr, null, Cmd, ok, fault, blocked, out_of_fuel, pure, ◌>>=◌, ◌>>◌, load, load_block, store,
  store_block, free, free_block,
}
use greatone.Queue.Unlink.{unlink_last}

pub record Links : Type 0 where
  pub head : Ptr
  -- `int mDataCount`, as its 32 bits
  pub data_count : ℕ
  pub locked : Bool

-- `pthread_mutex_lock`: a thread that finds the mutex taken waits.
unfoldable pub lock : Links → Cmd Links
lock l m = if l.locked then blocked else ok (record l { locked = true }) m

unfoldable pub unlock : Links → Cmd Links
unlock l = pure (record l { locked = false })

-- `malloc` of a node and of a block (they return `pn` and `pb`), the copy of `len` bytes into the
-- block, and, with the mutex held, the node put in front.
unfoldable pub put_front : (pn pb : Ptr) → Links → List ℕ → ℕ → Cmd Links
unfolding lock unlock
put_front pn pb l src len = if ltb (length src) len then (λ _. fault) else do
  store_block pb (take len src)
  l ← lock l
  store pn (record { num = pos len; buff = pb; next = l.head })
  unlock (record l { head = pn; data_count = (l.data_count + 1) % 2 ^ 32 })

-- The oldest node taken off. The walk has `mDataCount` rounds.
unfoldable pub take_oldest : Links → Cmd (Ptr × Links)
take_oldest l = do
  (p, h) ← unlink_last l.data_count l.head
  pure (p, record l { head = h; data_count = (l.data_count + 2 ^ 32 - 1) % 2 ^ 32 })

-- What the callback is handed, and whether the mutex is held meanwhile.
pub record Delivery : Type 0 where
  pub bytes : List ℕ
  pub num : ℤ
  pub locked : Bool

-- `ThreadLoop(p->buff, p->num)`, and the release of the block and the node.
unfoldable pub deliver : Ptr → Links → Cmd Delivery
deliver p l = do
  n ← load p
  b ← load_block n.buff
  free_block n.buff
  free p
  pure (record { bytes = b; num = n.num; locked = l.locked })

-- `while (cur->next) { temp = cur; cur = cur->next; free temp }`, then the release of the last.
unfoldable pub clear_loop : ℕ → Ptr → Cmd (Unit {0})
clear_loop zero cur = λ _. out_of_fuel
clear_loop (suc k) cur = do
  n ← load cur
  free_block n.buff
  free cur
  if n.next == null then pure tt else clear_loop k n.next

-- All buffers released, where there are any.
unfoldable pub clear_all : Links → Cmd (Unit {0})
clear_all l = if l.head == null then pure tt else clear_loop l.data_count l.head
