-- ===== src/Queue/Release.antt =====
-- What is left of the memory when all buffers of a queue are released.
use greatone.Base.{
  ℕ, suc, ◌<◌, ◌≡◌, refl, Bool, [], ◌∙◌, if_or, none, List, [], ◌∷◌, arith, ◌==◌, length,
  if◌then◌else◌, zero, ne→==_false,
}
use greatone.Queue.Mem.{Ptr, null, Mem, ok, write_node, write_block}
use greatone.Queue.Chain.{Cell, has_node, has_block, Holds, Chain}
use greatone.Queue.Links.{Links, clear_loop, clear_all}
use greatone.Queue.Laws.{
  IsQueue, head_ne_null, load-Holds, free_block-Holds, free-Holds, Chain-free,
}

-- The memory after the release of all the cells: nothing of them is left, and all else stays.
pub record Cleared (m m' : Mem) (cs : List Cell) : Type 0 where
  pub nodes : (p : Ptr) → m'.nodes p ≡ (if has_node p cs then none else m.nodes p)
  pub blocks : (p : Ptr) → m'.blocks p ≡ (if has_block p cs then none else m.blocks p)

-- One round: the buffer of the first cell is released.
release :
    (m : Mem) (c : Cell) (next : Ptr) (k : ℕ)
    → Holds m c next
    → clear_loop (suc k) c.node m
      ≡ (if next == null then ok tt else clear_loop k next)
          (write_node (write_block m c.block none) c.node none)
unfolding clear_loop
release m c next k h =
    rw (load-Holds m c next h, free_block-Holds m c next h, free-Holds m c next h)

Cleared-cons :
    (m m' : Mem) (c : Cell) (cs : List Cell)
    → Cleared (write_node (write_block m c.block none) c.node none) m' cs
    → Cleared m m' (c ∷ cs)
unfolding write_node write_block
Cleared-cons m m' c cs done = record {
  nodes = λ p. done.nodes p ∙ if_or (p == c.node) (has_node p cs) none (m.nodes p);
  blocks = λ p. done.blocks p ∙ if_or (p == c.block) (has_block p cs) none (m.blocks p);
}

-- With fuel for its cells the loop frees the node and the block of each, and touches nothing else.
pub clear_loop-Cleared :
    (k : ℕ) (m : Mem) (c : Cell) (cs : List Cell)
    → Chain m (c ∷ cs)
    → length cs < k
    → (m' : Mem) × (clear_loop k c.node m ≡ ok tt m') × Cleared m m' (c ∷ cs)
unfolding write_node write_block
clear_loop-Cleared zero m c cs h fuel = absurd (omega arith)
clear_loop-Cleared (suc k) m c [] (h, out, rest) fuel = (
  write_node (write_block m c.block none) c.node none,
  rw (release m c null k h),
  record { nodes = λ p. ground arith; blocks = λ p. ground arith },
)
clear_loop-Cleared (suc k) m c (d ∷ ds) (h, out, rest) fuel =
    let (m', ran, done) =
      clear_loop-Cleared k (write_node (write_block m c.block none) c.node none) d ds
        (Chain-free m c (d ∷ ds) out rest) (omega arith) in
    (
      m',
      rw (release m c d.node k h, ne→==_false d.node null rest.0.node_ne_null) ran,
      Cleared-cons m m' c (d ∷ ds) done,
    )

-- A queue's buffers are all released, whether the mutex is held meanwhile or not.
pub clear_all-Cleared :
    (m : Mem) (l : Links) (cs : List Cell) (held : Bool)
    → IsQueue m l cs
    → (m' : Mem) × (clear_all (record l { locked = held }) m ≡ ok tt m') × Cleared m m' cs
unfolding clear_all
clear_all-Cleared m l [] held q = (m, rw q.head, record { nodes = λ p. refl; blocks = λ p. refl })
clear_all-Cleared m l (c ∷ cs) held q =
    let (m', ran, done) = clear_loop-Cleared l.data_count m c cs q.chain (omega arith) in
    (m', rw (head_ne_null m l c cs q) (rw (q.head, ran)), done)
