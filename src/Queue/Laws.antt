-- ===== src/Queue/Laws.antt =====
-- What the shared lines of the queue classes do to a queue that stands for a list of cells.
use greatone.Base.{
  ℕ, suc, ◌+◌, ◌-◌, ◌%◌, ◌^◌, ◌<◌, ◌≤◌, ◌≡◌, ◌≢◌, refl, sym, true, false, none, some, List, ◌∷◌,
  pos, arith, ◌==◌, length, take, length-take, le→ltb_false, ne→==_false,
}
use greatone.Queue.Mem.{
  Ptr, null, Mem, ok, write_node, write_block, load, load_block, store, store_block, free,
  free_block,
}
use greatone.Queue.Chain.{
  Cell, first, Holds, Apart, Chain, Chain-frame, SameOn-write_node, SameOn-write_block,
  has_node_of_none, has_block_of_none, last, but_last, length-but_last,
}
use greatone.Queue.Unlink.{unlink_last-Cut}
use greatone.Queue.Links.{Links, Delivery, lock, unlock, put_front, take_oldest, deliver}

-- The members stand for the cells, newest first, and no thread holds the mutex.
pub record IsQueue (m : Mem) (l : Links) (cs : List Cell) : Type 0 where
  pub head : l.head ≡ first cs
  pub count : l.data_count ≡ length cs
  pub few : length cs < 2 ^ 31
  pub unlocked : l.locked ≡ false
  pub chain : Chain m cs

pub head_ne_null :
    (m : Mem) (l : Links) (c : Cell) (cs : List Cell)
    → IsQueue m l (c ∷ cs)
    → (l.head == null) ≡ false
head_ne_null m l c cs q = rw q.head (ne→==_false c.node null q.chain.0.node_ne_null)

-- What `malloc` promises of a node and a block: they are not NULL and not in use.
pub record Fresh (m : Mem) (pn pb : Ptr) : Type 0 where
  pub node_ne_null : pn ≢ null
  pub block_ne_null : pb ≢ null
  pub node : m.nodes pn ≡ none
  pub block : m.blocks pb ≡ none

abbrev pub new_cell : Ptr → Ptr → List ℕ → Cell
new_cell pn pb bytes = record { node = pn; block = pb; bytes = bytes }

abbrev pub delivery : List ℕ → Delivery
delivery bytes = record { bytes = bytes; num = pos (length bytes); locked = false }

count_up : (c n : ℕ) → c ≡ n → n + 1 < 2 ^ 31 → (c + 1) % 2 ^ 32 ≡ suc n
count_up c n e few = omega arith

count_down : (c n : ℕ) → c ≡ suc n → suc n < 2 ^ 31 → (c + 2 ^ 32 - 1) % 2 ^ 32 ≡ n
count_down c n e few = omega arith

-- The memory with a new node and block.
abbrev put_mem : Mem → Ptr → Ptr → List ℕ → ℕ → Ptr → Mem
put_mem m pn pb bytes n next =
    write_node (write_block m pb (some bytes)) pn
      (some (record { num = pos n; buff = pb; next = next }))

Chain-put_mem :
    (m : Mem) (cs : List Cell) (pn pb : Ptr) (bytes : List ℕ) (n : ℕ) (next : Ptr)
    → Chain m cs
    → Fresh m pn pb
    → next ≡ first cs
    → length bytes ≡ n
    → Chain (put_mem m pn pb bytes n next) (new_cell pn pb bytes ∷ cs)
unfolding write_node write_block
Chain-put_mem m cs pn pb bytes n next chain f e e' = (
  record {
    node_ne_null = f.node_ne_null;
    block_ne_null = f.block_ne_null;
    node = ground arith;
    block = ground arith;
  },
  out,
  Chain-frame cs (SameOn-write_node _ pn _ cs out.node)
      (Chain-frame cs (SameOn-write_block m pb _ cs out.block) chain),
)
  where
    out : Apart (new_cell pn pb bytes) cs
    out = record {
      node = has_node_of_none m pn cs chain f.node;
      block = has_block_of_none m pb cs chain f.block;
    }

-- With an allocated node and block, and bytes enough to copy, the new buffer is queued in front.
pub put_front-IsQueue :
    (m : Mem) (l : Links) (cs : List Cell) (pn pb : Ptr) (src : List ℕ) (len : ℕ)
    → IsQueue m l cs
    → Fresh m pn pb
    → len ≤ length src
    → length cs + 1 < 2 ^ 31
    → (l' : Links) × (m' : Mem) × (put_front pn pb l src len m ≡ ok l' m')
      × IsQueue m' l' (new_cell pn pb (take len src) ∷ cs)
unfolding put_front lock unlock store store_block
put_front-IsQueue m l cs pn pb src len q f fits few = (
  record { head = pn; data_count = suc (length cs); locked = false },
  put_mem m pn pb (take len src) len l.head,
  rw (
    le→ltb_false len (length src) fits,
    ne→==_false pb null f.block_ne_null,
    q.unlocked,
    ne→==_false pn null f.node_ne_null,
    count_up l.data_count (length cs) q.count few,
  ),
  record {
    head = refl;
    count = refl;
    few = omega arith;
    unlocked = refl;
    chain =
        Chain-put_mem m cs pn pb (take len src) len l.head q.chain f q.head
          (ground (arith, length-take len src));
  },
)

pub load-Holds :
    (m : Mem) (c : Cell) (q : Ptr)
    → Holds m c q
    → load c.node m ≡ ok (record { num = pos (length c.bytes); buff = c.block; next = q }) m
unfolding load
load-Holds m c q h = rw (ne→==_false c.node null h.node_ne_null, h.node)

pub free_block-Holds :
    (m : Mem) (c : Cell) (q : Ptr)
    → Holds m c q
    → free_block c.block m ≡ ok tt (write_block m c.block none)
unfolding free_block
free_block-Holds m c q h = rw (ne→==_false c.block null h.block_ne_null, h.block)

pub free-Holds :
    (m : Mem) (c : Cell) (q : Ptr)
    → Holds m c q
    → free c.node (write_block m c.block none)
      ≡ ok tt (write_node (write_block m c.block none) c.node none)
unfolding free write_block
free-Holds m c q h = rw (ne→==_false c.node null h.node_ne_null, h.node)

pub deliver-Holds :
    (m : Mem) (l : Links) (c : Cell)
    → Holds m c null
    → l.locked ≡ false
    → deliver c.node l m
      ≡ ok (delivery c.bytes) (write_node (write_block m c.block none) c.node none)
unfolding deliver load load_block free free_block write_block
deliver-Holds m l c h u = ground (arith, h.node, h.block, h.node_ne_null, h.block_ne_null)

pub freed_node : (m : Mem) (p : Ptr) → (write_node m p none).nodes p ≡ none
unfolding write_node
freed_node m p = ground arith

pub freed_block : (m : Mem) (b p : Ptr) → (write_node (write_block m b none) p none).blocks b ≡ none
unfolding write_node write_block
freed_block m b p = ground arith

-- A buffer that stands apart from the chain can be released.
pub Chain-free :
    (m : Mem) (c : Cell) (cs : List Cell)
    → Apart c cs
    → Chain m cs
    → Chain (write_node (write_block m c.block none) c.node none) cs
Chain-free m c cs out chain =
    Chain-frame cs (SameOn-write_node _ c.node none cs out.node)
      (Chain-frame cs (SameOn-write_block m c.block none cs out.block) chain)

-- The members once the oldest of the cells `c ∷ cs` is gone.
abbrev pub rest_links : Cell → List Cell → Links
rest_links c cs = record { head = first (but_last c cs); data_count = length cs; locked = false }

-- What `take_oldest`, called with the mutex held, and then `deliver` do to a queue that is not
-- empty: the callback gets the oldest buffer without the mutex, its node and block are released,
-- and the others stay queued.
pub record Served (m : Mem) (l : Links) (c : Cell) (cs : List Cell) : Type 0 where
  pub mid : Mem
  pub after : Mem
  pub taken :
      take_oldest (record l { locked = true }) m
      ≡ ok ((last c cs).node, record (rest_links c cs) { locked = true }) mid
  pub delivered :
      deliver (last c cs).node (rest_links c cs) mid ≡ ok (delivery (last c cs).bytes) after
  pub queue : IsQueue after (rest_links c cs) (but_last c cs)
  pub node_freed : after.nodes (last c cs).node ≡ none
  pub block_freed : after.blocks (last c cs).block ≡ none

pub serve :
    (m : Mem) (l : Links) (c : Cell) (cs : List Cell) → IsQueue m l (c ∷ cs) → Served m l c cs
unfolding take_oldest
serve m l c cs q =
    let (m1, ran, cut) = unlink_last-Cut l.data_count m c cs q.chain (omega arith) in
    record {
      mid = m1;
      after = write_node (write_block m1 (last c cs).block none) (last c cs).node none;
      taken = rw (q.head, ran, count_down l.data_count (length cs) q.count q.few);
      delivered = deliver-Holds m1 (rest_links c cs) (last c cs) cut.taken refl;
      queue = record {
        head = refl;
        count = sym (length-but_last c cs);
        few = omega (arith, length-but_last c cs);
        unlocked = refl;
        chain = Chain-free m1 (last c cs) (but_last c cs) cut.apart cut.chain;
      };
      node_freed = freed_node _ (last c cs).node;
      block_freed = freed_block m1 (last c cs).block (last c cs).node;
    }
