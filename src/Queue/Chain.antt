-- ===== src/Queue/Chain.antt =====
-- What a chain of nodes in memory stands for, and the changes of memory that leave it alone.
use greatone.Base.{
  ℕ, pos, ◌≡◌, ◌≢◌, refl, Bool, true, false, ◌||◌, Option, none, some, List, [], ◌∷◌, ◌++◌, arith,
  ◌==◌, length,
}
use greatone.Queue.Mem.{Ptr, null, Node, Mem, write_node, write_block}

-- One queued buffer: the address of its node, that of its block, and the bytes.
pub record Cell : Type 0 where
  pub node : Ptr
  pub block : Ptr
  pub bytes : List ℕ

-- The address at which the chain of the cells begins.
abbrev pub first : List Cell → Ptr
first [] = null
first (c ∷ cs) = c.node

abbrev pub has_node : Ptr → List Cell → Bool
has_node p [] = false
has_node p (c ∷ cs) = (p == c.node) || has_node p cs

abbrev pub has_block : Ptr → List Cell → Bool
has_block p [] = false
has_block p (c ∷ cs) = (p == c.block) || has_block p cs

-- The cell stands in memory, and its node points on to `next`.
pub record Holds (m : Mem) (c : Cell) (next : Ptr) : Type 0 where
  pub node_ne_null : c.node ≢ null
  pub block_ne_null : c.block ≢ null
  pub node :
      m.nodes c.node ≡ some (record { num = pos (length c.bytes); buff = c.block; next = next })
  pub block : m.blocks c.block ≡ some c.bytes

-- The node and the block of the cell are not those of any in the list.
pub record Apart (c : Cell) (cs : List Cell) : Type 0 where
  pub node : has_node c.node cs ≡ false
  pub block : has_block c.block cs ≡ false

-- The cells stand in memory, each linked to the next and the last to NULL, and share nothing.
abbrev pub Chain : Mem → List Cell → Type 0
Chain m [] = Unit {0}
Chain m (c ∷ cs) = Holds m c (first cs) × Apart c cs × Chain m cs

-- The two memories agree on the cells.
pub record SameOn (cs : List Cell) (m m' : Mem) : Type 0 where
  pub nodes : (p : Ptr) → has_node p cs ≡ true → m'.nodes p ≡ m.nodes p
  pub blocks : (p : Ptr) → has_block p cs ≡ true → m'.blocks p ≡ m.blocks p

pub SameOn-tail : {m m' : Mem} {c : Cell} {cs : List Cell} → SameOn (c ∷ cs) m m' → SameOn cs m m'
SameOn-tail s = record {
  nodes = λ p h. s.nodes p (ground arith);
  blocks = λ p h. s.blocks p (ground arith);
}

-- A chain survives any change that spares its cells.
pub Chain-frame : {m m' : Mem} (cs : List Cell) → SameOn cs m m' → Chain m cs → Chain m' cs
Chain-frame [] s h = tt
Chain-frame (c ∷ cs) s (h, apart, rest) = (
  record {
    node_ne_null = h.node_ne_null;
    block_ne_null = h.block_ne_null;
    node = ground (arith, s.nodes c.node, h.node);
    block = ground (arith, s.blocks c.block, h.block);
  },
  apart,
  Chain-frame cs (SameOn-tail s) rest,
)

pub SameOn-write_node :
    (m : Mem) (p : Ptr) (n : Option Node) (cs : List Cell)
    → has_node p cs ≡ false
    → SameOn cs m (write_node m p n)
unfolding write_node
SameOn-write_node m p n cs out = record { nodes = λ a h. ground arith; blocks = λ a h. refl }

pub SameOn-write_block :
    (m : Mem) (p : Ptr) (b : Option (List ℕ)) (cs : List Cell)
    → has_block p cs ≡ false
    → SameOn cs m (write_block m p b)
unfolding write_block
SameOn-write_block m p b cs out = record { nodes = λ a h. refl; blocks = λ a h. ground arith }

-- An address at which nothing is allocated belongs to no cell of the chain.
pub has_node_of_none :
    (m : Mem) (p : Ptr) (cs : List Cell) → Chain m cs → m.nodes p ≡ none → has_node p cs ≡ false
has_node_of_none m p [] h e = refl
has_node_of_none m p (c ∷ cs) (h, apart, rest) e =
    ground (arith, h.node, has_node_of_none m p cs rest e)

pub has_block_of_none :
    (m : Mem) (p : Ptr) (cs : List Cell) → Chain m cs → m.blocks p ≡ none → has_block p cs ≡ false
has_block_of_none m p [] h e = refl
has_block_of_none m p (c ∷ cs) (h, apart, rest) e =
    ground (arith, h.block, has_block_of_none m p cs rest e)

-- The oldest cell, which stands last, and the others.
abbrev pub last : Cell → List Cell → Cell
last c [] = c
last c (d ∷ cs) = last d cs

abbrev pub but_last : Cell → List Cell → List Cell
but_last c [] = []
but_last c (d ∷ cs) = c ∷ but_last d cs

pub has_node-but_last :
    (p : Ptr) (c : Cell) (cs : List Cell)
    → has_node p (c ∷ cs) ≡ false
    → has_node p (but_last c cs) ≡ false
has_node-but_last p c [] h = refl
has_node-but_last p c (d ∷ cs) h = ground (arith, has_node-but_last p d cs)

pub has_block-but_last :
    (p : Ptr) (c : Cell) (cs : List Cell)
    → has_block p (c ∷ cs) ≡ false
    → has_block p (but_last c cs) ≡ false
has_block-but_last p c [] h = refl
has_block-but_last p c (d ∷ cs) h = ground (arith, has_block-but_last p d cs)

pub has_node-last : (c : Cell) (cs : List Cell) → has_node (last c cs).node (c ∷ cs) ≡ true
has_node-last c [] = ground arith
has_node-last c (d ∷ cs) = ground (arith, has_node-last d cs)

pub has_block-last : (c : Cell) (cs : List Cell) → has_block (last c cs).block (c ∷ cs) ≡ true
has_block-last c [] = ground arith
has_block-last c (d ∷ cs) = ground (arith, has_block-last d cs)

-- What the chain queues, oldest first.
abbrev pub contents : List Cell → List (List ℕ)
contents [] = []
contents (c ∷ cs) = contents cs ++ (c.bytes ∷ [])

pub contents-last :
    (c : Cell) (cs : List Cell) → contents (c ∷ cs) ≡ (last c cs).bytes ∷ contents (but_last c cs)
contents-last c [] = refl
contents-last c (d ∷ cs) = λ i. contents-last d cs i ++ (c.bytes ∷ [])

pub length-but_last : (c : Cell) (cs : List Cell) → length (but_last c cs) ≡ length cs
length-but_last c [] = refl
length-but_last c (d ∷ cs) = omega (arith, length-but_last d cs)
