-- ===== src/Queue/Unlink.antt =====
-- The removal of the oldest buffer: the walk to the last node of the chain, and the write that
-- cuts it off. The three queue classes of src/temp/Common have the same lines for it.
use greatone.Base.{
  ℕ, zero, suc, ◌<◌, ◌≤◌, ◌≡◌, refl, false, some, List, [], ◌∷◌, arith, ◌∙◌, ◌==◌, if◌then◌else◌,
  length, pos,
}
use greatone.Queue.Mem.{
  Ptr, null, Mem, write_node, Cmd, ok, out_of_fuel, pure, ◌>>=◌, ◌>>◌, load, set_next,
}
use greatone.Queue.Chain.{
  Cell, first, has_node, Holds, Apart, Chain, last, but_last, has_node-but_last, has_block-but_last,
  has_node-last, has_block-last,
}

-- `while (pCurMsg->next) { pTempMsg = pCurMsg; pCurMsg = pCurMsg->next; }` and the write of
-- `pTempMsg->next` behind it. The fuel bounds the rounds.
pub walk : ℕ → (temp cur : Ptr) → Cmd Ptr
walk zero temp cur = λ _. out_of_fuel
walk (suc k) temp cur = do
  n ← load cur
  if n.next == null then (do set_next temp null; pure cur) else walk k cur n.next

-- The node taken off, and the new head.
unfoldable pub unlink_last : ℕ → Ptr → Cmd (Ptr × Ptr)
unfolding walk
unlink_last k head = do
  n ← load head
  if n.next == null then pure (head, null) else (do cur ← walk k head n.next; pure (cur, head))

-- What is known after the oldest of the cells `c ∷ cs` is cut off.
pub record Cut (m m' : Mem) (c : Cell) (cs : List Cell) : Type 0 where
  pub chain : Chain m' (but_last c cs)
  pub taken : Holds m' (last c cs) null
  pub apart : Apart (last c cs) (but_last c cs)
  pub nodes : (p : Ptr) → has_node p (c ∷ cs) ≡ false → m'.nodes p ≡ m.nodes p
  pub blocks : (p : Ptr) → m'.blocks p ≡ m.blocks p

load-Holds :
    (m : Mem) (c : Cell) (q : Ptr)
    → Holds m c q
    → load c.node m ≡ ok (record { num = pos (length c.bytes); buff = c.block; next = q }) m
unfolding load
load-Holds m c q h = ground (arith, h.node, h.node_ne_null)

set_next-Holds :
    (m : Mem) (c : Cell) (q r : Ptr)
    → Holds m c q
    → set_next c.node r m
      ≡ ok tt (
          write_node m c.node
            (some (record { num = pos (length c.bytes); buff = c.block; next = r })))
unfolding set_next
set_next-Holds m c q r h = rw (load-Holds m c q h)

Holds-write_node :
    (m : Mem) (c : Cell) (q r : Ptr)
    → Holds m c q
    → Holds
        (write_node m c.node
          (some (record { num = pos (length c.bytes); buff = c.block; next = r })))
        c
        r
unfolding write_node
Holds-write_node m c q r h = record {
  node_ne_null = h.node_ne_null;
  block_ne_null = h.block_ne_null;
  node = ground arith;
  block = h.block;
}

Holds-frame :
    (m m' : Mem) (c : Cell) (q : Ptr)
    → Holds m c q
    → m'.nodes c.node ≡ m.nodes c.node
    → m'.blocks c.block ≡ m.blocks c.block
    → Holds m' c q
Holds-frame m m' c q h e e' = record {
  node_ne_null = h.node_ne_null;
  block_ne_null = h.block_ne_null;
  node = e ∙ h.node;
  block = e' ∙ h.block;
}

-- A cell in front of a chain that was cut at its end stays in front of what is left.
Cut-cons :
    (m m' : Mem) (t c d : Cell) (ds : List Cell)
    → Holds m t c.node
    → Apart t (c ∷ d ∷ ds)
    → Cut m m' c (d ∷ ds)
    → Cut m m' t (c ∷ d ∷ ds)
Cut-cons m m' t c d ds h out cut = record {
  chain = (
    Holds-frame m m' t c.node h (cut.nodes t.node out.node) (cut.blocks t.block),
    record {
      node = has_node-but_last t.node c (d ∷ ds) out.node;
      block = has_block-but_last t.block c (d ∷ ds) out.block;
    },
    cut.chain,
  );
  taken = cut.taken;
  apart = record {
    node = ground (arith, has_node-last c (d ∷ ds), out.node, cut.apart.node);
    block = ground (arith, has_block-last c (d ∷ ds), out.block, cut.apart.block);
  };
  nodes = λ p o. cut.nodes p (ground arith);
  blocks = cut.blocks;
}

walk-Cut :
    (k : ℕ) (m : Mem) (t c : Cell) (cs : List Cell)
    → Chain m (t ∷ c ∷ cs)
    → length cs < k
    → (m' : Mem) × (walk k t.node c.node m ≡ ok (last c cs).node m') × Cut m m' t (c ∷ cs)
unfolding walk write_node
walk-Cut zero m t c cs h fuel = absurd (omega arith)
walk-Cut (suc k) m t c [] (ht, at, (hc, ac, _)) fuel = (
  write_node m t.node (some (record { num = pos (length t.bytes); buff = t.block; next = null })),
  ground (arith, load-Holds m c null hc, set_next-Holds m t c.node null ht),
  record {
    chain = (Holds-write_node m t c.node null ht, record { node = refl; block = refl }, tt);
    taken = Holds-frame m _ c null hc (ground arith) refl;
    apart = ground (arith, at.node, at.block);
    nodes = λ p h. ground arith;
    blocks = λ p. refl;
  },
)
walk-Cut (suc k) m t c (d ∷ ds) (ht, at, (hc, ac, rest)) fuel =
    let more : (d.node == null) ≡ false = ground (arith, rest.0.node_ne_null) in
    let (m', ran, cut) = walk-Cut k m c d ds (hc, ac, rest) (omega arith) in
    (m', rw (load-Holds m c d.node hc, more) ran, Cut-cons m m' t c d ds ht at cut)

-- With fuel for the cells behind the first, the removal returns the oldest node and leaves the
-- chain of the others, at the head that it returns.
pub unlink_last-Cut :
    (k : ℕ) (m : Mem) (c : Cell) (cs : List Cell)
    → Chain m (c ∷ cs)
    → length cs ≤ k
    → (m' : Mem) × (unlink_last k c.node m ≡ ok ((last c cs).node, first (but_last c cs)) m')
      × Cut m m' c cs
unfolding unlink_last
unlink_last-Cut k m c [] (h, out, rest) fuel = (
  m,
  rw (load-Holds m c null h),
  record {
    chain = tt;
    taken = h;
    apart = record { node = refl; block = refl };
    nodes = λ p o. refl;
    blocks = λ p. refl;
  },
)
unlink_last-Cut k m c (d ∷ ds) (h, out, rest) fuel =
    let more : (d.node == null) ≡ false = ground (arith, rest.0.node_ne_null) in
    let (m', ran, cut) = walk-Cut k m c d ds (h, out, rest) (omega arith) in
    (m', rw (load-Holds m c d.node h, more, ran), cut)
