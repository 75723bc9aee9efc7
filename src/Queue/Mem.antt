-- ===== src/Queue/Mem.antt =====
-- The memory that the queues of src/temp/Common work on: `struct Buffer` nodes (ComDefine.h) and
-- the byte blocks that they point to. `malloc`, `free` and the reads and writes through a pointer
-- are those of C: a null or dangling pointer is a `fault`. `blocked` is a thread that waits for a
-- mutex for ever.
use greatone.Base.{ℕ, ℤ, List, Option, none, some, ◌==◌, if◌then◌else◌}

abbrev pub Ptr : Type 0
Ptr = ℕ

abbrev pub null : Ptr
null = 0

-- `struct Buffer`.
pub record Node : Type 0 where
  pub num : ℤ
  pub buff : Ptr
  pub next : Ptr

pub record Mem : Type 0 where
  pub nodes : Ptr → Option Node
  pub blocks : Ptr → Option (List ℕ)

unfoldable pub write_node : Mem → Ptr → Option Node → Mem
write_node m p n = record m { nodes = λ a. if a == p then n else m.nodes a }

unfoldable pub write_block : Mem → Ptr → Option (List ℕ) → Mem
write_block m p b = record m { blocks = λ a. if a == p then b else m.blocks a }

pub data Run (A : Type 0) : Type 0 where
  ok : A → Mem → Run A
  fault : Run A
  blocked : Run A
  out_of_fuel : Run A

abbrev pub Cmd : Type 0 → Type 0
Cmd A = Mem → Run A

abbrev pub pure : {A : Type 0} → A → Cmd A
pure = ok

module _ {A B : Type 0} where
  abbrev pub and_then : Run A → (A → Cmd B) → Run B
  and_then (ok a m) k = k a m
  and_then fault k = fault
  and_then blocked k = blocked
  and_then out_of_fuel k = out_of_fuel

  infixl 5 ◌>>=◌ ◌>>◌
  abbrev pub ◌>>=◌ : Cmd A → (A → Cmd B) → Cmd B
  c >>= k = λ m. and_then (c m) k

  abbrev pub ◌>>◌ : Cmd A → Cmd B → Cmd B
  c >> d = c >>= λ _. d

-- `*p` for a node.
unfoldable pub load : Ptr → Cmd Node
load p m = if p == null then fault else elim (m.nodes p) [ none ↦ fault | some n ↦ ok n m ]

-- The bytes at `p`.
unfoldable pub load_block : Ptr → Cmd (List ℕ)
load_block p m = if p == null then fault else elim (m.blocks p) [ none ↦ fault | some b ↦ ok b m ]

-- The write of all fields of the node that `malloc` returned at `p`.
unfoldable pub store : Ptr → Node → Cmd (Unit {0})
store p n m = if p == null then fault else ok tt (write_node m p (some n))

-- The write of the block that `malloc` returned at `p`.
unfoldable pub store_block : Ptr → List ℕ → Cmd (Unit {0})
store_block p b m = if p == null then fault else ok tt (write_block m p (some b))

-- `p->next = q`.
unfoldable pub set_next : Ptr → Ptr → Cmd (Unit {0})
unfolding load
set_next p q m =
    and_then (load p m) (λ n m'. ok tt (write_node m' p (some (record n { next = q }))))

-- `free(p)` of a node that is allocated.
unfoldable pub free : Ptr → Cmd (Unit {0})
unfolding load
free p m = and_then (load p m) (λ n m'. ok tt (write_node m' p none))

-- `free(p)` of a block that is allocated.
unfoldable pub free_block : Ptr → Cmd (Unit {0})
unfolding load_block
free_block p m = and_then (load_block p m) (λ b m'. ok tt (write_block m' p none))
