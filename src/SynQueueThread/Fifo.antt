-- ===== src/SynQueueThread/Fifo.antt =====
-- A SynQueueThread is a first-in first-out queue, whatever the order of its steps.
use greatone.Base.{
  ℕ, ◌+◌, ◌^◌, ◌<◌, ◌≤◌, ◌≡◌, refl, ◌∙◌, ap, inl, inr, Bool, true, false, Option, none, some, List,
  [], ◌∷◌, ◌++◌, ℤ, pos, negsuc, arith, ◌==◌, ltb, if◌then◌else◌, length, take, Bool-cases,
}
use greatone.Queue.Mem.{Ptr, null, Mem, Run, ok}
use greatone.Queue.Chain.{Cell, last, but_last, contents, contents-last}
use greatone.Queue.Links.{Links, Delivery, lock, unlock}
use greatone.Queue.Laws.{
  IsQueue, Fresh, new_cell, delivery, put_front-IsQueue, Served, rest_links, serve, head_ne_null,
}
use greatone.SynQueueThread.{
  SynQueueThread, add_buffer, consumer, stop_thread, Config, Op, add, stop, test, consume, step,
  steps,
}

-- The abstract queue: what is queued, oldest first, and where the thread stands.
pub record Fifo : Type 0 where
  pub items : List (List ℕ)
  pub running : Bool
  pub in_round : Bool

-- The oldest item, or an idle call.
unfoldable pub serve_first : List (List ℕ) → Delivery × List (List ℕ)
serve_first [] = (delivery [], [])
serve_first (b ∷ bs) = (delivery b, bs)

unfoldable pub fifo_step : Op → Fifo → List Delivery × Fifo
unfolding serve_first
fifo_step (add pn pb none len) f = ([], f)
fifo_step (add pn pb (some src) (negsuc n)) f = ([], f)
fifo_step (add pn pb (some src) (pos n)) f =
    ([], if ltb 0 n then record f { items = f.items ++ (take n src ∷ []) } else f)
fifo_step stop f = ([], record f { running = false })
fifo_step test f = ([], record f { in_round = f.running })
fifo_step consume f =
    if f.in_round
    then (
      (serve_first f.items).0 ∷ [],
      record f { items = (serve_first f.items).1; in_round = false },
    )
    else ([], f)

unfoldable pub fifo_steps : List Op → Fifo → List Delivery × Fifo
fifo_steps [] f = ([], f)
fifo_steps (op ∷ ops) f =
    let (ds, f') = fifo_step op f in let (es, f'') = fifo_steps ops f' in (ds ++ es, f'')

-- The queue in memory stands for the abstract one.
pub record Refines (m : Mem) (c : Config) (f : Fifo) : Type 0 where
  pub cells : List Cell
  pub queue : IsQueue m c.thread.links cells
  pub items : f.items ≡ contents cells
  pub running : f.running ≡ c.thread.running
  pub in_round : f.in_round ≡ c.in_round

-- What a step takes for granted: a buffer has the length that it is given with, `malloc` returns
-- unused memory, and the count of buffers fits its `int`.
abbrev pub Enabled : Op → Config → Mem → Type 0
Enabled (add pn pb (some src) (pos n)) c m =
    (n ≤ length src) × Fresh m pn pb × (c.thread.links.data_count + 1 < 2 ^ 31)
Enabled _ c m = Unit {0}

abbrev pub After : {A : Type 0} → (A → Mem → Type 0) → Run A → Type 0
After P (ok a m) = P a m
After P _ = Unit {0}

-- Every step of the run has what it takes for granted.
abbrev pub AllEnabled : List Op → Config → Mem → Type 0
AllEnabled [] c m = Unit {0}
AllEnabled (op ∷ ops) c m = Enabled op c m × After (λ r m'. AllEnabled ops r.1 m') (step op c m)

consumer-cons :
    (m : Mem) (t : SynQueueThread) (c : Cell) (cs : List Cell)
    → IsQueue m t.links (c ∷ cs)
    → (l : Links) × (m' : Mem) × (consumer t m
        ≡ ok (delivery (last c cs).bytes, record t { links = l }) m')
      × IsQueue m' l (but_last c cs)
unfolding consumer lock unlock
consumer-cons m t c cs q = go (serve m t.links c cs q)
  where
    more : (t.links.head == null) ≡ false
    more = head_ne_null m t.links c cs q

    go :
        Served m t.links c cs
        → (l : Links) × (m' : Mem) × (consumer t m
            ≡ ok (delivery (last c cs).bytes, record t { links = l }) m')
          × IsQueue m' l (but_last c cs)
    go s = (rest_links c cs, s.after, rw (q.unlocked, more, s.taken, s.delivered), s.queue)

consumer-nil :
    (m : Mem) (t : SynQueueThread)
    → IsQueue m t.links []
    → (l : Links) × (consumer t m ≡ ok (delivery [], record t { links = l }) m) × IsQueue m l []
unfolding consumer lock unlock
consumer-nil m t q = (
  record { head = null; data_count = t.links.data_count; locked = false },
  rw (q.unlocked, q.head),
  record { head = refl; count = q.count; few = q.few; unlocked = refl; chain = tt },
)

-- What is to be shown of one step.
abbrev Stepped : Mem → Config → Fifo → Op → Type 0
Stepped m c f op =
    (c' : Config) × (m' : Mem) × (step op c m ≡ ok ((fifo_step op f).0, c') m')
    × Refines m' c' (fifo_step op f).1

consume-Stepped :
    (m : Mem) (c : Config) (f : Fifo) (cs : List Cell)
    → IsQueue m c.thread.links cs
    → f.items ≡ contents cs
    → f.running ≡ c.thread.running
    → f.in_round ≡ c.in_round
    → c.in_round ≡ true
    → Stepped m c f consume
unfolding step fifo_step
consume-Stepped m c f [] q items running in_round e =
    let (l, ran, q') = consumer-nil m c.thread q in
    (
      record { thread = record (c.thread) { links = l }; in_round = false },
      m,
      rw (in_round, e, ran, items),
      rw (in_round, e, items)
          (record { cells = []; queue = q'; items = refl; running = running; in_round = refl }),
    )
consume-Stepped m c f (d ∷ ds) q items running in_round e =
    let (l, m', ran, q') = consumer-cons m c.thread d ds q in
    let split = items ∙ contents-last d ds in
    (
      record { thread = record (c.thread) { links = l }; in_round = false },
      m',
      rw (in_round, e, ran, split),
      rw (in_round, e, split)
          (record {
            cells = but_last d ds;
            queue = q';
            items = refl;
            running = running;
            in_round = refl;
          }),
    )

add-Stepped :
    (m : Mem) (c : Config) (f : Fifo) (pn pb : Ptr) (buff : Option (List ℕ)) (len : ℤ)
    → Refines m c f
    → Enabled (add pn pb buff len) c m
    → Stepped m c f (add pn pb buff len)
unfolding step fifo_step add_buffer
add-Stepped m c f pn pb none len r e = (c, m, refl, r)
add-Stepped m c f pn pb (some src) (negsuc n) r e = (c, m, refl, r)
add-Stepped m c f pn pb (some src) (pos n) r (fits, fresh, few) = elim (Bool-cases (ltb 0 n)) [
  | inl more ↦
      let (l, m', ran, q') =
        put_front-IsQueue m c.thread.links r.cells pn pb src n r.queue fresh fits
          (omega (arith, r.queue.count)) in
      (
        record c { thread = record (c.thread) { links = l } },
        m',
        rw (more, ran),
        rw more (record {
          cells = new_cell pn pb (take n src) ∷ r.cells;
          queue = q';
          items = ap (λ x. x ++ (take n src ∷ [])) r.items;
          running = r.running;
          in_round = r.in_round;
        }),
      )
  | inr no_bytes ↦ (c, m, rw no_bytes, rw no_bytes r)
]

-- A step that has what it takes for granted does what the abstract step does.
pub step-Stepped :
    (op : Op) (m : Mem) (c : Config) (f : Fifo) → Refines m c f → Enabled op c m → Stepped m c f op
unfolding step fifo_step stop_thread
step-Stepped (add pn pb buff len) m c f r e = add-Stepped m c f pn pb buff len r e
step-Stepped stop m c f r e = (
  record c { thread = record (c.thread) { running = false } },
  m,
  refl,
  record {
    cells = r.cells;
    queue = r.queue;
    items = r.items;
    running = refl;
    in_round = r.in_round;
  },
)
step-Stepped test m c f r e = (
  record c { in_round = c.thread.running },
  m,
  refl,
  record {
    cells = r.cells;
    queue = r.queue;
    items = r.items;
    running = r.running;
    in_round = r.running;
  },
)
step-Stepped consume m c f r e = elim (Bool-cases c.in_round) [
  | inl yes_round ↦ consume-Stepped m c f r.cells r.queue r.items r.running r.in_round yes_round
  | inr no_round ↦ (c, m, rw (r.in_round, no_round), simp (r.in_round, no_round) r)
]

-- Any run of steps, from any state that stands for an abstract queue, and where every buffer that
-- is added has the length that it is given with, `malloc` returns memory that is not NULL and not
-- in use, and no more than 2^31 - 1 buffers are queued: the run goes through without a fault,
-- makes exactly the deliveries of the abstract queue (the buffers in the order of arrival, with
-- the bytes that they had when they were added, and an idle call for an empty queue), and ends in
-- a state that stands for the abstract queue after these steps. What is still queued at the end
-- was not delivered.
pub steps-fifo :
    (ops : List Op) (m : Mem) (c : Config) (f : Fifo)
    → Refines m c f
    → AllEnabled ops c m
    → (c' : Config) × (m' : Mem) × (steps ops c m ≡ ok ((fifo_steps ops f).0, c') m')
      × Refines m' c' (fifo_steps ops f).1
unfolding steps fifo_steps
steps-fifo [] m c f r e = (c, m, refl, r)
steps-fifo (op ∷ ops) m c f r (e, es) =
    let (c1, m1, ran, r1) = step-Stepped op m c f r e in
    let (c2, m2, ran2, r2) = steps-fifo ops m1 c1 (fifo_step op f).1 r1 (rw ran at es) in
    (c2, m2, rw (ran, ran2), r2)
