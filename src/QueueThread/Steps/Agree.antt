-- ===== src/QueueThread/Steps/Agree.antt =====
-- The steps of QueueThread do what the model does.
use greatone.Base.{
  ℕ, zero, suc, ◌+◌, ◌^◌, ◌<◌, ◌≤◌, ◌≡◌, refl, sym, ap, subst, inl, inr, true, false, Option, none,
  some, List, [], ◌∷◌, ◌++◌, ℤ, pos, negsuc, arith, ltb, if◌then◌else◌, length, take, Bool-cases,
}
use greatone.Queue.Mem.{Ptr, null, Mem, Run, ok, fault}
use greatone.Queue.Chain.{Cell, last, but_last, contents, contents-last}
use greatone.Queue.Links.{Links, Delivery, lock, unlock}
use greatone.Queue.Laws.{
  IsQueue, Fresh, new_cell, delivery, put_front-IsQueue, Served, rest_links, serve, head_ne_null,
}
use greatone.SynQueueThread.Fifo.{After}
use greatone.QueueThread.{QueueThread, add_buffer, stop_thread}
use greatone.QueueThread.Wait.{consume-null}
use greatone.QueueThread.Steps.{
  System, Place, between, in_round, waiting, woken, ended, wake, Move, add, signal, stop, go,
  take_out, begin_consumer, end_consumer, proceed, give_signal, step, steps,
}
use greatone.QueueThread.Steps.Model.{
  Model, model_step, model_steps, then_more, and_then, model_begin, model_end, model_go,
  model_signal,
}

-- The queue in memory stands for that of the model.
pub record Refines (m : Mem) (c : System) (f : Model) : Type 0 where
  pub cells : List Cell
  pub queue : IsQueue m c.thread.links cells
  pub items : f.items ≡ contents cells
  pub running : f.running ≡ c.thread.running
  pub place : f.place ≡ c.place
  pub signals : f.signals ≡ c.signals

-- What a step takes for granted: a buffer has the length that it is given with, `malloc` returns
-- unused memory, and the count of buffers fits its `int`.
abbrev pub Enabled : Move → System → Mem → Type 0
Enabled (add pn pb (some src) (pos n)) c m =
    (n ≤ length src) × Fresh m pn pb × (c.thread.links.data_count + 1 < 2 ^ 31)
Enabled _ c m = Unit {0}

abbrev pub AllEnabled : List Move → System → Mem → Type 0
AllEnabled [] c m = Unit {0}
AllEnabled (mv ∷ mvs) c m = Enabled mv c m × After (λ r m'. AllEnabled mvs r.1 m') (step mv c m)

-- The run has the result that the model has: a fault, or the deliveries and a state that stands for
-- that of the model.
abbrev pub Agrees : Run (List Delivery × System) → Option (List Delivery × Model) → Type 0
Agrees r none = r ≡ fault
Agrees r (some (ds, f)) = (c : System) × (m : Mem) × (r ≡ ok (ds, c) m) × Refines m c f

take_out-served :
    (l : Links) (t : QueueThread) (m : Mem) (c : Cell) (cs : List Cell) (s : Served m l c cs)
    → take_out (record l { locked = true }) t m
      ≡ ok (delivery (last c cs).bytes, record t { links = rest_links c cs }) s.after
unfolding take_out unlock
take_out-served l t m c cs s = rw (s.taken, s.delivered)

take_out-empty : (l : Links) (t : QueueThread) (m : Mem) → l.head ≡ null → take_out l t m ≡ fault
unfolding take_out
take_out-empty l t m e = rw (consume-null l m e)

add-Agrees :
    (m : Mem) (c : System) (f : Model) (pn pb : Ptr) (buff : Option (List ℕ)) (len : ℤ)
    → Refines m c f
    → Enabled (add pn pb buff len) c m
    → Agrees (step (add pn pb buff len) c m) (model_step (add pn pb buff len) f)
unfolding step add_buffer
add-Agrees m c f pn pb none len r e = (c, m, refl, r)
add-Agrees m c f pn pb (some src) (negsuc n) r e = (c, m, refl, r)
add-Agrees m c f pn pb (some src) (pos n) r (fits, fresh, few) = elim (Bool-cases (ltb 0 n)) [
  | inl more ↦
      let (l, m', ran, q') =
        put_front-IsQueue m c.thread.links r.cells pn pb src n r.queue fresh fits
          (omega (arith, r.queue.count)) in
      rw more (
        record c { thread = record (c.thread) { links = l }; signals = c.signals + 1 },
        m',
        rw ran,
        record {
          cells = new_cell pn pb (take n src) ∷ r.cells;
          queue = q';
          items = ap (λ x. x ++ (take n src ∷ [])) r.items;
          running = r.running;
          place = r.place;
          signals = ap (λ x. x + 1) r.signals;
        },
      )
  | inr no_bytes ↦ rw no_bytes (c, m, refl, r)
]

signal-Agrees :
    (n : ℕ) (m : Mem) (c : System) (f : Model)
    → c.signals ≡ n
    → Refines m c f
    → Refines m (give_signal n c) (model_signal n f)
unfolding give_signal
signal-Agrees zero m c f e r = r
signal-Agrees (suc n) m c f e r = record {
  cells = r.cells;
  queue = r.queue;
  items = r.items;
  running = r.running;
  place = ap wake r.place;
  signals = refl;
}

-- The state after the thread's step.
abbrev moved : System → QueueThread → Place → System
moved c t place = record c { thread = t; place = place }

abbrev GoesOn : Mem → System → Place → Option (List Delivery × Model) → Type 0
GoesOn m c place none = proceed place c.thread m ≡ fault
GoesOn m c place (some (ds, f)) =
    (t : QueueThread) × (p : Place) × (m' : Mem) × (proceed place c.thread m ≡ ok (ds, p, t) m')
    × Refines m' (moved c t p) f

begin_consumer-GoesOn :
    (m : Mem) (c : System) (f : Model) (cs : List Cell)
    → IsQueue m c.thread.links cs
    → f.items ≡ contents cs
    → f.running ≡ c.thread.running
    → f.signals ≡ c.signals
    → GoesOn m c in_round (some (model_begin (contents cs) f))
unfolding proceed begin_consumer lock unlock take_out
begin_consumer-GoesOn m c f [] q items running signals = (
  record (c.thread) { links = record (c.thread.links) { locked = false } },
  waiting,
  m,
  rw (q.unlocked, q.head),
  record {
    cells = [];
    queue = record { head = q.head; count = q.count; few = q.few; unlocked = refl; chain = tt };
    items = items;
    running = running;
    place = refl;
    signals = signals;
  },
)
begin_consumer-GoesOn m c f (d ∷ ds) q items running signals = rw (contents-last d ds) (
    let s = serve m c.thread.links d ds q in
    (
      record (c.thread) { links = rest_links d ds },
      between,
      s.after,
      rw (
        q.unlocked,
        head_ne_null m c.thread.links d ds q,
        take_out-served c.thread.links c.thread m d ds s,
      ),
      record {
        cells = but_last d ds;
        queue = s.queue;
        items = refl;
        running = running;
        place = refl;
        signals = signals;
      },
    ))

end_consumer-GoesOn :
    (m : Mem) (c : System) (f : Model) (cs : List Cell)
    → IsQueue m c.thread.links cs
    → f.items ≡ contents cs
    → f.running ≡ c.thread.running
    → f.signals ≡ c.signals
    → GoesOn m c woken (model_end (contents cs) f)
unfolding proceed end_consumer lock unlock take_out
end_consumer-GoesOn m c f [] q items running signals =
    rw (q.unlocked, take_out-empty (record (c.thread.links) { locked = true }) c.thread m q.head)
end_consumer-GoesOn m c f (d ∷ ds) q items running signals = rw (contents-last d ds) (
    let s = serve m c.thread.links d ds q in
    (
      record (c.thread) { links = rest_links d ds },
      between,
      s.after,
      rw (q.unlocked, take_out-served c.thread.links c.thread m d ds s),
      record {
        cells = but_last d ds;
        queue = s.queue;
        items = refl;
        running = running;
        place = refl;
        signals = signals;
      },
    ))

go-GoesOn :
    (place : Place) (m : Mem) (c : System) (f : Model)
    → Refines m c f
    → GoesOn m c place (model_go place f)
unfolding proceed
go-GoesOn between m c f r = (
  c.thread,
  (if c.thread.running then in_round else ended),
  m,
  refl,
  record {
    cells = r.cells;
    queue = r.queue;
    items = r.items;
    running = r.running;
    place = ap (λ b. if b then in_round else ended) r.running;
    signals = r.signals;
  },
)
go-GoesOn in_round m c f r =
    subst (λ x. GoesOn m c in_round (some (model_begin x f))) (sym r.items)
      (begin_consumer-GoesOn m c f r.cells r.queue r.items r.running r.signals)
go-GoesOn waiting m c f r = (
  c.thread,
  waiting,
  m,
  refl,
  record {
    cells = r.cells;
    queue = r.queue;
    items = r.items;
    running = r.running;
    place = refl;
    signals = r.signals;
  },
)
go-GoesOn woken m c f r =
    subst (λ x. GoesOn m c woken (model_end x f)) (sym r.items)
      (end_consumer-GoesOn m c f r.cells r.queue r.items r.running r.signals)
go-GoesOn ended m c f r = (
  c.thread,
  ended,
  m,
  refl,
  record {
    cells = r.cells;
    queue = r.queue;
    items = r.items;
    running = r.running;
    place = refl;
    signals = r.signals;
  },
)

GoesOn-Agrees :
    (m : Mem) (c : System) (o : Option (List Delivery × Model))
    → GoesOn m c c.place o
    → Agrees (step go c m) o
unfolding step
GoesOn-Agrees m c none h = rw h
GoesOn-Agrees m c (some (ds, f)) (t, p, m', ran, r) = (moved c t p, m', rw ran, r)

-- One step.
pub step-Agrees :
    (mv : Move) (m : Mem) (c : System) (f : Model)
    → Refines m c f
    → Enabled mv c m
    → Agrees (step mv c m) (model_step mv f)
unfolding step stop_thread
step-Agrees (add pn pb buff len) m c f r e = add-Agrees m c f pn pb buff len r e
step-Agrees signal m c f r e = (
  give_signal c.signals c,
  m,
  refl,
  subst (λ n. Refines m (give_signal c.signals c) (model_signal n f)) (sym r.signals)
      (signal-Agrees c.signals m c f refl r),
)
step-Agrees stop m c f r e = (
  record c { thread = record (c.thread) { running = false } },
  m,
  refl,
  record {
    cells = r.cells;
    queue = r.queue;
    items = r.items;
    running = refl;
    place = r.place;
    signals = r.signals;
  },
)
step-Agrees go m c f r e =
    subst (λ x. Agrees (step go c m) (model_go x f)) (sym r.place)
      (GoesOn-Agrees m c (model_go c.place f) (go-GoesOn c.place m c f r))

-- What follows a step that went through.
then_more-Agrees :
    (mv : Move) (mvs : List Move) (m m' : Mem) (c c' : System) (ds : List Delivery)
    (o : Option (List Delivery × Model))
    → step mv c m ≡ ok (ds, c') m'
    → Agrees (steps mvs c' m') o
    → Agrees (steps (mv ∷ mvs) c m) (then_more ds o)
unfolding steps
then_more-Agrees mv mvs m m' c c' ds none ran h = rw (ran, h)
then_more-Agrees mv mvs m m' c c' ds (some (es, f)) ran (c'', m'', ran', r) =
    (c'', m'', rw (ran, ran'), r)

and_then-Agrees :
    (mv : Move) (mvs : List Move) (m : Mem) (c : System) (o : Option (List Delivery × Model))
    → Agrees (step mv c m) o
    → After (λ r m'. AllEnabled mvs r.1 m') (step mv c m)
    → ((m' : Mem) (c' : System) (f : Model)
        → Refines m' c' f
        → AllEnabled mvs c' m'
        → Agrees (steps mvs c' m') (model_steps mvs f))
    → Agrees (steps (mv ∷ mvs) c m) (and_then o (model_steps mvs))
unfolding steps
and_then-Agrees mv mvs m c none h es more = rw h
and_then-Agrees mv mvs m c (some (ds, f)) (c', m', ran, r) es more =
    then_more-Agrees mv mvs m m' c c' ds (model_steps mvs f) ran (more m' c' f r (rw ran at es))

-- Any run of steps of the thread and of the others, from any state that stands for one of the
-- model, where every buffer that is added has the length that it is given with, `malloc` returns
-- memory that is not NULL and not in use, and no more than 2^31 - 1 buffers are queued, and a
-- wait ends by a signal only: the run makes exactly the deliveries of the model and ends in a
-- state that stands for the model's; and it is a fault just if the model has one, in which a
-- thread that was woken finds the queue empty.
pub steps-Agrees :
    (mvs : List Move) (m : Mem) (c : System) (f : Model)
    → Refines m c f
    → AllEnabled mvs c m
    → Agrees (steps mvs c m) (model_steps mvs f)
unfolding steps model_steps
steps-Agrees [] m c f r e = (c, m, refl, r)
steps-Agrees (mv ∷ mvs) m c f r (e, es) =
    and_then-Agrees mv mvs m c (model_step mv f) (step-Agrees mv m c f r e) es
      (λ m' c' f' r' e'. steps-Agrees mvs m' c' f' r' e')
