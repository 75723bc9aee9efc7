-- ===== src/Examples/Threads.antt =====
-- The theorems on QueueThread among other threads, at runs with one buffer.
use greatone.Base.{
  ℕ, ◌≤◌, ◌==◌, if◌then◌else◌, replicate, ◌≡◌, refl, ◌⊎◌, true, false, none, some, List, [], ◌∷◌,
  ◌++◌, pos, arith,
}
use greatone.Queue.Mem.{
  Mem, ok, fault, store, store_block, write_node, write_block, load, load_block, free, free_block,
}
use greatone.Queue.Links.{Links, lock, unlock, put_front, take_oldest, deliver}
use greatone.Queue.Unlink.{unlink_last}
use greatone.Queue.Laws.{delivery}
use greatone.QueueThread as Queues
use greatone.QueueThread.Steps as Steps
use greatone.QueueThread.Steps.{
  System, Place, between, waiting, woken, Move, add, signal, stop, go, steps,
}
use greatone.QueueThread.Steps.Model.{model_steps}
use greatone.QueueThread.Steps.Agree.{Refines, AllEnabled, Agrees, steps-Agrees}
use greatone.QueueThread.Steps.Wakes.{
  Told, Fed, Call, add_buffer, stop_thread, proceed, prompt, all_added, model,
}
use greatone.QueueThread.Steps.Progress.{steps-finish}
use greatone.QueueThread.Steps.Run.{Accounts, steps-Told, prompt-Fed, steps-fault}

abbrev no_mem : Mem
no_mem = record { nodes = λ p. none; blocks = λ p. none }

abbrev no_links : Links
no_links = record { head = 0; data_count = 0; locked = false }

abbrev at : Place → System
at place = record {
  thread = record { links = no_links; running = true; tag = [] };
  place = place;
  signals = 0;
}

at-Refines : (place : Place) → Refines no_mem (at place) (model [] true place 0)
at-Refines place = record {
  cells = [];
  queue = record { head = refl; count = refl; few = omega arith; unlocked = refl; chain = tt };
  items = refl;
  running = refl;
  place = refl;
  signals = refl;
}

abbrev some_calls : List Call
some_calls =
    proceed
    ∷ proceed
    ∷ add_buffer 1 2 (some (7 ∷ [])) (pos 1)
    ∷ proceed
    ∷ stop_thread
    ∷ proceed
    ∷ []

some_calls-AllEnabled : AllEnabled (prompt some_calls) (at between) no_mem
unfolding Steps.step Steps.give_signal Steps.proceed Steps.begin_consumer Steps.end_consumer
    Steps.take_out Queues.add_buffer Queues.stop_thread put_front lock unlock store store_block
    write_node write_block take_oldest unlink_last load deliver free free_block load_block
some_calls-AllEnabled = (
  tt,
  (
    tt,
    (
      (
        omega arith,
        record { node_ne_null = λ e. cc; block_ne_null = λ e. cc; node = refl; block = refl },
        omega arith,
      ),
      (tt, (tt, (tt, (tt, tt)))),
    ),
  ),
)

steps-Agrees_example :
    Agrees
      (steps (prompt some_calls) (at between) no_mem)
      (model_steps (prompt some_calls) (model [] true between 0))
steps-Agrees_example =
    steps-Agrees (prompt some_calls) no_mem (at between) (model [] true between 0)
      (at-Refines between) some_calls-AllEnabled

steps-Told_example :
    (steps (prompt some_calls) (at between) no_mem ≡ fault)
    ⊎ Accounts Told
        ([] ++ all_added (prompt some_calls))
        (steps (prompt some_calls) (at between) no_mem)
steps-Told_example =
    steps-Told (prompt some_calls) no_mem (at between) (model [] true between 0)
      (at-Refines between) (λ e. cc) some_calls-AllEnabled

prompt-Fed_example :
    Accounts Fed
      ([] ++ all_added (prompt some_calls))
      (steps (prompt some_calls) (at between) no_mem)
prompt-Fed_example =
    prompt-Fed some_calls no_mem (at between) (model [] true between 0) (at-Refines between)
      (refl, (λ e. cc), (λ e. cc)) some_calls-AllEnabled

steps-fault_example :
    steps
      (add 1 2 (some (7 ∷ [])) (pos 1) ∷ go ∷ go ∷ go ∷ go ∷ signal ∷ go ∷ [])
      (at between)
      no_mem
    ≡ fault
steps-fault_example =
    steps-fault no_mem (at between) 1 2 (7 ∷ []) 1 (at-Refines between) (omega arith) (
      omega arith,
      record { node_ne_null = λ e. cc; block_ne_null = λ e. cc; node = refl; block = refl },
      omega arith,
    )

-- A buffer with the byte 7 is queued: its node is at 1 and its block at 2.
abbrev one_mem : Mem
one_mem = record {
  nodes = λ p. if p == 1 then some (record { num = pos 1; buff = 2; next = 0 }) else none;
  blocks = λ p. if p == 2 then some (7 ∷ []) else none;
}

abbrev one_queued : System
one_queued = record {
  thread = record {
    links = record { head = 1; data_count = 1; locked = false };
    running = true;
    tag = [];
  };
  place = woken;
  signals = 0;
}

one_queued-Refines : Refines one_mem one_queued (model ((7 ∷ []) ∷ []) true woken 0)
one_queued-Refines = record {
  cells = record { node = 1; block = 2; bytes = 7 ∷ [] } ∷ [];
  queue = record {
    head = refl;
    count = refl;
    few = omega arith;
    unlocked = refl;
    chain = (
      record { node_ne_null = λ e. cc; block_ne_null = λ e. cc; node = refl; block = refl },
      record { node = refl; block = refl },
      tt,
    );
  };
  items = refl;
  running = refl;
  place = refl;
  signals = refl;
}

steps-finish_example :
    (n : ℕ) × (n ≤ 2)
    × (place' : Place) × (c' : System) × (m' : Mem) × (steps (replicate n go) one_queued one_mem
        ≡ ok (delivery (7 ∷ []) ∷ [], c') m')
    × Refines m' c' (model [] true place' 0)
steps-finish_example =
    steps-finish woken ((7 ∷ []) ∷ []) one_mem one_queued one_queued-Refines (λ e. cc)
      (refl, (λ e e'. cc), (λ e. cc))
