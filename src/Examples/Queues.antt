-- ===== src/Examples/Queues.antt =====
-- The theorems on the queues, at queues of one buffer and of none.
use greatone.Base.{
  ℕ, ◌≡◌, refl, true, false, none, some, List, [], ◌∷◌, pos, arith, ◌==◌, if◌then◌else◌,
}
use greatone.Queue.Mem.{
  Mem, ok, Cmd, store, store_block, write_node, write_block, load, load_block, free, free_block,
}
use greatone.Queue.Chain.{Cell}
use greatone.Queue.Links.{Links, lock, unlock, put_front, take_oldest, deliver}
use greatone.Queue.Unlink.{unlink_last}
use greatone.Queue.Laws.{IsQueue}
use greatone.Queue.Release.{Cleared}
use greatone.SynQueueThread as Syn
use greatone.SynQueueThread.{SynQueueThread, Config, Op, add, stop, test, consume, steps}
use greatone.SynQueueThread.Fifo.{Fifo, fifo_steps, Refines, AllEnabled, steps-fifo}
use greatone.SynQueueThread.Clear.{clear_queue-frees}
use greatone.QueueThread.{QueueThread}
use greatone.CThread.Process.{HandsOver, process-HandsOver}
use greatone.CThread as CThreads
use greatone.CThread.{CThread}

-- A queue of one buffer, which holds the byte 7: its node is at 1 and its block at 2.
abbrev one_mem : Mem
one_mem = record {
  nodes = λ p. if p == 1 then some (record { num = pos 1; buff = 2; next = 0 }) else none;
  blocks = λ p. if p == 2 then some (7 ∷ []) else none;
}

abbrev no_mem : Mem
no_mem = record { nodes = λ p. none; blocks = λ p. none }

abbrev one_cell : Cell
one_cell = record { node = 1; block = 2; bytes = 7 ∷ [] }

abbrev one_links : Links
one_links = record { head = 1; data_count = 1; locked = false }

abbrev no_links : Links
no_links = record { head = 0; data_count = 0; locked = false }

one_links-IsQueue : IsQueue one_mem one_links (one_cell ∷ [])
one_links-IsQueue = record {
  head = refl;
  count = refl;
  few = omega arith;
  unlocked = refl;
  chain = (
    record { node_ne_null = λ e. cc; block_ne_null = λ e. cc; node = refl; block = refl },
    record { node = refl; block = refl },
    tt,
  );
}

no_links-IsQueue : (m : Mem) → IsQueue m no_links []
no_links-IsQueue m = record {
  head = refl;
  count = refl;
  few = omega arith;
  unlocked = refl;
  chain = tt;
}

abbrev syn_config : Config
syn_config = record {
  thread = record { links = no_links; running = true; tag = [] };
  in_round = false;
}

abbrev no_items : Fifo
no_items = record { items = []; running = true; in_round = false }

no_items-Refines : Refines no_mem syn_config no_items
no_items-Refines = record {
  cells = [];
  queue = no_links-IsQueue no_mem;
  items = refl;
  running = refl;
  in_round = refl;
}

abbrev bytes3 : List ℕ
bytes3 = 5 ∷ 6 ∷ 7 ∷ []

-- Two bytes are queued, delivered, and an empty round follows; then the thread stops.
abbrev syn_ops : List Op
syn_ops =
    add 1 2 (some bytes3) (pos 2) ∷ test ∷ consume ∷ test ∷ consume ∷ stop ∷ test ∷ consume ∷ []

syn_ops-AllEnabled : AllEnabled syn_ops syn_config no_mem
unfolding Syn.step Syn.add_buffer put_front lock unlock store store_block write_node write_block
    Syn.consumer take_oldest unlink_last load deliver free free_block load_block Syn.idle
    Syn.stop_thread
syn_ops-AllEnabled = (
  (
    omega arith,
    record { node_ne_null = λ e. cc; block_ne_null = λ e. cc; node = refl; block = refl },
    omega arith,
  ),
  (tt, (tt, (tt, (tt, (tt, (tt, (tt, tt))))))),
)

steps-fifo_example :
    (c' : Config) × (m' : Mem) × (steps syn_ops syn_config no_mem
      ≡ ok ((fifo_steps syn_ops no_items).0, c') m')
    × Refines m' c' (fifo_steps syn_ops no_items).1
steps-fifo_example =
    steps-fifo syn_ops no_mem syn_config no_items no_items-Refines syn_ops-AllEnabled

abbrev one_syn : SynQueueThread
one_syn = record { links = one_links; running = true; tag = [] }

clear_queue-frees_example :
    (m' : Mem) × (Syn.clear_queue one_syn one_mem ≡ ok (record one_syn { links = one_links }) m')
    × Cleared one_mem m' (one_cell ∷ [])
clear_queue-frees_example = clear_queue-frees one_syn one_mem (one_cell ∷ []) one_links-IsQueue

abbrev one_thread : QueueThread
one_thread = record { links = one_links; running = true; tag = [] }

abbrev no_thread : QueueThread
no_thread = record { links = no_links; running = true; tag = [] }

-- A wait that another thread's signal ends.
abbrev wakes : Links → Cmd Links
wakes l m = ok (record one_links { locked = true }) one_mem

abbrev c_thread : CThread
c_thread = record { links = one_links; running = true; master_point = 3; callback = 4 }

-- A queue of two buffers, 7 the older one, at 1 and 2, and 9 at 3 and 4.
abbrev two_mem : Mem
two_mem = record {
  nodes = λ p.
      if p == 1
      then some (record { num = pos 1; buff = 2; next = 0 })
      else if p == 3
      then some (record { num = pos 1; buff = 4; next = 1 })
      else none;
  blocks = λ p. if p == 2 then some (7 ∷ []) else if p == 4 then some (9 ∷ []) else none;
}

abbrev two_cells : List Cell
two_cells = record { node = 3; block = 4; bytes = 9 ∷ [] } ∷ one_cell ∷ []

abbrev two_links : Links
two_links = record { head = 3; data_count = 2; locked = false }

two_links-IsQueue : IsQueue two_mem two_links two_cells
two_links-IsQueue = record {
  head = refl;
  count = refl;
  few = omega arith;
  unlocked = refl;
  chain = (
    record { node_ne_null = λ e. cc; block_ne_null = λ e. cc; node = refl; block = refl },
    record { node = refl; block = refl },
    (
      record { node_ne_null = λ e. cc; block_ne_null = λ e. cc; node = refl; block = refl },
      record { node = refl; block = refl },
      tt,
    ),
  );
}

abbrev two_thread : QueueThread
two_thread = record { links = two_links; running = true; tag = [] }

abbrev two_c_thread : CThread
two_c_thread = record { links = two_links; running = true; master_point = 3; callback = 4 }

process-HandsOver_example :
    HandsOver 1 two_cells two_c_thread (CThreads.process (wakes ∷ []) two_c_thread two_mem)
process-HandsOver_example =
    process-HandsOver (wakes ∷ []) two_c_thread two_mem two_cells two_links-IsQueue (omega arith)
