-- ===== src/Queue.antt =====
-- The linked queue that the thread classes of temp/Common share: its memory, its chain of nodes,
-- the removal of the oldest node, and the operations on the head, the count and the mutex.
pub mod Mem
pub mod Chain
pub mod Unlink
pub mod Links
pub mod Laws
pub mod Release
