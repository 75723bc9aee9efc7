-- ===== src/Examples.antt =====
-- The theorems on concrete inputs.
mod Queues
mod Media
mod Codecs
mod Cameras
mod Entries
mod Services
mod Sources
mod Times
mod Streams
mod Threads
