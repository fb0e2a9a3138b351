-- ===== src/Examples.antt =====
-- The theorems applied at concrete inputs.
mod Queues
mod Concurrency
mod Stopping
mod Memory
mod Buffers
mod Heaps
mod Timers
mod Removals
mod Arenas
mod Tasks
