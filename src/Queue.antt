-- ===== src/Queue.antt =====
-- include/__ngr/__core/__intrusive_queue.hpp: the queue and its laws.
mod Defs
pub mod Laws
pub mod Joins
pub mod Loops
pub mod Splice
unfoldable pub use Defs.*
