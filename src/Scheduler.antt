-- ===== src/Scheduler.antt =====
-- include/__ngr/__core/__scheduler.hpp: the parts of the io_uring event loop.
pub mod Wake
pub mod Task
pub mod Submission
pub mod Completion
pub mod Deadline
pub mod Timers
pub mod Loop
pub mod Kernel
pub mod Counts
pub mod Regions
