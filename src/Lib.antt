-- ===== src/Lib.antt =====
-- A model of the run-time library under include/__ngr: the scheduler over io_uring, the containers
-- and allocators that it stands on, and the multishot receive of the program in source/main.cxx.
--
-- Parts and files:
--   Base: tests, lists, machine words, rings of slots, logarithms, signed results.
--   Store: the `next` links of intrusive nodes, commands over them, and list segments.
--   Queue: include/__ngr/__core/__intrusive_queue.hpp. Each member function is a command over the
--     links (Queue/Defs); a null dereference or a failed assert is `none`. The other files hold the
--     laws: Laws, Joins, Loops, Splice.
--   RoundUp: include/__ngr/__core/__round_up.hpp.
--   Frames: include/__ngr/__core/__allocator.hpp, the stack of coroutine frames. A chunk is known by
--     its place in the list of chunks, and `operator new` is a parameter.
--   Coroutine: include/__ngr/__core/__task.hpp and __task_facade.hpp: the frames of coroutines on the
--     stack allocator of their thread (`operator new`, `operator delete`, `_M_do_execute`), and
--     Coroutine/Promise, the promise of a task, and how the stop of a coroutine is forwarded to the
--     task that it awaits. An allocator is known by its address.
--   Segments: include/__ngr/__core/__atomic_segment_array.hpp, its bounded table of segments, read by a
--     fold; `std::bit_width` is written by the count of leading zeros, and whether `operator new` has
--     memory is a parameter.
--   Blocks: include/__ngr/__protocal/__memory_resource.hpp, size classes and blocks.
--   Arena: include/__ngr/__core/__memory_resource.hpp: Remote (`__remote_source`, a ring of batches of
--     free blocks), Local (`__local_source`, `__acquire`, `__release`). Local takes the shared source
--     as an interface, which Accounts gives its laws and Promise fills with Remote. Chains of blocks
--     are lists there: what the links do is the matter of Queue and Inbox. A call that would spin
--     until another thread acts is `spins`, an access out of bounds `fault`.
--   Circular: include/__ngr/__core/__circular_buffer.hpp.
--   Handles: include/__ngr/__core/__file_descriptor.hpp and __memory_mapped_region.hpp.
--   Stop: include/__ngr/__core/__stop_inplace.hpp: the state byte under interleaved threads,
--     (Stop/Callbacks) the list of callbacks that it guards, and (Stop/Requests) whole operations of
--     a source, its tokens and its callback objects, with no other thread in between.
--   Scheduler: include/__ngr/__core/__scheduler.hpp: Wake (`_M_notify` against the kernel calls of
--     `_M_io_uring_enter` and `_M_run_until_stop`), Task (`__ioring_task`), Submission (`__submission_queue::_M_submit`),
--     Completion (`__completion_queue::_M_complete`), Deadline (the timers' keys),
--     Timers (the commands for the heap), Loop (`_M_io_uring_submit`, `_M_run_some`), Kernel and Counts
--     (the kernel's call in `_M_io_uring_enter`), Regions (the sizes of the mapped rings).
--   Intake: include/__ngr/__core/__scheduler.hpp: submissions from other threads against the end of
--     `_M_run_until_stop`.
--   Inbox: include/__ngr/__core/__atomic_intrusive_queue.hpp, and Mailbox:
--     include/__ngr/__core/__intrusive_mpsc_queue.hpp, each operation undisturbed.
--   Heap: include/__ngr/__core/__intrusive_heap.hpp, the heap of timers: Heap (`_M_push`),
--     Heap/Removal (`_M_pop`, `__remove_least_leaf`, `__heap_down_sink`), Heap/Erase (`_M_remove`,
--     `__heap_up_percolate`). Trees stand for heaps (Heap/Trees, Cut, Sink); the other files follow
--     the links through the loops.
--   Receive: source/main.cxx, `__async_receive` and its ring of provided buffers.
--   Examples: the theorems at concrete inputs.
--
-- The scheduler takes its pending tasks from intrusive queues, which it fills from the request
-- queues by a fold over a segment array; a receive is a task of the scheduler. A turn of the loop
-- (`_M_run_some`) completes what the completion queue holds, fills the submission queue, and puts
-- the scheduled timers into the heap; what the completion functions submit meanwhile is a parameter.
-- Stopping goes through the stop source: a task that is awaited adds a callback to its parent's
-- source, which forwards a stop to the task's own source.
--
-- Numbers: unsigned words wrap at 2^16, 2^32 or 2^64, written out where the source has them; a
-- signed counter that is only counted is kept as its bit pattern, a signed result as an integer.
--
-- Fuel: loops over chains run on fuel, and one round more than there are nodes is enough; the frame
-- allocator needs at most three rounds more than there are chunks; the outer loop of the fold and
-- the loops of the circular buffer need one more than there are elements; a heap of less than 2^64
-- nodes has less than 65 levels; the completion queue's loop needs one more than there are entries;
-- the shared source of blocks spins 16 times, maps memory and pops, in at most 18 rounds; a
-- stop needs one round more than there are callbacks.
-- Where a loop has fuel, a theorem about it says that it ends.
--
-- Memory order: interleavings are of whole atomic accesses, in one order that all threads see.
--
-- Not modelled: the coroutine machinery of the compiler, spawning, system calls, the loop of
-- `_M_run_until_stop` but for its calls of the kernel (Scheduler/Wake), other threads in the middle of an operation of Inbox,
-- Mailbox and Arena/Remote, and the reference copies (`.in`) and backups (`.bak`) beside the sources.
-- A removal from the heap below its root is modelled and run at an example, without a theorem.
pub mod Arena
pub mod Base
pub mod Store
pub mod Queue
pub mod RoundUp
pub mod Blocks
pub mod Segments
pub mod Frames
pub mod Coroutine
pub mod Scheduler
pub mod Receive
pub mod Circular
pub mod Stop
pub mod Handles
pub mod Intake
pub mod Inbox
pub mod Mailbox
pub mod Heap
pub mod Examples
