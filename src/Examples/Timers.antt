-- ===== src/Examples/Timers.antt =====
-- A turn of the scheduler's loop over a heap of timers.
use model_lib.Base.Integers.{pos}
use model_lib.Scheduler.Kernel.{enter_call, after_enter}
use model_lib.Scheduler.Counts.{InFlight, completed, turn-InFlight}
use model_lib.Scheduler.Regions.{Params, ring_sizes, cq_bytes, ring_sizes-cover}
use model_lib.Base.{◌*◌, ◌+◌, ℕ, ◌≤◌, ◌≡◌, Bool, true, false, refl, some, [], ◌∷◌, ◌++◌, map, arith}
use model_lib.Heap.Trees.{node, leaf}
use model_lib.Heap.Erase.{remove}
use model_lib.Heap.Root.{Removed, remove-root}
use model_lib.Scheduler.Submission.{Ring}
use model_lib.Scheduler.Task.{Task, task_complete}
use model_lib.Scheduler.Completion.{
  Entry, Arrives, complete, complete-entries, complete_entries, finished_of,
}
use model_lib.Scheduler.Timers.{schedule, stops}
use model_lib.Scheduler.Loop.{submitted, Loop, io_uring_submit, run_some}
use model_lib.Scheduler.Loop.Room.{Advanced, run_some-Advanced, io_uring_submit-stopping}
use model_lib.Examples.Heaps.{by_address, two_timers, two_tree, two_timers-IsHeap}

-- A task that the kernel has finished, the only entry.
abbrev last_entry : Entry
last_entry = record { user_data = 7; cqe = record { more = false } }

abbrev running : ℕ → Task
running op = record { n_ops = 1; runs = 0 }

abbrev one_tail : ℕ → ℕ
one_tail i = 1

abbrev one_entry : ℕ → ℕ → Entry
one_entry i m = last_entry

one_Arrives : Arrives one_tail one_entry 2 0 0 (last_entry ∷ [])
one_Arrives = (λ e. absurd (omega (arith, e)), refl, refl)

complete-entries_example :
    complete one_tail one_entry 3 2 0 running
    ≡ some (finished_of 0 1 (complete_entries (last_entry ∷ []) running))
complete-entries_example =
    complete-entries one_tail one_entry 2 (omega arith) 0 2 (last_entry ∷ []) running (omega arith)
      one_Arrives

abbrev empty_ring : Ring
empty_ring = record { head = 0; tail = 0; mask = 3; n_slot = 4; user_data = λ i. 0; array = λ i. 0 }

abbrev no_cancel : ℕ → Bool
no_cancel op = false

abbrev waiting : Loop
waiting = record {
  ring = empty_ring;
  cq_head = 0;
  cq_mask = 3;
  cq_entries = 4;
  tasks = running;
  n_total = 1;
  n_newly = 0;
  io_pending = 8 ∷ [];
  dr_pending = schedule 1 ∷ [];
  heap = two_timers;
  stopped = [];
  timers_stopped = [];
}

one_finished : (complete_entries (last_entry ∷ []) running).0 ≤ 1
unfolding complete_entries task_complete
one_finished = omega arith

run_some-Advanced_example :
    Advanced by_address no_cancel 2
      (1 ∷ [])
      two_tree
      4
      (run_some by_address no_cancel one_tail one_entry (9 ∷ []) 2 false waiting)
run_some-Advanced_example =
    run_some-Advanced by_address no_cancel one_tail one_entry (9 ∷ []) 2 0 2 (last_entry ∷ [])
      waiting 2 two_tree (1 ∷ []) (omega arith) (omega arith) one_Arrives refl refl one_finished
      (omega arith) (omega arith) refl two_timers-IsHeap (omega arith) refl (λ b. ground arith)

io_uring_submit-stopping_example :
    (m : Loop) × (io_uring_submit by_address no_cancel true waiting ≡ some m)
    × (m.n_total ≤ 4)
    × (m.timers_stopped ≡ [] ++ map stops (schedule 1 ∷ []))
    × (m.dr_pending ≡ [])
    × (m.heap ≡ two_timers)
io_uring_submit-stopping_example =
    io_uring_submit-stopping by_address no_cancel waiting (omega arith) (omega arith)

remove-root_example : Removed by_address 2 two_tree 1 (remove by_address 2 two_timers)
remove-root_example =
    remove-root by_address two_timers 1 2 (node 5 leaf leaf) leaf two_timers-IsHeap (omega arith)

-- Two requests in flight, which the kernel has seen.
abbrev two_in_flight : Loop
two_in_flight = record waiting { n_total = 2; n_newly = 0; cq_entries = 8 }

turn-InFlight_example :
    InFlight (submitted no_cancel false (completed 1 two_in_flight))
    × ((enter_call (λ p. 100) 40 (submitted no_cancel false (completed 1 two_in_flight))).to_submit
        ≡ (submitted no_cancel false (completed 1 two_in_flight)).n_newly)
    × (m : Loop) × (after_enter (pos 0) (submitted no_cancel false (completed 1 two_in_flight))
        ≡ some m)
    × InFlight m
    × (m.n_newly + 0 ≡ (submitted no_cancel false (completed 1 two_in_flight)).n_newly)
turn-InFlight_example =
    turn-InFlight no_cancel false (λ p. 100) 40 1 0 two_in_flight
      (record { newly = omega arith; total = omega arith; word = omega arith }) (omega arith)
      (omega arith)

-- Rings of 1024 and 2048 entries, mapped at once.
abbrev ring_params : Params
ring_params = record {
  flags = 0;
  features = 1;
  sq_entries = 1024;
  cq_entries = 2048;
  sq_array = 33088;
  cq_cqes = 64;
}

ring_sizes-cover_example :
    (33088 + 4 * 1023 + 4 ≤ (ring_sizes ring_params).sq)
    × (64 * 1023 + 64 ≤ (ring_sizes ring_params).sqe)
    × (64 + 16 * 2047 + 16 ≤ cq_bytes (ring_sizes ring_params))
ring_sizes-cover_example =
    ring_sizes-cover ring_params 1023 2047 (omega arith) (omega arith) (omega arith) (omega arith)
