-- ===== src/Scheduler/Loop.antt =====
-- include/__ngr/__core/__scheduler.hpp: `_M_io_uring_submit` and `_M_run_some`.
pub mod Room
use model_lib.Base.{
  ℕ, zero, suc, ◌+◌, ◌-◌, ◌^◌, ◌%◌, ◌≤◌, ◌<◌, ◌≡◌, ◌≢◌, refl, ap, sym, ◌∙◌, Bool, true, false, ◌&&◌,
  not, Option, none, some, List, [], ◌∷◌, ◌++◌, map, ◌==◌, ltb, if◌then◌else◌, arith, length,
}
use model_lib.Base.Words.{add64, sub32, sub64}
use model_lib.Store.{Ptr, null}
use model_lib.Heap.{Heap}
use model_lib.Scheduler.Submission.{Ring, Pass, submit, submit_loop, umin}
use model_lib.Scheduler.Completion.{Entry, Tasks, Drained, complete}
use model_lib.Scheduler.Timers.{Command, timer_commands}

-- The scheduler's state that the loop's own thread uses; `stopped` and `timers_stopped` record the
-- calls that stop tasks and timers.
pub record Loop : Type 0 where
  pub ring : Ring
  pub cq_head : ℕ
  pub cq_mask : ℕ
  pub cq_entries : ℕ
  pub tasks : Tasks
  pub n_total : ℕ
  pub n_newly : ℕ
  pub io_pending : List ℕ
  pub dr_pending : List Command
  pub heap : Heap
  pub stopped : List ℕ
  pub timers_stopped : List Ptr

-- `_M_io_uring_submit` behind the loop over the commands
abbrev pub with_timers : Option (List Ptr × Heap) → Loop → Option Loop
with_timers none l = none
with_timers (some (ts, h)) l =
    some (record l { dr_pending = []; heap = h; timers_stopped = l.timers_stopped ++ ts })

-- `_M_io_uring_submit`, up to the commands. The count of operations that submitting a task sets
-- (Scheduler/Task) is not followed here: `tasks` is what the completions left.
unfoldable pub submitted : (ℕ → Bool) → Bool → Loop → Loop
submitted is_cancel stop l =
    let max = sub32 l.cq_entries (l.n_total % 2 ^ 32) in
    let (p, q) = submit is_cancel l.ring l.io_pending max stop in
    record l {
      ring = q;
      n_total = add64 l.n_total p.added;
      n_newly = add64 l.n_newly p.added;
      io_pending = p.pending;
      stopped = l.stopped ++ p.stopped;
    }

module _ (key : Ptr → ℕ) (is_cancel : ℕ → Bool) where
  -- `_M_io_uring_submit`
  unfoldable pub io_uring_submit : Bool → Loop → Option Loop
  io_uring_submit stop l =
      with_timers (timer_commands key stop l.dr_pending l.heap) (submitted is_cancel stop l)

  module _ (tail_at : ℕ → ℕ) (entry_at : ℕ → ℕ → Entry) where
    -- `_M_run_some` behind the completions. The completion functions that `_M_complete` has called, and
    -- the coroutines that they resumed, reach the state here by `_M_submit` only, which pushes a task
    -- to the front of the pending ones: `again` is what they have submitted, the last one first.
    abbrev pub drained : (again : List ℕ) → Option Drained → Bool → Loop → Option Loop
    drained again none stop l = none
    drained again (some d) stop l = io_uring_submit stop (record l {
      cq_head = d.head;
      tasks = d.tasks;
      n_total = sub64 l.n_total d.finished;
      io_pending = again ++ l.io_pending;
    })

    -- `_M_run_some`, where `stop` says whether a stop was requested by the end of the completions.
    unfoldable pub run_some : (again : List ℕ) → ℕ → Bool → Loop → Option Loop
    run_some again fuel stop l =
        drained again (complete tail_at entry_at l.cq_mask fuel l.cq_head l.tasks) stop l
