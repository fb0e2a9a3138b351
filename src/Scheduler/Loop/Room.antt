-- ===== src/Scheduler/Loop/Room.antt =====
-- include/__ngr/__core/__scheduler.hpp: requests in flight against the room in the completion queue.
use mathlib.Core.Path.{subst}
use model_lib.Base.{
  ℕ, ◌+◌, ◌-◌, ◌^◌, ◌%◌, ◌≤◌, ◌<◌, ◌≡◌, refl, ap, sym, ◌∙◌, Bool, true, false, ◌&&◌, not, Option,
  some, List, [], ◌∷◌, ◌++◌, map, ltb, arith, length, Bool-cases, inl, inr,
}
use model_lib.Base.Words.{add32, sub32, sub64}
use model_lib.Store.{Ptr, null}
use model_lib.Heap.Trees.{Tree, count}
use model_lib.Heap.Push.{IsHeap}
use model_lib.Scheduler.Submission.{put, Ring, submit, submit_loop, umin}
use model_lib.Scheduler.Completion.{
  finished_of, Entry, Drained, complete, complete_entries, Arrives, complete-entries,
}
use model_lib.Scheduler.Timers.{
  stops, stopping_all, schedule, timer_commands, schedule-Scheduled, times,
}
use Prim.Native.Nat.{bit_and}
use model_lib.Scheduler.Loop.{drained, submitted, Loop, io_uring_submit, run_some}

-- The loop of the submission queue adds no more than it may.
submit_loop-room :
    (is_cancel : ℕ → Bool) (mask : ℕ) (ops : List ℕ) (max r tail : ℕ) (stop : Bool) (ud ar : ℕ → ℕ)
    → r ≤ max
    → (submit_loop is_cancel mask ops max r tail stop ud ar).added ≤ max
unfolding submit_loop
submit_loop-room is_cancel mask [] max r tail stop ud ar h = h
submit_loop-room is_cancel mask (op ∷ ops) max r tail stop ud ar h = elim (Bool-cases (ltb r max)) [
  | inl lt ↦ elim (Bool-cases (stop && not (is_cancel op))) [
    | inl halt ↦ rw (lt, halt) (submit_loop-room is_cancel mask ops max r tail true ud ar h)
    | inr go ↦
        rw (lt, go)
          (submit_loop-room is_cancel mask ops max (r + 1) (add32 tail 1) false
            (put ud (bit_and tail mask) op) (put ar (bit_and tail mask) (bit_and tail mask))
            (ground (arith, lt)))
  ]
  | inr ge ↦ rw ge h
]

umin-le : (a b : ℕ) → umin a b ≤ a
unfolding umin
umin-le a b = ground arith

pub submit-room :
    (is_cancel : ℕ → Bool) (q : Ring) (ops : List ℕ) (max : ℕ) (stop : Bool)
    → (submit is_cancel q ops max stop).0.added ≤ max
unfolding submit
submit-room is_cancel q ops max stop = omega (
  arith,
  umin-le max (sub32 q.n_slot (sub32 q.tail q.head)),
  submit_loop-room is_cancel q.mask ops (umin max (sub32 q.n_slot (sub32 q.tail q.head))) 0 q.tail
      stop q.user_data q.array (omega arith),
)

module _ (key : Ptr → ℕ) (is_cancel : ℕ → Bool) where
  -- The outcome of a call with commands that schedule timers.
  abbrev pub Advanced : ℕ → List Ptr → Tree → (cq_entries : ℕ) → Option Loop → Type 0
  Advanced n ps t cq_entries o =
      (l : Loop) × (t' : Tree) × (o ≡ some l)
      × (l.n_total ≤ cq_entries)
      × IsHeap key l.heap (n + length ps) t'
      × ((b : Ptr) → count b t' ≡ times key b ps + count b t)

  submitted-room :
      (stop : Bool) (l : Loop)
      → l.n_total ≤ l.cq_entries
      → l.cq_entries < 2 ^ 32
      → (submitted is_cancel stop l).n_total ≤ l.cq_entries
  unfolding submitted
  submitted-room stop l fits word = omega (
    arith,
    fits,
    word,
    submit-room is_cancel l.ring l.io_pending (sub32 l.cq_entries (l.n_total % 2 ^ 32)) stop,
  )

  io_uring_submit-Advanced :
      (l : Loop) (n : ℕ) (t : Tree) (ps : List Ptr)
      → l.n_total ≤ l.cq_entries
      → l.cq_entries < 2 ^ 32
      → l.dr_pending ≡ map schedule ps
      → IsHeap key l.heap n t
      → n + length ps + 1 < 2 ^ 64
      → times key null ps ≡ 0
      → ((b : Ptr) → times key b ps + count b t ≤ 1)
      → Advanced n ps t l.cq_entries (io_uring_submit key is_cancel false l)
  unfolding io_uring_submit
  io_uring_submit-Advanced l n t ps fits word commands heap room nn apart =
      let (h, t', run, next, counts) = schedule-Scheduled key ps l.heap n t heap room nn apart in
      let run' : timer_commands key false l.dr_pending l.heap ≡ some ([], h) =
        ap (λ c. timer_commands key false c l.heap) commands ∙ run in
      (
        record (submitted is_cancel false l) {
          dr_pending = [];
          heap = h;
          timers_stopped = (submitted is_cancel false l).timers_stopped ++ [];
        },
        t',
        rw run' refl,
        submitted-room false l fits word,
        next,
        counts,
      )

  -- `_M_run_some` without a stop, where the kernel's entries complete no more requests than are in
  -- flight, the requests in flight have room in the completion queue, and the commands schedule timers
  -- that are apart from each other and from the heap: whatever tasks the completion functions submit
  -- meanwhile, it ends, the requests in flight still have room, and the timers are in the heap.
  pub run_some-Advanced :
      (tail_at : ℕ → ℕ) (entry_at : ℕ → ℕ → Entry) (again : List ℕ) (b h fuel : ℕ) (es : List Entry)
      (l : Loop) (n : ℕ) (t : Tree) (ps : List Ptr)
      → b ≤ 32
      → length es < fuel
      → Arrives tail_at entry_at b 0 h es
      → l.cq_mask ≡ 2 ^ b - 1
      → l.cq_head ≡ h % 2 ^ 32
      → (complete_entries es l.tasks).0 ≤ l.n_total
      → l.n_total ≤ l.cq_entries
      → l.cq_entries < 2 ^ 32
      → l.dr_pending ≡ map schedule ps
      → IsHeap key l.heap n t
      → n + length ps + 1 < 2 ^ 64
      → times key null ps ≡ 0
      → ((y : Ptr) → times key y ps + count y t ≤ 1)
      → Advanced n ps t l.cq_entries (run_some key is_cancel tail_at entry_at again fuel false l)
  unfolding run_some
  run_some-Advanced tail_at entry_at again b h fuel es l n t ps small enough arrives mask head few
        fits word commands heap room nn apart =
      let d : Drained = finished_of 0 (h + length es) (complete_entries es l.tasks) in
      let run : complete tail_at entry_at l.cq_mask fuel l.cq_head l.tasks ≡ some d =
        rw (mask, head)
          (complete-entries tail_at entry_at b small h fuel es l.tasks enough arrives) in
      let l' : Loop = record l {
        cq_head = d.head;
        tasks = d.tasks;
        n_total = sub64 l.n_total d.finished;
        io_pending = again ++ l.io_pending;
      } in
      subst
        (λ o. Advanced n ps t l.cq_entries (drained key is_cancel tail_at entry_at again o false l))
        (sym run)
        (io_uring_submit-Advanced l' n t ps (omega (arith, few, fits, word)) word commands heap room
          nn apart)

  -- Once a stop is requested, `_M_io_uring_submit` ends, stops the timers of all pending commands in
  -- order, keeps the requests in flight within the completion queue, and leaves the heap as it is.
  pub io_uring_submit-stopping :
      (l : Loop)
      → l.n_total ≤ l.cq_entries
      → l.cq_entries < 2 ^ 32
      → (m : Loop) × (io_uring_submit key is_cancel true l ≡ some m)
        × (m.n_total ≤ l.cq_entries)
        × (m.timers_stopped ≡ l.timers_stopped ++ map stops l.dr_pending)
        × (m.dr_pending ≡ [])
        × (m.heap ≡ l.heap)
  unfolding io_uring_submit submitted
  io_uring_submit-stopping l fits word = (
    record (submitted is_cancel true l) {
      dr_pending = [];
      heap = l.heap;
      timers_stopped = l.timers_stopped ++ map stops l.dr_pending;
    },
    rw (stopping_all key l.dr_pending l.heap) refl,
    submitted-room true l fits word,
    refl,
    refl,
    refl,
  )
