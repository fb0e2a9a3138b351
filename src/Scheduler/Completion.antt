-- ===== src/Scheduler/Completion.antt =====
-- include/__ngr/__core/__scheduler.hpp: the completion queue, a ring that the kernel fills while the
-- loop reads it. What round i of the loop reads of the tail and of the entries is a parameter.
use Prim.Native.Nat.{bit_and}
use native.Mathlib.Nat.{add-zero, mod-eq_of_lt}
use model_lib.Base.{
  ==_iff, ℕ, zero, suc, ◌+◌, ◌-◌, ◌^◌, ◌%◌, ◌≤◌, ◌<◌, ◌≡◌, ◌≢◌, refl, sym, Option, none, some, List,
  [], ◌∷◌, ◌==◌, if◌then◌else◌, arith, length, ne→==false,
}
use model_lib.Base.Words.{add32}
use model_lib.Base.Rings.{slot-mod}
use model_lib.Scheduler.Task.{Task, Cqe, task_complete}

pub record Entry : Type 0 where
  pub user_data : ℕ
  pub cqe : Cqe

-- the tasks, by address
abbrev pub Tasks : Type 0
Tasks = ℕ → Task

abbrev pub put_task : ℕ → Task → Tasks → Tasks
put_task op t ts = λ o. if o == op then t else ts o

-- the requests that are finished, the new head, and the tasks
pub record Drained : Type 0 where
  pub finished : ℕ
  pub head : ℕ
  pub tasks : Tasks

-- One entry: the task is completed.
abbrev pub complete_entry : Entry → Tasks → ℕ × Tasks
complete_entry e ts =
    let (k, t) = task_complete e.cqe (ts e.user_data) in (k, put_task e.user_data t ts)

module _ (tail_at : ℕ → ℕ) (entry_at : ℕ → ℕ → Entry) (mask : ℕ) where
  -- The loop of `_M_complete`, on fuel.
  unfoldable pub complete_loop : ℕ → (i head n : ℕ) → Tasks → Option Drained
  complete_loop zero i head n ts = none
  complete_loop (suc fuel) i head n ts =
      let (k, ts') = complete_entry (entry_at i (bit_and head mask)) ts in
      let rest = complete_loop fuel (i + 1) (add32 head 1) (add32 n k) ts' in
      if head == tail_at i then some (record { finished = n; head = head; tasks = ts }) else rest

  -- `__completion_queue::_M_complete`
  unfoldable pub complete : ℕ → (head : ℕ) → Tasks → Option Drained
  complete fuel head ts = complete_loop fuel 0 head 0 ts

-- Entries completed in order.
unfoldable pub complete_entries : List Entry → Tasks → ℕ × Tasks
complete_entries [] ts = (0, ts)
complete_entries (e ∷ es) ts =
    let (k, ts') = complete_entry e ts in let (m, ts'') = complete_entries es ts' in (k + m, ts'')

-- The kernel's side of a ring of 2 ^ b entries, from round i and the counter h: each round finds the
-- next entry, and then the tail is the head.
abbrev pub Arrives :
    (tail_at : ℕ → ℕ) → (entry_at : ℕ → ℕ → Entry) → (b i h : ℕ) → List Entry → Type 0
Arrives tail_at entry_at b i h [] = tail_at i ≡ h % 2 ^ 32
Arrives tail_at entry_at b i h (e ∷ es) =
    (tail_at i ≢ h % 2 ^ 32)
    × (entry_at i (h % 2 ^ b) ≡ e)
    × Arrives tail_at entry_at b (i + 1) (h + 1) es

abbrev pub finished_of : ℕ → (h : ℕ) → ℕ × Tasks → Drained
finished_of n h (m, ts) = record { finished = (n + m) % 2 ^ 32; head = h % 2 ^ 32; tasks = ts }

regroup : (n k m : ℕ) → (add32 n k + m) % 2 ^ 32 ≡ (n + (k + m)) % 2 ^ 32
regroup n k m = omega arith

module _ (tail_at : ℕ → ℕ) (entry_at : ℕ → ℕ → Entry) (b : ℕ) (small : b ≤ 32) where
  complete_loop-entries :
      (i h n fuel : ℕ) (es : List Entry) (ts : Tasks)
      → length es < fuel
      → n < 2 ^ 32
      → Arrives tail_at entry_at b i h es
      → complete_loop tail_at entry_at (2 ^ b - 1) fuel i (h % 2 ^ 32) n ts
        ≡ some (finished_of n (h + length es) (complete_entries es ts))
  unfolding complete_loop complete_entries
  complete_loop-entries i h n zero es ts enough word arrives = absurd (omega arith)
  complete_loop-entries i h n (suc fuel) [] ts enough word arrives =
      rw
        (
          (==_iff (h % 2 ^ 32) (tail_at i)).1 (sym arrives),
          add-zero h,
          add-zero n,
          mod-eq_of_lt word,
        )
        refl
  complete_loop-entries i h n (suc fuel) (e ∷ es) ts enough word arrives =
      let (k, ts') = complete_entry e ts in
      let ih =
        complete_loop-entries (i + 1) (h + 1) (add32 n k) fuel es ts' (omega arith) (omega arith)
          arrives.2 in
      let next : add32 (h % 2 ^ 32) 1 ≡ (h + 1) % 2 ^ 32 = omega arith in
      let end : h + 1 + length es ≡ h + suc (length es) = omega arith in
      rw
        (
          ne→==false (h % 2 ^ 32) (tail_at i) (λ q. arrives.0 (sym q)),
          slot-mod b h small,
          arrives.1,
          next,
          ih,
          end,
          regroup n k (complete_entries es ts').0,
        )
        refl

  -- Where the kernel fills a ring of 2 ^ b entries, b at most 32, with the entries of a list while the
  -- loop runs, `_M_complete` ends with one unit of fuel more than there are entries; it completes the
  -- tasks of all entries in order, moves the head behind them, and returns how many are finished.
  pub complete-entries :
      (h fuel : ℕ) (es : List Entry) (ts : Tasks)
      → length es < fuel
      → Arrives tail_at entry_at b 0 h es
      → complete tail_at entry_at (2 ^ b - 1) fuel (h % 2 ^ 32) ts
        ≡ some (finished_of 0 (h + length es) (complete_entries es ts))
  unfolding complete
  complete-entries h fuel es ts enough arrives =
      complete_loop-entries 0 h 0 fuel es ts enough (omega arith) arrives
