-- ===== src/Scheduler/Task.antt =====
-- include/__ngr/__core/__scheduler.hpp: `__ioring_task` counts the operations in flight for it, and
-- the completion queue counts the requests that are finished.
use model_lib.Base.{
  ℕ, zero, suc, ◌+◌, ◌≡◌, ap, Bool, true, false, ◌&&◌, List, [], ◌∷◌, arith, ◌==◌, if◌then◌else◌,
}
use model_lib.Base.Words.{sub32}

-- `__n_ops_` is an `int`, kept as its bit pattern; `runs` counts the calls of the operation's
-- completion function.
pub record Task : Type 0 where
  pub n_ops : ℕ
  pub runs : ℕ

-- `IORING_CQE_F_MORE` of a completion
pub record Cqe : Type 0 where
  pub more : Bool

-- `__ioring_task::_M_submit`: the counter starts at one. (The operation's submit function fills the
-- entry.)
unfoldable pub task_submit : Task → Task
task_submit t = record t { n_ops = 1 }

-- `__ioring_task::_M_complete`. The decrement is made only if the first test fails.
unfoldable pub task_complete : Cqe → Task → ℕ × Task
task_complete c t =
    let finished = if c.more then 0 else 1 in
    if c.more && t.n_ops == 1 then (finished, record t { runs = t.runs + 1 }) else (
      finished,
      record t { n_ops = sub32 t.n_ops 1; runs = if t.n_ops == 1 then t.runs + 1 else t.runs },
    )

-- `__manual_stop` of a ring task: a completion with no flag.
unfoldable pub manual_stop : Task → ℕ × Task
unfolding task_complete
manual_stop t = task_complete (record { more = false }) t

-- `__ioring_stop_inplace::__complete`: the cancellation drops its own count, and stops the target
-- if that was the last.
unfoldable pub cancel_complete : Task → Task
unfolding manual_stop
cancel_complete t =
    let dropped = record t { n_ops = sub32 t.n_ops 1 } in
    if t.n_ops == 1 then (manual_stop dropped).1 else dropped

-- The completions of one task in order, with the count that `_M_complete` of the queue adds up.
unfoldable pub complete_all : List Cqe → Task → ℕ × Task
complete_all [] t = (0, t)
complete_all (c ∷ cs) t =
    let (n, t') = task_complete c t in let (m, t'') = complete_all cs t' in (n + m, t'')

-- `k` completions that say that more will come, and the last one
abbrev pub multishot : ℕ → List Cqe
multishot zero = record { more = false } ∷ []
multishot (suc k) = record { more = true } ∷ multishot k

-- A submitted task runs its completion function once for each completion of a multishot request,
-- is counted as finished once, and has no operation left in flight.
pub multishot_runs :
    (k : ℕ) (t : Task)
    → complete_all (multishot k) (task_submit t) ≡ (1, record { n_ops = 0; runs = t.runs + k + 1 })
unfolding complete_all task_complete task_submit
multishot_runs zero t = ground arith
multishot_runs (suc k) t =
    let ih = multishot_runs k (record { n_ops = 1; runs = t.runs + 1 }) in
    rw ih (ap (λ (n : ℕ). (0 + 1, record { n_ops = 0; runs = n })) (omega arith))
