-- ===== src/Intake.antt =====
-- include/__ngr/__core/__scheduler.hpp: the submission of a task by another thread, and the end of
-- `_M_run_until_stop` that closes the intake. The threads interleave, one atomic access at a time.
pub mod Closing
use model_lib.Base.{
  ℕ, zero, suc, ◌+◌, ◌-◌, ◌≡◌, ◌==◌, List, [], ◌∷◌, Bool, true, false, if◌then◌else◌,
}
use model_lib.Base.Integers.{ℤ, pos, negsuc}

-- `__no_new_submit_`
abbrev pub no_new_submit : ℤ
no_new_submit = negsuc 0

-- What a round of the compare-exchange loop of `_M_submit` does with the count it meets: give up and
-- stop the task by hand, or exchange the count for the next.
pub data Attempt : Type 0 where
  stop_task : Attempt
  count_in : ℤ → Attempt

unfoldable pub submit_attempt : ℤ → Attempt
submit_attempt (pos n) = count_in (pos (suc n))
submit_attempt (negsuc zero) = stop_task
submit_attempt (negsuc (suc n)) = count_in (negsuc n)

-- `fetch_sub(1)`
unfoldable pub count_out : ℤ → ℤ
count_out (pos zero) = negsuc zero
count_out (pos (suc n)) = pos n
count_out (negsuc n) = negsuc (suc n)

-- The exchange that closes succeeds at a count of zero.
unfoldable pub close_attempt : ℤ → Bool
close_attempt (pos zero) = true
close_attempt (pos (suc n)) = false
close_attempt (negsuc n) = false

-- The submitting threads are alike, so they are counted: `counted` have incremented the count and
-- not yet pushed their task, `pushed` have pushed it and not yet decremented the count. `begun` is
-- how many calls have passed their loop, `remote` how many tasks are in the request queues, `taken`
-- how many the loop accepted, and `stopped` how many were stopped by hand; `done` says that the loop
-- accepted for the last time.
pub record Intake : Type 0 where
  pub in_flight : ℤ
  pub counted : ℕ
  pub pushed : ℕ
  pub begun : ℕ
  pub remote : ℕ
  pub taken : ℕ
  pub stopped : ℕ
  pub done : Bool

abbrev pub start : Intake
start = record {
  in_flight = pos 0;
  counted = 0;
  pushed = 0;
  begun = 0;
  remote = 0;
  taken = 0;
  stopped = 0;
  done = false;
}

-- `_M_accept_remote_request`
unfoldable pub accept : Intake → Intake
accept s = record s { taken = s.taken + s.remote; remote = 0 }

pub data Step (s : Intake) : Intake → Type 0 where
  enter :
      (z : ℤ)
      → submit_attempt s.in_flight ≡ count_in z
      → Step s (record s { in_flight = z; counted = suc s.counted; begun = suc s.begun })
  refuse :
      submit_attempt s.in_flight ≡ stop_task
      → Step s (record s { stopped = suc s.stopped; begun = suc s.begun })
  push :
      (n : ℕ)
      → s.counted ≡ suc n
      → Step s (record s { counted = n; pushed = suc s.pushed; remote = suc s.remote })
  leave :
      (n : ℕ)
      → s.pushed ≡ suc n
      → Step s (record s { in_flight = count_out s.in_flight; pushed = n })
  take_some : Step s (accept s)
  close : close_attempt s.in_flight ≡ true → Step s (record s { in_flight = no_new_submit })
  take_last : s.in_flight ≡ no_new_submit → Step s (record (accept s) { done = true })

pub data Reach : Intake → Type 0 where
  here : Reach start
  later : {s s' : Intake} → Reach s → Step s s' → Reach s'
