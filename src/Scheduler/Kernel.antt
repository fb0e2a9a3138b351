-- ===== src/Scheduler/Kernel.antt =====
-- include/__ngr/__core/__scheduler.hpp: `_M_io_uring_enter` around the kernel's call: its arguments, the
-- timeout, and what the result does to the count of new requests. The state word is in Wake.
use model_lib.Base.{
  inr, inl, Bool-cases, leb, ℕ, zero, suc, ◌+◌, ◌-◌, ◌*◌, ◌/◌, ◌%◌, ◌<◌, ◌≡◌, refl, false, Option,
  none, some, ◌==◌, if◌then◌else◌, min, arith,
}
use model_lib.Base.Integers.{ℤ, pos, negsuc}
use model_lib.Base.Words.{u32, sub64}
use model_lib.Store.{Ptr, null}
use model_lib.Heap.{of_root}
use model_lib.Scheduler.Loop.{Loop}

abbrev pub per_second : ℕ
per_second = 1000000000

-- `__kernel_timespec`
pub record Timespec : Type 0 where
  pub sec : ℕ
  pub nsec : ℕ

-- Division and remainder towards zero, by a positive number.
abbrev pub negated : ℕ → ℤ
negated zero = pos 0
negated (suc n) = negsuc n

abbrev pub quotient : ℤ → ℕ → ℤ
quotient (pos n) d = pos (n / d)
quotient (negsuc n) d = negated ((n + 1) / d)

abbrev pub remainder : ℤ → ℕ → ℤ
remainder (pos n) d = pos (n % d)
remainder (negsuc n) d = negated ((n + 1) % d)

-- from below at 0
abbrev pub at_least_zero : ℤ → ℕ
at_least_zero (pos n) = n
at_least_zero (negsuc n) = 0

-- `__duration_to_timespec`, of nanoseconds
unfoldable pub duration_to_timespec : ℤ → Timespec
duration_to_timespec d = record {
  sec = at_least_zero (quotient d per_second);
  nsec = min (at_least_zero (remainder d per_second)) 999999999;
}

-- the nanoseconds from `now` to a deadline
abbrev pub until : (deadline now : ℕ) → ℤ
until deadline now = if leb now deadline then pos (deadline - now) else negated (now - deadline)

-- The arguments of the kernel's call: how many to submit and to wait for, and the timeout.
pub record Call : Type 0 where
  pub to_submit : ℕ
  pub min_complete : ℕ
  pub timeout : Option Timespec

unfoldable pub enter_call : (deadline_of : Ptr → ℕ) → (now : ℕ) → Loop → Call
unfolding duration_to_timespec
enter_call deadline_of now l = record {
  to_submit = u32 l.n_newly;
  min_complete = 1;
  timeout =
      if l.heap.at of_root == null
      then none
      else some (duration_to_timespec (until (deadline_of (l.heap.at of_root)) now));
}

-- `EINTR` and `ETIME`
abbrev pub eintr : ℕ
eintr = 4

abbrev pub etime : ℕ
etime = 62

-- What follows the call: an error that is neither is thrown, `none`.
unfoldable pub after_enter : ℤ → Loop → Option Loop
after_enter (pos n) l = some (record l { n_newly = sub64 l.n_newly n })
after_enter (negsuc e) l =
    if e + 1 == etime
    then some (record l { n_newly = 0 })
    else if e + 1 == eintr
    then some l
    else none

negated-none : (n : ℕ) → at_least_zero (negated n) ≡ 0
negated-none zero = refl
negated-none (suc n) = refl

no_seconds : (n : ℕ) → at_least_zero (quotient (negated n) per_second) ≡ 0
no_seconds zero = refl
no_seconds (suc n) = negated-none ((n + 1) / per_second)

no_rest : (n : ℕ) → at_least_zero (remainder (negated n) per_second) ≡ 0
no_rest zero = refl
no_rest (suc n) = negated-none ((n + 1) % per_second)

passed : (a b : ℕ) → leb a b ≡ false → b < a
passed a b h = ground arith

-- A timeout is one that the kernel accepts, with less than a second of nanoseconds; it lasts until the
-- deadline, or not at all once the deadline has passed.
pub timespec_until :
    (deadline now : ℕ)
    → ((duration_to_timespec (until deadline now)).nsec < per_second)
      × ((duration_to_timespec (until deadline now)).sec * per_second
            + (duration_to_timespec (until deadline now)).nsec
          ≡ deadline - now)
unfolding duration_to_timespec
timespec_until deadline now = elim (Bool-cases (leb now deadline)) [
  | inl b ↦ rw b (omega arith, omega arith)
  | inr b ↦ rw b (
    omega arith,
    omega (arith, no_seconds (now - deadline), no_rest (now - deadline), passed now deadline b),
  )
]
