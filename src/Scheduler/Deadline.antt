-- ===== src/Scheduler/Deadline.antt =====
-- include/__ngr/__core/__scheduler.hpp: the keys of timers, a deadline and a sequence number. A
-- deadline is counted from the clock's start.
use model_lib.Base.{ℕ, ◌+◌, ◌*◌, ◌^◌, ◌<◌, ◌≡◌, Bool, ◌&&◌, ◌||◌, not, ltb, arith}

pub record TimeSequence : Type 0 where
  pub deadline : ℕ
  pub seq : ℕ

-- `operator<`
unfoldable pub time_less : TimeSequence → TimeSequence → Bool
time_less a b = ltb a.deadline b.deadline || (not (ltb b.deadline a.deadline) && ltb a.seq b.seq)

-- the number that orders like the key
abbrev pub time_key : TimeSequence → ℕ
time_key a = a.deadline * 2 ^ 64 + a.seq

-- Keys with 64-bit sequence numbers are ordered by `operator<` like the numbers that stand for them.
pub time_less-ltb :
    (a b : TimeSequence)
    → a.seq < 2 ^ 64
    → b.seq < 2 ^ 64
    → time_less a b ≡ ltb (time_key a) (time_key b)
unfolding time_less
time_less-ltb a b ha hb = ground arith
