-- ===== src/Scheduler/Counts.antt =====
-- include/__ngr/__core/__scheduler.hpp: the two counts of requests, of those in flight and of those that
-- the kernel has not seen yet, through a turn of the loop.
use model_lib.Base.{ℕ, ◌+◌, ◌-◌, ◌%◌, ◌^◌, ◌≤◌, ◌<◌, ◌≡◌, refl, Bool, some, arith}
use model_lib.Base.Integers.{pos}
use model_lib.Base.Words.{sub32, sub64}
use model_lib.Store.{Ptr}
use model_lib.Scheduler.Loop.Room.{submit-room}
use model_lib.Scheduler.Loop.{Loop, submitted}
use model_lib.Scheduler.Kernel.{enter_call, after_enter}

-- The requests that the kernel has not seen are in flight, and all in flight have room.
pub record InFlight (l : Loop) : Type 0 where
  pub newly : l.n_newly ≤ l.n_total
  pub total : l.n_total ≤ l.cq_entries
  pub word : l.cq_entries < 2 ^ 32

-- the loop once `done` requests are complete
abbrev pub completed : ℕ → Loop → Loop
completed done l = record l { n_total = sub64 l.n_total done }

kept :
    (is_cancel : ℕ → Bool) (stop : Bool) (l : Loop)
    → InFlight l
    → InFlight (submitted is_cancel stop l)
unfolding submitted
kept is_cancel stop l f =
    let room =
      submit-room is_cancel l.ring l.io_pending (sub32 l.cq_entries (l.n_total % 2 ^ 32)) stop in
    record {
      newly = omega (arith, f.newly, f.total, f.word, room);
      total = omega (arith, f.newly, f.total, f.word, room);
      word = f.word;
    }

asked :
    (deadline_of : Ptr → ℕ) (now : ℕ) (l : Loop)
    → InFlight l
    → (enter_call deadline_of now l).to_submit ≡ l.n_newly
unfolding enter_call
asked deadline_of now l f = omega (arith, f.newly, f.total, f.word)

took_off :
    (n : ℕ) (l : Loop)
    → InFlight l
    → n ≤ l.n_newly
    → (m : Loop) × (after_enter (pos n) l ≡ some m) × InFlight m × (m.n_newly + n ≡ l.n_newly)
unfolding after_enter
took_off n l f le =
    let small : sub64 l.n_newly n ≡ l.n_newly - n = omega (arith, f.newly, f.total, f.word, le) in
    (
      record l { n_newly = sub64 l.n_newly n },
      refl,
      record { newly = omega (arith, small, f.newly); total = f.total; word = f.word },
      omega (arith, small, le),
    )

-- In a turn of the loop in which no more requests complete than the kernel has seen, the counts stay
-- right, stopping or not: the kernel is asked for the requests that it has not seen, of which there
-- are not more than in flight, these have room in the completion queue, and what it takes is off the
-- count.
pub turn-InFlight :
    (is_cancel : ℕ → Bool) (stop : Bool) (deadline_of : Ptr → ℕ) (now done n : ℕ) (l : Loop)
    → InFlight l
    → done + l.n_newly ≤ l.n_total
    → n ≤ (submitted is_cancel stop (completed done l)).n_newly
    → InFlight (submitted is_cancel stop (completed done l))
      × ((enter_call deadline_of now (submitted is_cancel stop (completed done l))).to_submit
          ≡ (submitted is_cancel stop (completed done l)).n_newly)
      × (m : Loop) × (after_enter (pos n) (submitted is_cancel stop (completed done l)) ≡ some m)
      × InFlight m
      × (m.n_newly + n ≡ (submitted is_cancel stop (completed done l)).n_newly)
turn-InFlight is_cancel stop deadline_of now done n l f seen took =
    let k = kept is_cancel stop (completed done l) less in
    let (m, run, after, count) = took_off n _ k took in
    (k, asked deadline_of now _ k, m, run, after, count)
  where
    less : InFlight (completed done l)
    less = record {
      newly = omega (arith, f.newly, f.total, f.word, seen);
      total = omega (arith, f.newly, f.total, f.word, seen);
      word = f.word;
    }
