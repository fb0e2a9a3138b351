-- ===== src/Stop.antt =====
-- include/__ngr/__core/__stop_inplace.hpp: the state byte of `__stop_source` as a spin lock with a
-- stop flag, and the threads that lock it, one atomic access after the other.
pub mod Exclusion
pub mod Callbacks
pub mod Requests
use model_lib.Base.{
  ℕ, zero, suc, ◌+◌, ◌-◌, ◌/◌, ◌%◌, ◌^◌, ◌≡◌, ◌==◌, Bool, true, false, Option, none, some, ltb,
  if◌then◌else◌,
}
use model_lib.Base.Words.{add32}

-- `__pause_or_yield::_M_try`: whether it yields, and the new count. The wrap test is the source's.
unfoldable pub pause_or_yield : ℕ → Bool × ℕ
pause_or_yield count =
    let count' = add32 count 1 in
    if ltb count 20 then (false, count') else (true, if count' == 0 then 20 else count')

abbrev pub none_flag : ℕ
none_flag = 0

abbrev pub stop_requested_flag : ℕ
stop_requested_flag = 1

abbrev pub locked_flag : ℕ
locked_flag = 2

-- the tests of the two flags in a byte
abbrev pub stop_requested : ℕ → Bool
stop_requested byte = byte % 2 == 1

abbrev pub locked : ℕ → Bool
locked byte = byte / 2 % 2 == 1

-- What a round of a locking loop does with the byte it has loaded: give up, load again, or try to
-- exchange it for another.
pub data Round : Type 0 where
  refuse : Round
  spin : Round
  exchange : ℕ → Round

-- A round of `_M_lock`
unfoldable pub lock_round : ℕ → Round
lock_round prev = if locked prev then spin else exchange (prev + locked_flag)

-- A round of `_M_try_lock_unless_stop_requested`
unfoldable pub try_lock_round : Bool → ℕ → Round
try_lock_round set_stop prev =
    let next = if set_stop then locked_flag + stop_requested_flag else locked_flag in
    if stop_requested prev then refuse else if prev == none_flag then exchange next else spin

-- Where a thread is: outside; in a critical section of `_M_try_push_front_callback` or
-- `_M_remove_callback`, with the byte to unlock to; in `_M_request_stop` with the lock; or there, at
-- a callback, without the lock.
pub data Place : Type 0 where
  outside : Place
  holding : ℕ → Place
  stopping : Place
  executing : Place

pub record Source : Type 0 where
  pub byte : ℕ
  pub places : ℕ → Place

abbrev pub at : Source → ℕ → Place → ℕ → Source
at s t place byte = record { byte = byte; places = λ u. if u == t then place else s.places u }

-- One exchange or store of the byte by thread `t`.
pub data Step (s : Source) : Source → Type 0 where
  push_lock :
      (t next : ℕ)
      → s.places t ≡ outside
      → try_lock_round false s.byte ≡ exchange next
      → Step s (at s t (holding none_flag) next)
  remove_lock :
      (t next : ℕ)
      → s.places t ≡ outside
      → lock_round s.byte ≡ exchange next
      → Step s (at s t (holding s.byte) next)
  unlock : (t prev : ℕ) → s.places t ≡ holding prev → Step s (at s t outside prev)
  request :
      (t next : ℕ)
      → s.places t ≡ outside
      → try_lock_round true s.byte ≡ exchange next
      → Step s (at s t stopping next)
  run_callback : (t : ℕ) → s.places t ≡ stopping → Step s (at s t executing stop_requested_flag)
  relock :
      (t next : ℕ)
      → s.places t ≡ executing
      → lock_round s.byte ≡ exchange next
      → Step s (at s t stopping next)
  finish : (t : ℕ) → s.places t ≡ stopping → Step s (at s t outside stop_requested_flag)

-- A fresh source: no flag is set and every thread is outside.
abbrev pub fresh : Source
fresh = record { byte = none_flag; places = λ t. outside }

pub data Reach : Source → Type 0 where
  begin : Reach fresh
  step : {s s' : Source} → Reach s → Step s s' → Reach s'
