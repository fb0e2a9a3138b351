-- ===== src/Scheduler/Wake.antt =====
-- include/__ngr/__core/__scheduler.hpp: `_M_notify` and `_M_io_uring_enter` share the word
-- `__state_`. The loop's thread and any number of notifying threads interleave, one atomic access
-- or one system call at a time. The mutex between them only delays the write to the eventfd, which
-- is taken to succeed; no part of the program reads the eventfd.
use mathlib.Core.Logic.{◌≢◌}
use model_lib.Base.{
  ℕ, ◌+◌, ◌-◌, ◌≤◌, ◌<◌, ◌≡◌, refl, Bool, true, false, arith, if◌then◌else◌, ◌⊎◌, inl, inr,
}

pub data Sg : Type 0 where
  run sleep notified : Sg

-- Where the loop's thread stands: in the loop of `_M_run_until_stop` but outside the kernel, between
-- the compare-exchange and the store of `_M_io_uring_enter`, which enclose its call of the kernel, in
-- the last call of `_M_run_until_stop`, or behind it. When the loop breaks is left open.
pub data Loop : Type 0 where
  outside inside last_call finished : Loop

-- `entered` counts the kernel's calls of `_M_io_uring_enter`, `written` the
-- writes of `_M_notify` to the eventfd. Two are not stored by the program: `owed` counts the threads between the exchange and the write of
-- `_M_notify`, and `at_entry` is what `written` was when `_M_io_uring_enter` last went to sleep.
pub record Wake : Type 0 where
  pub state : Sg
  pub loop : Loop
  pub entered : ℕ
  pub written : ℕ
  pub owed : ℕ
  pub at_entry : ℕ

-- The constructor leaves the word at `_S_run`.
abbrev pub start : Wake
start = record { state = Sg.run; loop = outside; entered = 0; written = 0; owed = 0; at_entry = 0 }

abbrev pub was_sleep : Sg → Bool
was_sleep sleep = true
was_sleep _ = false

-- The exchange of `_M_notify`, and whether the word was `sleep`: then the thread is to write, and
-- `_M_notify` returns true.
unfoldable pub notify : Wake → Bool × Wake
notify w = (
  was_sleep w.state,
  record w { state = notified; owed = if was_sleep w.state then w.owed + 1 else w.owed },
)

-- The write of a thread that found the word at `sleep`.
unfoldable pub write_event : Wake → Wake
write_event w = record w { written = w.written + 1; owed = w.owed - 1 }

-- The compare-exchange of `_M_io_uring_enter`: from `run` the thread goes to sleep in the kernel,
-- from any other state it returns at once and changes nothing.
unfoldable pub enter_at : Sg → Wake → Wake
enter_at run w = record w {
  state = sleep;
  loop = inside;
  entered = w.entered + 1;
  at_entry = w.written;
}
enter_at sleep w = w
enter_at notified w = w

unfoldable pub enter : Wake → Wake
unfolding enter_at
enter w = enter_at w.state w

-- The store after the kernel's call returned.
unfoldable pub leave : Wake → Wake
leave w = record w { state = run; loop = outside }

-- The last call of `_M_run_until_stop`, which does not look at the word, and its return.
unfoldable pub enter_last : Wake → Wake
enter_last w = record w { loop = last_call }

unfoldable pub leave_last : Wake → Wake
leave_last w = record w { loop = finished }

pub data Step (w : Wake) : Wake → Type 0 where
  by_notify : Step w (notify w).1
  by_write : 0 < w.owed → Step w (write_event w)
  by_enter : w.loop ≡ outside → Step w (enter w)
  by_leave : w.loop ≡ inside → Step w (leave w)
  by_enter_last : w.loop ≡ outside → Step w (enter_last w)
  by_leave_last : w.loop ≡ last_call → Step w (leave_last w)

pub data Reach (w : Wake) : Wake → Type 0 where
  here : Reach w w
  later : {u v : Wake} → Reach w u → Step u v → Reach w v

-- In the kernel by `_M_io_uring_enter` the word is at `sleep`, or a write is owed or was done since.
pub record IsAwake (w : Wake) : Type 0 where
  pub answered :
      w.loop ≡ inside
      → (w.state ≡ sleep) ⊎ ((w.state ≡ notified) × (0 < w.owed ⊎ w.at_entry < w.written))
  pub outside_runs : w.loop ≡ outside → w.state ≢ sleep
  pub counted : w.at_entry ≤ w.written

start-IsAwake : IsAwake start
start-IsAwake = record {
  answered = λ h. absurd (cc h);
  outside_runs = λ h. ground arith;
  counted = omega arith;
}

enter_at-IsAwake :
    (u : Wake) → u.loop ≡ outside → IsAwake u → (s : Sg) → u.state ≡ s → IsAwake (enter_at s u)
unfolding enter_at
enter_at-IsAwake u h i run e = record {
  answered = λ _. inl refl;
  outside_runs = λ l. ground arith;
  counted = omega arith;
}
enter_at-IsAwake u h i sleep e = i
enter_at-IsAwake u h i notified e = i

-- A thread that finds the word at `sleep` owes a write, and one that finds `notified` keeps what is
-- known.
notify-answered :
    (u : Wake)
    → (u.state ≡ sleep) ⊎ ((u.state ≡ notified) × (0 < u.owed ⊎ u.at_entry < u.written))
    → 0 < (notify u).1.owed ⊎ u.at_entry < u.written
unfolding notify
notify-answered u (inl s) = inl (ground (arith, s))
notify-answered u (inr (s, inl o)) = inl (ground (arith, s, o))
notify-answered u (inr (s, inr d)) = inr d

Step-IsAwake : {u v : Wake} → Step u v → IsAwake u → IsAwake v
unfolding notify write_event enter leave enter_last leave_last
Step-IsAwake {u} by_notify i = record {
  answered = λ e. inr (refl, notify-answered u (i.answered e));
  outside_runs = λ e. ground arith;
  counted = i.counted;
}
Step-IsAwake {u} (by_write h) i = record {
  answered = λ e. elim (i.answered e) [
    | inl s ↦ inl s
    | inr (s, o) ↦ inr (s, inr (omega (arith, i.counted)))
  ];
  outside_runs = i.outside_runs;
  counted = omega (arith, i.counted);
}
Step-IsAwake {u} (by_enter h) i = enter_at-IsAwake u h i u.state refl
Step-IsAwake {u} (by_leave h) i = record {
  answered = λ e. absurd (ground arith);
  outside_runs = λ e. ground arith;
  counted = i.counted;
}
Step-IsAwake {u} (by_enter_last h) i = record {
  answered = λ e. absurd (ground arith);
  outside_runs = λ e. absurd (ground arith);
  counted = i.counted;
}
Step-IsAwake {u} (by_leave_last h) i = record {
  answered = λ e. absurd (ground arith);
  outside_runs = λ e. absurd (ground arith);
  counted = i.counted;
}

Reach-IsAwake : {u v : Wake} → Reach u v → IsAwake u → IsAwake v
Reach-IsAwake here i = i
Reach-IsAwake (later r st) i = Step-IsAwake st (Reach-IsAwake r i)

-- Whatever the interleaving from the start, while the loop's thread is between the compare-exchange
-- and the store of `_M_io_uring_enter`, the word is `sleep`, and then the exchange of the next
-- notification says that the eventfd is to be written and one write more is owed, or the word is
-- `notified`, and then a thread still owes a write or one was made since the compare-exchange.
pub sleeps_or_is_written :
    {w : Wake}
    → Reach start w
    → w.loop ≡ inside
    → ((w.state ≡ sleep) × ((notify w).0 ≡ true) × ((notify w).1.owed ≡ w.owed + 1))
      ⊎ ((w.state ≡ notified) × (0 < w.owed ⊎ w.at_entry < w.written))
unfolding notify
sleeps_or_is_written {w} r e = elim ((Reach-IsAwake r start-IsAwake).answered e) [
  | inl s ↦ inl (s, ground arith, ground arith)
  | inr n ↦ inr n
]

stuck_at : (u : Wake) → (s : Sg) → u.state ≡ s → u.state ≡ notified → enter_at s u ≡ u
unfolding enter_at
stuck_at u run e h = absurd (cc)
stuck_at u sleep e h = refl
stuck_at u notified e h = refl

-- A notification that finds the loop outside the kernel is never consumed: from then on, whatever
-- the interleaving, the word stays `notified` and `_M_io_uring_enter` does not call the kernel
-- again. The last call of `_M_run_until_stop` is not one of its calls.
pub notified_forever :
    {w v : Wake}
    → w.state ≡ notified
    → w.loop ≢ inside
    → Reach w v
    → (v.state ≡ notified) × (v.loop ≢ inside) × (v.entered ≡ w.entered)
unfolding notify write_event enter leave enter_last leave_last
notified_forever s l here = (s, l, refl)
notified_forever s l (later r by_notify) = let ih = notified_forever s l r in (refl, ih.1, ih.2)
notified_forever s l (later r (by_write h)) = notified_forever s l r
notified_forever {w} s l (later {u} r (by_enter o)) =
    let ih = notified_forever s l r in rw (stuck_at u u.state refl ih.0) ih
notified_forever s l (later r (by_leave i)) = absurd ((notified_forever s l r).1 i)
notified_forever s l (later r (by_enter_last o)) =
    let ih = notified_forever s l r in (ih.0, λ e. ground arith, ih.2)
notified_forever s l (later r (by_leave_last o)) =
    let ih = notified_forever s l r in (ih.0, λ e. ground arith, ih.2)
