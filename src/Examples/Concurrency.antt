-- ===== src/Examples/Concurrency.antt =====
-- include/__ngr/__core/__scheduler.hpp: the wake-up, the tasks and the submission queue.
use mathlib.Core.Option.{some-injective}
use model_lib.Base.{
  ◌≢◌, ℕ, zero, suc, get_elem?, ◌+◌, ◌-◌, ◌^◌, ◌≡◌, ◌<◌, ◌⊎◌, refl, [], ◌∷◌, some, arith, true,
  false, ◌==◌,
}
use model_lib.Scheduler.Wake.{
  Wake, start, notify, enter, write_event, enter_last, Reach, here, later, by_enter, by_notify,
  by_write, by_enter_last, sleeps_or_is_written, notified_forever, inside, sleep, notified,
}
use model_lib.Scheduler.Submission.{Ring, submit, submit_loop}
use model_lib.Scheduler.Submission.Rounds.{
  Added, submit-Added, submit_loop-until_cancel, add_stopped,
}

abbrev answered : Wake
answered = write_event (notify (enter start)).1

asleep : Reach start answered
unfolding enter notify
asleep = later (later (later here (by_enter refl)) by_notify) (by_write (omega arith))

sleeps_or_is_written_example :
    ((answered.state ≡ sleep)
      × ((notify answered).0 ≡ true)
      × ((notify answered).1.owed ≡ answered.owed + 1))
    ⊎ ((answered.state ≡ notified) × (0 < answered.owed ⊎ answered.at_entry < answered.written))
unfolding enter notify write_event
sleeps_or_is_written_example = sleeps_or_is_written {w = answered} asleep refl

abbrev told : Wake
told = record start { state = notified }

notified_forever_example :
    ((enter_last (enter told)).state ≡ notified)
    × ((enter_last (enter told)).loop ≢ inside)
    × ((enter_last (enter told)).entered ≡ 0)
unfolding enter
notified_forever_example =
    notified_forever {w = told} {v = enter_last (enter told)} refl (λ e. ground arith)
      (later (later here (by_enter refl)) (by_enter_last refl))

-- A ring of four entries whose counters are about to wrap, with one entry in flight.
abbrev ring : Ring
ring = record {
  head = 2 ^ 32 - 1;
  tail = 0;
  mask = 3;
  n_slot = 4;
  user_data = λ i. 0;
  array = λ i. 0;
}

submit-Added_example :
    let (p, q') = submit (λ op. false) ring (7 ∷ 8 ∷ []) 8 false in
    Added 2 (2 ^ 32 - 1) 1 3 (7 ∷ 8 ∷ []) ring q' p
submit-Added_example =
    submit-Added (λ op. false) 2 (2 ^ 32 - 1) 1 ring (7 ∷ 8 ∷ []) 8 (omega arith)
      (record { mask = refl; n_slot = refl; head = refl; tail = refl; fits = omega arith })

seven_runs : (i op : ℕ) → get_elem? (7 ∷ []) i ≡ some op → (op == 9) ≡ false
seven_runs zero op e = rw (← some-injective 7 op e) refl
seven_runs (suc i) op e = absurd (cc e)

submit_loop-until_cancel_example :
    submit_loop (λ op. op == 9) 3 (7 ∷ 9 ∷ 8 ∷ []) 4 0 0 true (λ i. 0) (λ i. 0)
    ≡ add_stopped
        (7 ∷ [])
        (submit_loop (λ op. op == 9) 3 (9 ∷ 8 ∷ []) 4 0 0 false (λ i. 0) (λ i. 0))
submit_loop-until_cancel_example =
    submit_loop-until_cancel (λ op. op == 9) 3 (7 ∷ []) 9 (8 ∷ []) 4 0 0 (λ i. 0) (λ i. 0)
      seven_runs refl (omega arith)
