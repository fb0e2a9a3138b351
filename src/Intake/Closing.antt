-- ===== src/Intake/Closing.antt =====
-- include/__ngr/__core/__scheduler.hpp: no task that another thread submits is lost when the loop
-- ends.
use model_lib.Base.{
  ◌≢◌, ℕ, zero, suc, ◌+◌, ◌≡◌, ◌≢◌, ◌⊎◌, inl, inr, refl, sym, ap, ◌∙◌, true, arith,
}
use model_lib.Base.Integers.{ℤ, pos, negsuc}
use model_lib.Intake.{
  Intake, accept, Step, Reach, no_new_submit, submit_attempt, count_in, stop_task, count_out,
  close_attempt, enter, refuse, push, leave, take_some, close, take_last, here, later,
}

-- The count is open and counts the threads that are counted in, or it is closed and there are none;
-- every task is with its thread, in a queue, accepted or stopped; after the last accept the count is
-- closed and the queues are empty.
pub record Sound (s : Intake) : Type 0 where
  pub count :
      (s.in_flight ≡ pos (s.counted + s.pushed))
      ⊎ ((s.in_flight ≡ no_new_submit) × (s.counted + s.pushed ≡ 0))
  pub kept : s.begun ≡ s.counted + s.remote + s.taken + s.stopped
  pub ended : s.done ≡ true → (s.in_flight ≡ no_new_submit) × (s.remote ≡ 0)

enter-open : (z y : ℤ) → submit_attempt z ≡ count_in y → (n : ℕ) → z ≡ pos n → y ≡ pos (suc n)
unfolding submit_attempt
enter-open z y e n o =
    let e' : count_in (pos (suc n)) ≡ count_in y = sym (ap submit_attempt o) ∙ e in cc (e')

enter-closed : (z y : ℤ) → submit_attempt z ≡ count_in y → z ≢ no_new_submit
unfolding submit_attempt
enter-closed z y e c =
    let e' : stop_task ≡ count_in y = sym (ap submit_attempt c) ∙ e in absurd (cc e')

close-zero : (z : ℤ) → close_attempt z ≡ true → z ≡ pos 0
unfolding close_attempt
close-zero (pos zero) e = refl
close-zero (pos (suc n)) e = absurd (cc e)
close-zero (negsuc n) e = absurd (cc e)

open-closed : (n : ℕ) → pos n ≢ no_new_submit
open-closed n e = absurd (cc e)

pos-injective : (m n : ℕ) → pos m ≡ pos n → m ≡ n
pos-injective m n e = cc e

inside : (s : Intake) → Sound s → (m : ℕ) → s.counted + s.pushed ≡ suc m → s.in_flight ≡ pos (suc m)
inside s sound m e = elim sound.count [
  | inl o ↦ o ∙ ap pos e
  | inr (c, z) ↦ absurd (omega (arith, e, z))
]

nobody : (s : Intake) → Sound s → s.in_flight ≡ pos 0 → s.counted + s.pushed ≡ 0
nobody s sound e = elim sound.count [
  | inl o ↦ pos-injective (s.counted + s.pushed) 0 (sym o ∙ e)
  | inr (c, z) ↦ z
]

step-Sound : {s s' : Intake} → Step s s' → Sound s → Sound s'
unfolding count_out accept
step-Sound {s} (enter z e) sound = record {
  count = elim sound.count [
    | inl o ↦ inl (enter-open s.in_flight z e (s.counted + s.pushed) o ∙ ap pos (omega arith))
    | inr (c, _) ↦ absurd (enter-closed s.in_flight z e c)
  ];
  kept = omega (arith, sound.kept);
  ended = λ d. absurd (enter-closed s.in_flight z e (sound.ended d).0);
}
step-Sound {s} (refuse e) sound = record {
  count = sound.count;
  kept = omega (arith, sound.kept);
  ended = sound.ended;
}
step-Sound {s} (push n e) sound = record {
  count = inl (inside s sound (n + s.pushed) (omega (arith, e)) ∙ ap pos (omega arith));
  kept = omega (arith, sound.kept, e);
  ended = λ d. absurd (
      open-closed (suc (n + s.pushed))
        (sym (inside s sound (n + s.pushed) (omega (arith, e))) ∙ (sound.ended d).0));
}
step-Sound {s} (leave n e) sound = record {
  count = inl (ap count_out (inside s sound (s.counted + n) (omega (arith, e))));
  kept = sound.kept;
  ended = λ d. absurd (
      open-closed (suc (s.counted + n))
        (sym (inside s sound (s.counted + n) (omega (arith, e))) ∙ (sound.ended d).0));
}
step-Sound {s} take_some sound = record {
  count = sound.count;
  kept = omega (arith, sound.kept);
  ended = λ d. ((sound.ended d).0, refl);
}
step-Sound {s} (close e) sound = record {
  count = inr (refl, nobody s sound (close-zero s.in_flight e));
  kept = sound.kept;
  ended = λ d. (refl, (sound.ended d).1);
}
step-Sound {s} (take_last e) sound = record {
  count = sound.count;
  kept = omega (arith, sound.kept);
  ended = λ d. (e, refl);
}

reach-Sound : {s : Intake} → Reach s → Sound s
reach-Sound here = record { count = inl refl; kept = refl; ended = λ d. absurd (cc d) }
reach-Sound (later r st) = step-Sound st (reach-Sound r)

-- After the last accept of the loop, every submission of another thread that passed its loop was
-- accepted or stopped by hand, and none is between its count and its push or in a queue.
pub no_task_lost :
    (s : Intake)
    → Reach s
    → s.done ≡ true
    → (s.begun ≡ s.taken + s.stopped) × (s.remote ≡ 0) × (s.counted ≡ 0)
no_task_lost s r d =
    let sound = reach-Sound r in
    let none_in : s.counted + s.pushed ≡ 0 = elim sound.count [
      | inl o ↦ absurd (open-closed (s.counted + s.pushed) (sym o ∙ (sound.ended d).0))
      | inr (c, z) ↦ z
    ] in
    (
      omega (arith, sound.kept, none_in, (sound.ended d).1),
      (sound.ended d).1,
      omega (arith, none_in),
    )
