-- ===== src/Examples/Stopping.antt =====
-- include/__ngr/__core/__scheduler.hpp and __stop_inplace.hpp: the end of the loop, and a stop
-- source.
use model_lib.Base.{ℕ, ◌+◌, ◌%◌, ◌≡◌, ◌<◌, refl, [], true}
use model_lib.Base.Integers.{pos, negsuc}
use model_lib.Intake.{
  Intake, enter, push, leave, close, take_last, here, later, submit_attempt, count_out,
  close_attempt, accept,
}
use model_lib.Intake.Closing.{no_task_lost}
use model_lib.Stop.{
  Source, fresh, request, try_lock_round, refuse, stopping, outside, begin, step, finish, at,
}
use model_lib.Stop.Exclusion.{mutual_exclusion, stop_sticky}
use model_lib.Stop.Callbacks.{no_callbacks}
use model_lib.Stop.Callbacks.Order.{Registered}

abbrev ended : Intake
ended = record {
  in_flight = negsuc 0;
  counted = 0;
  pushed = 0;
  begun = 1;
  remote = 0;
  taken = 1;
  stopped = 0;
  done = true;
}

no_task_lost_example :
    (ended.begun ≡ ended.taken + ended.stopped) × (ended.remote ≡ 0) × (ended.counted ≡ 0)
unfolding submit_attempt count_out close_attempt accept
no_task_lost_example =
    no_task_lost ended
      (later
        (later (later (later (later here (enter (pos 1) refl)) (push 0 refl)) (leave 0 refl))
          (close refl))
        (take_last refl))
      refl

abbrev requested : Source
requested = at fresh 4 stopping 3

mutual_exclusion_example : (◌≡◌ {A = ℕ} 4 4) × (requested.byte ≡ 3) × (1 < 2)
unfolding try_lock_round
mutual_exclusion_example =
    mutual_exclusion requested 4 4 1 1 (step begin (request 4 3 refl refl)) refl refl

stop_sticky_example :
    ((at requested 4 outside 1).byte % 2 ≡ 1)
    × (try_lock_round true (at requested 4 outside 1).byte ≡ refuse)
unfolding try_lock_round
stop_sticky_example =
    stop_sticky {s = requested} {s' = at requested 4 outside 1} (step begin (request 4 3 refl refl))
      (finish 4 refl) refl

none_Registered : Registered no_callbacks []
none_Registered = refl
