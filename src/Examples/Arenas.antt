-- ===== src/Examples/Arenas.antt =====
-- The thread's and the shared source of blocks at concrete inputs.
use model_lib.Base.{
  ne→==false, ℕ, zero, suc, ◌+◌, ◌%◌, ◌^◌, ◌≤◌, ◌<◌, ◌≡◌, refl, inl, Option, some, none, [], ◌∷◌,
  ◌==◌, if◌then◌else◌, reverse, take, drop, arith,
}
use model_lib.Store.{Ptr, null}
use model_lib.Arena.{Subrange, place_blocks, mapping_blocks}
use model_lib.Arena.Outcome.{fault, Returns}
use model_lib.Arena.Remote.{
  convert, Remote, empty_slot, slot, push, allocate, pop_swap_reversed, put_slot,
}
use model_lib.Arena.Ring.{slot_at, HoldsBatches}
use model_lib.Arena.Batches.{added, push-HoldsBatches}
use model_lib.Arena.Growth.{chunks}
use model_lib.Arena.Supply.{allocate-overruns, pop_swap_reversed-grows}
use model_lib.Arena.Local.{Local, fresh_local, acquire, release}
use model_lib.Arena.Accounts.{Sound, occurs}
use model_lib.Arena.Promise.{remote_source, remote_Keeps, stored, can_map}
use model_lib.Arena.Ranges.{release-Sound}
use model_lib.Arena.Cuts.{acquire-Sound}

abbrev empty_remote : Remote
empty_remote = record { n = 0; mmap = λ i. 0; ring = λ i. empty_slot; state = 0 }

empty_remote-HoldsBatches : HoldsBatches empty_remote [] []
empty_remote-HoldsBatches = record {
  tail = 0;
  word = omega arith;
  state = refl;
  at = λ i h. slots i;
  batches = tt;
  open_batch = omega arith;
  room = inl (omega arith);
}
  where
    slots : (i : ℕ) → empty_slot ≡ slot_at [] [] i
    slots zero = refl
    slots (suc i) = refl

-- one mapping, at address 2 ^ 20
abbrev one_mapping : ℕ → Option ℕ
one_mapping zero = some (2 ^ 20)
one_mapping (suc n) = none

push-HoldsBatches_example :
    Returns
      (λ r'. HoldsBatches r' (added [] (4096 ∷ [])).0 (added [] (4096 ∷ [])).1 × (r'.n ≡ 0))
      (push 4096 empty_remote)
unfolding convert
push-HoldsBatches_example =
    push-HoldsBatches 4096 empty_remote [] [] empty_remote-HoldsBatches (omega arith) (omega arith)

pop_swap_reversed-grows_example :
    Returns
      (λ q.
        (q.0 ≡ reverse (take 16 (mapping_blocks (2 ^ 20))))
        × HoldsBatches q.1 (chunks 3 (drop 16 (mapping_blocks (2 ^ 20)))) []
        × (q.1.n ≡ 1))
      (pop_swap_reversed one_mapping empty_remote)
unfolding convert
pop_swap_reversed-grows_example =
    pop_swap_reversed-grows one_mapping (2 ^ 20) empty_remote empty_remote-HoldsBatches
      (omega arith) (omega arith) refl

-- one block in the batch that is being filled
abbrev partly : Remote
partly = record {
  n = 0;
  mmap = λ i. 0;
  ring = put_slot (λ i. empty_slot) 0 (slot (4096 ∷ []) 1);
  state = 0;
}

partly-HoldsBatches : HoldsBatches partly [] (4096 ∷ [])
partly-HoldsBatches = record {
  tail = 0;
  word = omega arith;
  state = refl;
  at = slots;
  batches = tt;
  open_batch = omega arith;
  room = inl (omega arith);
}
  where
    slots :
        (i : ℕ)
        → i < 64
        → put_slot (λ i. empty_slot) 0 (slot (4096 ∷ []) 1) ((0 + i) % 64)
          ≡ slot_at [] (4096 ∷ []) i
    slots zero h = refl
    slots (suc i) h = rw (ne→==false ((0 + suc i) % 64) 0 (λ e. absurd (omega (arith, e)))) refl

allocate-overruns_example : allocate one_mapping partly ≡ fault
unfolding convert
allocate-overruns_example =
    allocate-overruns one_mapping (2 ^ 20) partly [] (4096 ∷ []) partly-HoldsBatches
      (λ e. absurd (cc)) (omega arith) (omega arith) (omega arith) refl

at_most_once :
    (y j a : ℕ)
    → 0 < a
    → (occurs y (place_blocks j a) ≤ 1) × (1 ≤ occurs y (place_blocks j a) → a ≤ y)
unfolding place_blocks
at_most_once y zero a pos = (omega arith, λ h. absurd (omega arith))
at_most_once y (suc j) a pos =
    let rest = at_most_once y j (a + 4160) (omega arith) in ground (arith, rest.0, rest.1)

abbrev no_mapping : ℕ → Option ℕ
no_mapping n = none

stored-one :
    (y : Ptr) → stored one_mapping empty_remote y ≡ occurs y (place_blocks 64 (2 ^ 20 + 4096))
unfolding stored mapping_blocks
stored-one y = omega arith

stored-none : (y : Ptr) → stored no_mapping empty_remote y ≡ 0
unfolding stored
stored-none y = refl

-- A thread that has no block yet, and one mapping to come.
abbrev new_thread : Local Remote
new_thread = fresh_local (λ y. 0) empty_remote

new_thread-Sound : Sound (remote_Keeps one_mapping) new_thread []
new_thread-Sound = record {
  accounts = record {
    use_counts = λ y ne. rw (ne→==false y null ne) refl;
    once = λ y. omega (arith, stored-one y, (at_most_once y 64 (2 ^ 20 + 4096) (omega arith)).0);
    idle = λ y h.
        let lo =
          (at_most_once y 64 (2 ^ 20 + 4096) (omega arith)).1 (omega (arith, stored-one y, h)) in
        ((λ e. absurd (omega (arith, lo, e))), refl);
    counted = refl;
    few = omega arith;
    inside = tt;
    apart = tt;
  };
  bump_le = omega arith;
  start = λ e. refl;
}

acquire-Sound_example :
    Returns
      (λ p. (p.0.len ≡ 100) × Sound (remote_Keeps one_mapping) p.1 (p.0 ∷ []))
      (acquire (remote_source one_mapping) 100 new_thread)
unfolding convert
acquire-Sound_example =
    acquire-Sound (remote_Keeps one_mapping) 100 new_thread [] new_thread-Sound (omega arith)
      (omega arith) (omega arith) (λ e. absurd (omega (arith, e)))
      (λ e. can_map (2 ^ 20) empty_remote-HoldsBatches (omega arith) (omega arith) refl)

abbrev in_use : Subrange
in_use = record { source = 4096; offset = 0; len = 100 }

-- A thread that has cut one range.
abbrev cutting : Local Remote
cutting = record {
  queue = [];
  consume = 4096;
  bump = 100;
  count = 0;
  uses = λ y. if y == 4096 then 2 else 0;
  shared = empty_remote;
}

cutting-Sound : Sound (remote_Keeps no_mapping) cutting (in_use ∷ [])
cutting-Sound = record {
  accounts = record {
    use_counts = λ y ne. ground arith;
    once = λ y. omega (arith, stored-none y);
    idle = λ y h. absurd (omega (arith, stored-none y, h));
    counted = refl;
    few = omega arith;
    inside = ((λ e. absurd (omega (arith, e)), omega arith, λ e. omega arith), tt);
    apart = (tt, tt);
  };
  bump_le = omega arith;
  start = λ e. absurd (omega (arith, e));
}

release-Sound_example :
    Returns
      (λ w'. Sound (remote_Keeps no_mapping) w' [])
      (release (remote_source no_mapping) in_use cutting)
release-Sound_example =
    release-Sound (remote_Keeps no_mapping) cutting [] in_use [] cutting-Sound (omega arith)
      (λ e. absurd (omega (arith, e)))
