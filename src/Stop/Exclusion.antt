-- ===== src/Stop/Exclusion.antt =====
-- include/__ngr/__core/__stop_inplace.hpp: the lock excludes, and a requested stop stays requested.
use native.Mathlib.Decide.{ℕ_discrete}
use mathlib.Core.Option.{some-injective}
use model_lib.Base.{
  ap, Bool-cases, ne→==false, ==-self, ℕ, ◌+◌, ◌%◌, ◌<◌, ◌≡◌, ◌≢◌, ◌⊎◌, inl, inr, refl, sym, ◌∙◌,
  Bool, true, false, Option, none, some, ◌==◌, arith, if◌then◌else◌,
}
use model_lib.Stop.{
  refuse, Place, outside, holding, stopping, executing, Source, at, Step, Reach, lock_round,
  try_lock_round, exchange, push_lock, remove_lock, unlock, request, run_callback, relock, finish,
  begin, step,
}

-- The byte that the thread in a critical section stores at its end.
abbrev pub restores : Place → Option ℕ
restores outside = none
restores (holding prev) = some prev
restores stopping = some 1
restores executing = none

-- Nobody is in a critical section, or only `t`, and then the byte has the lock flag.
abbrev pub Free : Source → Type 0
Free s = (s.byte < 2) × ((t : ℕ) → restores (s.places t) ≡ none)

pub record Held (s : Source) : Type 0 where
  pub t : ℕ
  pub prev : ℕ
  pub inside : restores (s.places t) ≡ some prev
  pub locked : s.byte ≡ prev + 2
  pub flag : prev < 2
  pub alone : (u : ℕ) → u ≢ t → restores (s.places u) ≡ none

pub record Sound (s : Source) : Type 0 where
  pub lock : Free s ⊎ Held s
  pub stopped : (t : ℕ) → s.places t ≡ executing → s.byte % 2 ≡ 1

lock_round-Free : (b next : ℕ) → b < 4 → lock_round b ≡ exchange next → (b < 2) × (next ≡ b + 2)
unfolding lock_round
lock_round-Free b next h e = ground arith

try_lock_round-Free :
    (set : Bool) (b next : ℕ)
    → try_lock_round set b ≡ exchange next
    → (b ≡ 0) × (next ≡ (if set then 3 else 2))
unfolding try_lock_round
try_lock_round-Free set b next e = ground arith

-- Taking the lock in a free state.
take-Held :
    (s : Source) (t next prev : ℕ) (place : Place)
    → Free s ⊎ Held s
    → s.byte < 2
    → restores place ≡ some prev
    → next ≡ prev + 2
    → prev < 2
    → Held (at s t place next)
take-Held s t next prev place (inr held) h e m p = absurd (omega (arith, held.locked))
take-Held s t next prev place (inl free) h e m p = record {
  t = t;
  prev = prev;
  inside = rw (==-self t) e;
  locked = m;
  flag = p;
  alone = λ u ne. rw (ne→==false u t ne) (free.1 u);
}

-- The thread in a critical section is the one that holds the lock.
the_holder :
    (s : Source) (held : Held s) (t prev : ℕ)
    → restores (s.places t) ≡ some prev
    → (t ≡ held.t) × (prev ≡ held.prev)
the_holder s held t prev e = elim (ℕ_discrete t held.t) [
  | yes eq ↦
      (eq, some-injective prev held.prev (sym e ∙ ap (λ u. restores (s.places u)) eq ∙ held.inside))
  | no ne ↦ absurd (cc (e, held.alone t ne))
]

give-Free :
    (s : Source) (t prev : ℕ) (place : Place)
    → Free s ⊎ Held s
    → restores (s.places t) ≡ some prev
    → restores place ≡ none
    → Free (at s t place prev) × (s.byte ≡ prev + 2)
give-Free s t prev place (inl free) e e' = absurd (cc (e, free.1 t))
give-Free s t prev place (inr held) e e' =
    ((omega (arith, same.1, held.flag), λ u. nobody u), omega (arith, same.1, held.locked))
  where
    same : (t ≡ held.t) × (prev ≡ held.prev)
    same = the_holder s held t prev e

    nobody : (u : ℕ) → restores ((at s t place prev).places u) ≡ none
    nobody u = elim (ℕ_discrete u t) [
      | yes eq ↦ rw (eq, ==-self t) e'
      | no ne ↦ rw (ne→==false u t ne) (held.alone u (λ eq. ne (eq ∙ sym same.0)))
    ]

-- A thread that comes to execute, or one that did, has seen the flag set.
executing-after :
    (s : Source) (t u byte : ℕ) (place : Place)
    → (place ≡ executing → byte % 2 ≡ 1)
    → (s.places u ≡ executing → byte % 2 ≡ 1)
    → (at s t place byte).places u ≡ executing
    → byte % 2 ≡ 1
executing-after s t u byte place new old e = elim (Bool-cases (u == t)) [
  | inl eq ↦ new (sym (rw eq refl) ∙ e)
  | inr ne ↦ old (sym (rw ne refl) ∙ e)
]

taken :
    (s : Source) (t next prev : ℕ) (place : Place)
    → Sound s
    → s.byte < 2
    → restores place ≡ some prev
    → next ≡ prev + 2
    → prev < 2
    → (s.byte % 2 ≡ 1 → prev ≡ 1)
    → Sound (at s t place next)
taken s t next prev place sound free e m p flag = record {
  lock = inr (take-Held s t next prev place sound.lock free e m p);
  stopped = λ u e'.
      executing-after s t u next place (λ is. absurd (cc (e, is)))
        (λ is. omega (arith, m, flag (sound.stopped u is))) e';
}

given :
    (s : Source) (t prev : ℕ) (place : Place)
    → Sound s
    → restores (s.places t) ≡ some prev
    → restores place ≡ none
    → (place ≡ executing → prev % 2 ≡ 1)
    → Sound (at s t place prev)
given s t prev place sound e e' new =
    let (free, was) = give-Free s t prev place sound.lock e e' in
    record {
      lock = inl free;
      stopped = λ u is.
          executing-after s t u prev place new (λ x. omega (arith, was, sound.stopped u x)) is;
    }

byte-bound : (s : Source) → Sound s → s.byte < 4
byte-bound s sound = elim sound.lock [
  | inl free ↦ omega (arith, free.0)
  | inr held ↦ omega (arith, held.locked, held.flag)
]

-- Every step keeps the source sound, and the stop flag set.
step-Sound : {s s' : Source} → Step s s' → Sound s → Sound s' × (s.byte % 2 ≡ 1 → s'.byte % 2 ≡ 1)
step-Sound {s} (push_lock t next out e) sound =
    let (zero_byte, n) = try_lock_round-Free false s.byte next e in
    (
      taken s t next 0 (holding 0) sound (omega (arith, zero_byte)) refl n (omega arith)
          (λ f. omega (arith, f, zero_byte)),
      λ f. omega (arith, f, zero_byte),
    )
step-Sound {s} (request t next out e) sound =
    let (zero_byte, n) = try_lock_round-Free true s.byte next e in
    (
      taken s t next 1 stopping sound (omega (arith, zero_byte)) refl n (omega arith) (λ f. refl),
      λ f. omega (arith, f, zero_byte),
    )
step-Sound {s} (remove_lock t next out e) sound =
    let (small, n) = lock_round-Free s.byte next (byte-bound s sound) e in
    (
      taken s t next s.byte (holding s.byte) sound small refl n small
          (λ f. omega (arith, f, small)),
      λ f. omega (arith, f, n),
    )
step-Sound {s} (relock t next out e) sound =
    let (small, n) = lock_round-Free s.byte next (byte-bound s sound) e in
    let odd = sound.stopped t out in
    (
      taken s t next 1 stopping sound small refl (omega (arith, n, odd, small)) (omega arith)
          (λ f. refl),
      λ f. omega (arith, f, n),
    )
step-Sound {s} (unlock t prev is) sound =
    let e : restores (s.places t) ≡ some prev = rw is refl in
    (
      given s t prev outside sound e refl (λ x. absurd (cc x)),
      λ f. omega (arith, f, (give-Free s t prev outside sound.lock e refl).1),
    )
step-Sound {s} (run_callback t is) sound =
    (given s t 1 executing sound (rw is refl) refl (λ x. refl), λ f. refl)
step-Sound {s} (finish t is) sound =
    (given s t 1 outside sound (rw is refl) refl (λ x. refl), λ f. refl)

reach-Sound : {s : Source} → Reach s → Sound s
reach-Sound begin = record { lock = inl (omega arith, λ t. refl); stopped = λ t e. absurd (cc e) }
reach-Sound (step r st) = (step-Sound st (reach-Sound r)).0

-- In every reachable state at most one thread is in a critical section, and the byte then has the
-- lock flag.
pub mutual_exclusion :
    (s : Source) (t u p q : ℕ)
    → Reach s
    → restores (s.places t) ≡ some p
    → restores (s.places u) ≡ some q
    → (t ≡ u) × (s.byte ≡ p + 2) × (p < 2)
mutual_exclusion s t u p q r e e' = elim (reach-Sound r).lock [
  | inl free ↦ absurd (cc (e, free.1 t))
  | inr held ↦
      let a = the_holder s held t p e in
      let b = the_holder s held u q e' in
      (a.0 ∙ sym b.0, omega (arith, held.locked, a.1), omega (arith, held.flag, a.1))
]

-- From a reachable state on, a requested stop stays requested, and no second request takes the lock:
-- it is refused.
pub stop_sticky :
    {s s' : Source}
    → Reach s
    → Step s s'
    → s.byte % 2 ≡ 1
    → (s'.byte % 2 ≡ 1) × (try_lock_round true s'.byte ≡ refuse)
unfolding try_lock_round
stop_sticky r st h = let odd = (step-Sound st (reach-Sound r)).1 h in (odd, rw (odd) refl)
