-- ===== src/Scheduler/Submission/Laws.antt =====
-- include/__ngr/__core/__scheduler.hpp: what `__submission_queue::_M_submit` puts into the ring.
use Prim.Native.Nat.{bit_and}
use model_lib.Base.{
  ℕ, zero, suc, ◌+◌, ◌-◌, ◌^◌, ◌%◌, ◌≤◌, ◌<◌, ◌≡◌, ◌≢◌, refl, ap, sym, ◌∙◌, Bool, false, List, [],
  ◌∷◌, ◌==◌, arith, length, drop, get_elem?, some, min, lt→ltb, ne→==false, ==-self,
}
use native.Mathlib.Nat.{add-zero}
use mathlib.Core.Option.{some-injective}
use model_lib.Base.Words.{add32}
use model_lib.Base.Rings.{slot-mod, slot-ne}
use model_lib.Scheduler.Submission.{Pass, put, submit_loop}

-- The loop of a queue that is not stopping, on a ring of 2 ^ b entries.
module _ (is_cancel : ℕ → Bool) (b : ℕ) (small : b ≤ 32) where
  abbrev pub loop : List ℕ → (max r tail : ℕ) → (ℕ → ℕ) → (ℕ → ℕ) → Pass
  loop ops max r tail ud ar = submit_loop is_cancel (2 ^ b - 1) ops max r tail false ud ar

  loop-full :
      (ops : List ℕ) (max r tail : ℕ) (ud ar : ℕ → ℕ)
      → max ≤ r
      → loop ops max r tail ud ar
        ≡ record { pending = ops; added = r; tail = tail; user_data = ud; array = ar; stopped = [] }
  unfolding submit_loop
  loop-full [] max r tail ud ar h = refl
  loop-full (op ∷ ops) max r tail ud ar h = ground arith

  loop-step :
      (op : ℕ) (ops : List ℕ) (max r tail : ℕ) (ud ar : ℕ → ℕ)
      → r < max
      → loop (op ∷ ops) max r tail ud ar
        ≡ loop ops max
            (r + 1)
            (add32 tail 1)
            (put ud (bit_and tail (2 ^ b - 1)) op)
            (put ar (bit_and tail (2 ^ b - 1)) (bit_and tail (2 ^ b - 1)))
  unfolding submit_loop
  loop-step op ops max r tail ud ar h = rw (lt→ltb r max h)

  -- What the loop leaves when it has room for `k` tasks and starts at the counter `t`, which wraps.
  pub record Taken (ops : List ℕ) (k r t : ℕ) (ud ar : ℕ → ℕ) (p : Pass) : Type 0 where
    pub pending : p.pending ≡ drop k ops
    pub added : p.added ≡ r + min k (length ops)
    pub tail : p.tail ≡ (t + min k (length ops)) % 2 ^ 32
    pub stopped : p.stopped ≡ []
    pub placed :
        (i op : ℕ)
        → get_elem? ops i ≡ some op
        → i < k
        → (p.user_data ((t + i) % 2 ^ b) ≡ op) × (p.array ((t + i) % 2 ^ b) ≡ (t + i) % 2 ^ b)
    pub kept :
        (s : ℕ)
        → ((i : ℕ) → i < min k (length ops) → s ≢ (t + i) % 2 ^ b)
        → (p.user_data s ≡ ud s) × (p.array s ≡ ar s)

  pass_none :
      (ops : List ℕ) (k r t : ℕ) (ud ar : ℕ → ℕ)
      → drop k ops ≡ ops
      → min k (length ops) ≡ 0
      → ((i op : ℕ) → get_elem? ops i ≡ some op → i < k → ⊥)
      → Taken ops k r t ud ar (record {
        pending = ops;
        added = r;
        tail = t % 2 ^ 32;
        user_data = ud;
        array = ar;
        stopped = [];
      })
  pass_none ops k r t ud ar dropped nothing away = record {
    pending = sym dropped;
    added = omega arith;
    tail = ap (λ (x : ℕ). x % 2 ^ 32) (omega arith);
    stopped = refl;
    placed = λ i op e lt. absurd (away i op e lt);
    kept = λ s h. (refl, refl);
  }

  loop-nil :
      (max r tail : ℕ) (ud ar : ℕ → ℕ)
      → loop [] max r tail ud ar
        ≡ record { pending = []; added = r; tail = tail; user_data = ud; array = ar; stopped = [] }
  unfolding submit_loop
  loop-nil max r tail ud ar = refl

  -- One more task, at the slot of the counter `t`.
  module _ (k op : ℕ) (ops : List ℕ) (r t : ℕ) (ud ar : ℕ → ℕ) (p : Pass) (fits : suc k ≤ 2 ^ b)
      (ih : Taken ops k
        (r + 1)
        (t + 1)
        (put ud (t % 2 ^ b) op)
        (put ar (t % 2 ^ b) (t % 2 ^ b))
        p) where
    first : (p.user_data ((t + 0) % 2 ^ b) ≡ op) × (p.array ((t + 0) % 2 ^ b) ≡ (t + 0) % 2 ^ b)
    first = rw (add-zero t) (
        let q = ih.kept (t % 2 ^ b) apart in
        (q.0 ∙ rw (==-self (t % 2 ^ b)), q.1 ∙ rw (==-self (t % 2 ^ b))))
      where
        apart : (i : ℕ) → i < min k (length ops) → t % 2 ^ b ≢ (t + 1 + i) % 2 ^ b
        apart i lt e =
            slot-ne (2 ^ b) t 0 (1 + i) (omega arith) (omega arith)
              (ap (λ (x : ℕ). x % 2 ^ b) (add-zero t) ∙ e ∙ ap (λ (x : ℕ). x % 2 ^ b) (omega arith))

    next : (i : ℕ) → (t + suc i) ≡ t + 1 + i
    next i = omega arith

    pub placed :
        (i op' : ℕ)
        → get_elem? (op ∷ ops) i ≡ some op'
        → i < suc k
        → (p.user_data ((t + i) % 2 ^ b) ≡ op') × (p.array ((t + i) % 2 ^ b) ≡ (t + i) % 2 ^ b)
    placed zero op' e lt = rw (← some-injective op op' e) first
    placed (suc i) op' e lt = rw (next i) (ih.placed i op' e (omega arith))

    pub kept :
        (s : ℕ)
        → ((i : ℕ) → i < min (suc k) (suc (length ops)) → s ≢ (t + i) % 2 ^ b)
        → (p.user_data s ≡ ud s) × (p.array s ≡ ar s)
    kept s away =
        let q = ih.kept s (λ i lt e. away (suc i) (omega arith) (rw (next i) e)) in
        let other : (s == t % 2 ^ b) ≡ false =
          ne→==false s (t % 2 ^ b) (rw (add-zero t) at (away 0 (omega arith))) in
        (q.0 ∙ rw other, q.1 ∙ rw other)

    pass_more : Taken (op ∷ ops) (suc k) r t ud ar p
    pass_more = record {
      pending = ih.pending;
      added = omega (arith, ih.added);
      tail = ih.tail ∙ ap (λ (x : ℕ). x % 2 ^ 32) (omega arith);
      stopped = ih.stopped;
      placed = placed;
      kept = kept;
    }

  pub loop-Taken :
      (k : ℕ) (ops : List ℕ) (r t : ℕ) (ud ar : ℕ → ℕ)
      → k ≤ 2 ^ b
      → Taken ops k r t ud ar (loop ops (r + k) r (t % 2 ^ 32) ud ar)
  loop-Taken zero ops r t ud ar fits =
      rw (loop-full ops (r + 0) r (t % 2 ^ 32) ud ar (omega arith))
        (pass_none ops 0 r t ud ar refl (omega arith) (λ i op e lt. omega arith))
  loop-Taken (suc k) [] r t ud ar fits =
      rw (loop-nil (r + suc k) r (t % 2 ^ 32) ud ar)
        (pass_none [] (suc k) r t ud ar refl (omega arith) (λ i op e lt. cc))
  loop-Taken (suc k) (op ∷ ops) r t ud ar fits =
      rw
        (
          loop-step op ops (r + suc k) r (t % 2 ^ 32) ud ar (omega arith),
          slot-mod b t small,
          limit,
          wrap,
        )
        (pass_more k op ops r t ud ar
          (loop ops (r + 1 + k) (r + 1) ((t + 1) % 2 ^ 32) (put ud m op) (put ar m m)) fits
          (loop-Taken k ops (r + 1) (t + 1) (put ud m op) (put ar m m) (omega arith)))
    where
      m : ℕ
      m = t % 2 ^ b

      limit : r + suc k ≡ r + 1 + k
      limit = omega arith

      wrap : add32 (t % 2 ^ 32) 1 ≡ (t + 1) % 2 ^ 32
      wrap = omega arith
