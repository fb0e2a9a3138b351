-- ===== src/Scheduler/Submission/Rounds.antt =====
-- include/__ngr/__core/__scheduler.hpp: one call of `__submission_queue::_M_submit`, with the queue
-- running and with it stopping.
use mathlib.Core.Path.{subst}
use native.Mathlib.Nat.{pow-le-pow_right}
use model_lib.Base.{
  ℕ, suc, ◌+◌, ◌-◌, ◌^◌, ◌%◌, ◌≤◌, ◌<◌, ◌≡◌, ◌≢◌, refl, ap, sym, ◌∙◌, Bool, true, false, List, [],
  ◌∷◌, ◌++◌, arith, length, drop, get_elem?, some, min, lt→ltb,
}
use model_lib.Base.Words.{sub32}
use model_lib.Base.Rings.{slot-ne}
use model_lib.Scheduler.Submission.{Ring, Pass, umin, submit_loop, submit}
use model_lib.Scheduler.Submission.Laws.{Taken, loop-Taken, loop}

-- A ring of 2 ^ b entries with `f` entries in flight behind the counter `h`, both counters kept
-- modulo 2 ^ 32.
pub record IsRing (b h f : ℕ) (q : Ring) : Type 0 where
  pub mask : q.mask ≡ 2 ^ b - 1
  pub n_slot : q.n_slot ≡ 2 ^ b
  pub head : q.head ≡ h % 2 ^ 32
  pub tail : q.tail ≡ (h + f) % 2 ^ 32
  pub fits : f ≤ 2 ^ b

-- What one call adds to a ring that has room for `k` of the tasks `ops`.
pub record Added (b h f k : ℕ) (ops : List ℕ) (q q' : Ring) (p : Pass) : Type 0 where
  pub count : p.added ≡ min k (length ops)
  pub pending : p.pending ≡ drop k ops
  pub stopped : p.stopped ≡ []
  pub ring : IsRing b h (f + min k (length ops)) q'
  pub placed :
      (i op : ℕ)
      → get_elem? ops i ≡ some op
      → i < k
      → (q'.user_data ((h + f + i) % 2 ^ b) ≡ op)
        × (q'.array ((h + f + i) % 2 ^ b) ≡ (h + f + i) % 2 ^ b)
  pub in_flight :
      (j : ℕ)
      → j < f
      → (q'.user_data ((h + j) % 2 ^ b) ≡ q.user_data ((h + j) % 2 ^ b))
        × (q'.array ((h + j) % 2 ^ b) ≡ q.array ((h + j) % 2 ^ b))

submit-loop :
    (is_cancel : ℕ → Bool) (b h f : ℕ) (q : Ring) (ops : List ℕ) (max : ℕ) (hb : b < 32)
    → IsRing b h f q
    → (submit is_cancel q ops max false).0
      ≡ loop is_cancel b
          (omega arith)
          ops
          (0 + min max (2 ^ b - f))
          0
          ((h + f) % 2 ^ 32)
          q.user_data
          q.array
unfolding submit umin
submit-loop is_cancel b h f q ops max hb is =
    λ i. submit_loop is_cancel (is.mask i) ops (room i) 0 (is.tail i) false q.user_data q.array
  where
    half : 2 ^ b ≤ 2 ^ 31
    half = pow-le-pow_right {n = 2} (omega arith) {i = b} {j = 31} (omega arith)

    flight : sub32 q.tail q.head ≡ f
    flight = omega (arith, is.tail, is.head, is.fits, half)

    free : sub32 q.n_slot (sub32 q.tail q.head) ≡ 2 ^ b - f
    free = rw (flight, is.n_slot) (omega (arith, half, is.fits))

    least : (a c : ℕ) → umin a c ≡ 0 + min a c
    least a c = ground arith

    room : umin max (sub32 q.n_slot (sub32 q.tail q.head)) ≡ 0 + min max (2 ^ b - f)
    room = rw free (least max (2 ^ b - f))

abbrev stored : Ring → Pass → Ring
stored q p = record q { tail = p.tail; user_data = p.user_data; array = p.array }

-- What the loop took, seen from the ring.
stored-Added :
    (is_cancel : ℕ → Bool) (b h f k : ℕ) (hb : b ≤ 32) (q : Ring) (ops : List ℕ)
    → IsRing b h f q
    → k ≤ 2 ^ b - f
    → (p : Pass) → Taken is_cancel b hb ops k 0 (h + f) q.user_data q.array p
    → Added b h f k ops q (stored q p) p
stored-Added is_cancel b h f k hb q ops is room p t = record {
  count = t.added ∙ omega arith;
  pending = t.pending;
  stopped = t.stopped;
  ring = record {
    mask = is.mask;
    n_slot = is.n_slot;
    head = is.head;
    tail = t.tail ∙ ap (λ (x : ℕ). x % 2 ^ 32) (omega arith);
    fits = omega (arith, is.fits);
  };
  placed = t.placed;
  in_flight = λ j lt. t.kept ((h + j) % 2 ^ b) (λ i l. slot-apart i j l lt);
}
  where
    slot-apart : (i j : ℕ) → i < min k (length ops) → j < f → (h + j) % 2 ^ b ≢ (h + f + i) % 2 ^ b
    slot-apart i j l lt e =
        slot-ne (2 ^ b) h j (f + i) (omega arith) (omega (arith, is.fits))
          (e ∙ ap (λ (x : ℕ). x % 2 ^ b) (omega arith))

-- A queue that is not stopping takes tasks from the front, as many as the limit and the free
-- entries allow, one to an entry behind those in flight, and writes no entry that is in flight.
pub submit-Added :
    (is_cancel : ℕ → Bool) (b h f : ℕ) (q : Ring) (ops : List ℕ) (max : ℕ)
    → b < 32
    → IsRing b h f q
    → let (p, q') = submit is_cancel q ops max false in Added b h f (min max (2 ^ b - f)) ops q q' p
unfolding submit
submit-Added is_cancel b h f q ops max hb is =
    subst (λ (p : Pass). Added b h f (min max (2 ^ b - f)) ops q (stored q p) p)
      (sym (submit-loop is_cancel b h f q ops max hb is))
      (stored-Added is_cancel b h f (min max (2 ^ b - f)) (omega arith) q ops is (omega arith) _ (
        loop-Taken is_cancel b (omega arith) (min max (2 ^ b - f)) ops 0 (h + f) q.user_data q.array
          (omega arith)))

abbrev pub add_stopped : List ℕ → Pass → Pass
add_stopped ops p = record p { stopped = ops ++ p.stopped }

-- A queue that is stopping stops the tasks in front of the first cancellation and submits none of
-- them; from that cancellation on it goes on as if it were not stopping, and submits the tasks
-- behind it too.
pub submit_loop-until_cancel :
    (is_cancel : ℕ → Bool) (mask : ℕ) (front : List ℕ) (c : ℕ) (rest : List ℕ) (max r tail : ℕ)
    (ud ar : ℕ → ℕ)
    → ((i op : ℕ) → get_elem? front i ≡ some op → is_cancel op ≡ false)
    → is_cancel c ≡ true
    → r < max
    → submit_loop is_cancel mask (front ++ c ∷ rest) max r tail true ud ar
      ≡ add_stopped front (submit_loop is_cancel mask (c ∷ rest) max r tail false ud ar)
unfolding submit_loop
submit_loop-until_cancel is_cancel mask [] c rest max r tail ud ar plain cancels lt = rw cancels
submit_loop-until_cancel is_cancel mask (op ∷ front) c rest max r tail ud ar plain cancels lt =
    step
    ∙ ap (add_stopped (op ∷ [])) (
        submit_loop-until_cancel is_cancel mask front c rest max r tail ud ar
          (λ i o e. plain (suc i) o e) cancels lt)
  where
    step :
        submit_loop is_cancel mask (op ∷ front ++ c ∷ rest) max r tail true ud ar
        ≡ add_stopped
            (op ∷ [])
            (submit_loop is_cancel mask (front ++ c ∷ rest) max r tail true ud ar)
    step = rw (lt→ltb r max lt, plain 0 op refl)
