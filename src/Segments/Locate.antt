-- ===== src/Segments/Locate.antt =====
-- include/__ngr/__core/__atomic_segment_array.hpp: `__locate` is the bijection between places and
-- the slots of the segments.
use model_lib.Base.{ℕ, suc, ◌+◌, ◌-◌, ◌^◌, ◌≤◌, ◌<◌, ◌≡◌, refl, arith, ap, ◌∙◌}
use model_lib.Base.Words.{add32, sub32}
use model_lib.Base.Bits.{pow-pos}
use model_lib.Base.Log.{log2, log2_bounds, exponent_le, log2_unique}
use model_lib.Segments.{locate}
use native.Mathlib.Nat.{pow-suc}

locate-log2 :
    (w : ℕ)
    → w < 2 ^ 32 - 1
    → locate w
      ≡ (63 - (63 - log2 (add32 w 1)), sub32 w (sub32 (2 ^ (63 - (63 - log2 (add32 w 1)))) 1))
unfolding locate
locate-log2 w h = refl

pub locate-eq : (w : ℕ) → w < 2 ^ 32 - 1 → locate w ≡ (log2 (w + 1), w + 1 - 2 ^ log2 (w + 1))
locate-eq w h =
    locate-log2 w h
    ∙ rw (no_wrap, back) (ap (λ (t : ℕ). (log2 (w + 1), t)) (omega (arith, bounds.0)))
  where
    no_wrap : add32 w 1 ≡ w + 1
    no_wrap = omega arith

    bounds : (2 ^ log2 (w + 1) ≤ w + 1) × (w + 1 < 2 ^ suc (log2 (w + 1)))
    bounds = log2_bounds (w + 1) (omega arith) (omega arith)

    back : 63 - (63 - log2 (w + 1)) ≡ log2 (w + 1)
    back = omega (arith, exponent_le (log2 (w + 1)) 31 (w + 1) bounds.0 (omega arith))

-- Every place but the last of the index type is slot `m` of segment `n`, where `n` is below 32 and
-- `m` below the segment's 2 ^ n slots, and the segments before `n` have 2 ^ n - 1 slots in all.
pub locate_slot :
    (w : ℕ)
    → w < 2 ^ 32 - 1
    → ((locate w).0 < 32)
      × ((locate w).1 < 2 ^ (locate w).0)
      × (w ≡ 2 ^ (locate w).0 - 1 + (locate w).1)
locate_slot w h = rw (locate-eq w h) (
  omega (arith, exponent_le (log2 (w + 1)) 31 (w + 1) b.0 (omega arith)),
  omega (arith, b, pow-suc 2 (log2 (w + 1))),
  omega (arith, b),
)
  where
    b : (2 ^ log2 (w + 1) ≤ w + 1) × (w + 1 < 2 ^ suc (log2 (w + 1)))
    b = log2_bounds (w + 1) (omega arith) (omega arith)

-- Slot `m` of segment `n` is the place `2 ^ n - 1 + m`, and that of no other slot.
pub locate_place :
    (n m : ℕ) → n < 32 → m < 2 ^ n → 2 ^ n - 1 + m < 2 ^ 32 - 1 → locate (2 ^ n - 1 + m) ≡ (n, m)
locate_place n m hn hm hw =
    locate-eq (2 ^ n - 1 + m) hw ∙ rw (place, level) (ap (λ (t : ℕ). (n, t)) (omega arith))
  where
    place : 2 ^ n - 1 + m + 1 ≡ 2 ^ n + m
    place = omega (arith, pow-pos n)

    level : log2 (2 ^ n + m) ≡ n
    level = log2_unique (2 ^ n + m) n (omega arith) (omega arith) (omega (arith, pow-suc 2 n))
