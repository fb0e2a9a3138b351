-- ===== src/Heap/Path.antt =====
-- include/__ngr/__core/__intrusive_heap.hpp: the mask reads the turns to a position off its number.
use model_lib.Base.{
  ltb, not, ℕ, zero, suc, ◌+◌, ◌-◌, ◌*◌, ◌/◌, ◌%◌, ◌^◌, ◌≤◌, ◌<◌, ◌≡◌, refl, ap, ◌∙◌, Bool, false,
  List, [], ◌∷◌, ◌==◌, arith, length,
}
use native.Mathlib.Nat.{mod-eq-sub-mod, mod-eq_of_lt, pow-suc}
use model_lib.Base.Words.{add64}
use model_lib.Base.Bits.{mod-pow_top, bit_and_single, pow-pos}
use model_lib.Base.Log.{log2-lt, log2, bit_ceil, log2_bounds}
use model_lib.Heap.{turns_right, path_bit_mask}
use model_lib.Heap.Trees.{one_if, goes_to}
use model_lib.Heap.Displace.{Turns}

-- the turns for the low `j` bits
abbrev pub low_turns : ℕ → ℕ → List Bool
low_turns zero k = []
low_turns (suc j) k = turns_right (2 ^ j) k ∷ low_turns j k

length-low_turns : (j k : ℕ) → length (low_turns j k) ≡ j
length-low_turns zero k = refl
length-low_turns (suc j) k = ap suc (length-low_turns j k)

low_turns-Turns : (j k : ℕ) → Turns (2 ^ j / 2) k (low_turns j k)
low_turns-Turns zero k = refl
low_turns-Turns (suc j) k =
    let half : 2 ^ suc j / 2 ≡ 2 ^ j = omega (arith, pow-suc 2 j) in
    rw half ((λ e. absurd (omega (arith, pow-pos j))), refl, low_turns-Turns j k)

one_bit : (d p : ℕ) → d ≤ 1 → 0 < p → one_if (not (d * p == 0)) ≡ d
one_bit zero p h k = ground arith
one_bit (suc zero) p h k = ground arith
one_bit (suc (suc d)) p h k = absurd (omega arith)

one_if-turns_right : (j k : ℕ) → one_if (turns_right (2 ^ j) k) ≡ k / 2 ^ j % 2
one_if-turns_right j k =
    rw (bit_and_single j k) (one_bit (k / 2 ^ j % 2) (2 ^ j) (omega arith) (pow-pos j))

goes_to-low_turns : (j k v : ℕ) → goes_to v (low_turns j k) ≡ v * 2 ^ j + k % 2 ^ j
goes_to-low_turns zero k v = omega arith
goes_to-low_turns (suc j) k v =
    rw
      (
        goes_to-low_turns j k (2 * v + one_if (turns_right (2 ^ j) k)),
        one_if-turns_right j k,
        mod-pow_top j k,
        pow-suc 2 j,
      )
      (grind arith)

-- the turns from the root to position `k`
abbrev pub way : ℕ → List Bool
way k = low_turns (log2 k) k

pub way-Turns : (k : ℕ) → 0 < k → k + 1 < 2 ^ 64 → Turns (path_bit_mask k) k (way k)
unfolding path_bit_mask bit_ceil
way-Turns k pos h =
    let here : add64 k 1 ≡ k + 1 = mod-eq_of_lt h in
    let big : ltb (k + 1) 2 ≡ false = ground arith in
    let half : 2 ^ suc (log2 k) / 4 ≡ 2 ^ log2 k / 2 = omega (arith, pow-suc 2 (log2 k)) in
    let back : k + 1 - 1 ≡ k = omega arith in
    rw (here, big, back, half) (low_turns-Turns (log2 k) k)

pub goes_to-way : (k : ℕ) → 0 < k → k < 2 ^ 64 → goes_to 1 (way k) ≡ k
goes_to-way k pos h =
    let (lo, hi) = log2_bounds k pos h in
    goes_to-low_turns (log2 k) k 1
    ∙ omega (arith, lo, hi, above (2 ^ log2 k) k lo (omega (arith, hi, pow-suc 2 (log2 k))))
  where
    above : (p k : ℕ) → p ≤ k → k < p * 2 → k % p ≡ k - p
    above p k le lt = mod-eq-sub-mod le ∙ mod-eq_of_lt (omega arith)

pub length-way : (k : ℕ) → 0 < k → k < 2 ^ 64 → length (way k) < 64
length-way k pos h = omega (arith, length-low_turns (log2 k) k, log2-lt k 63 pos h h)
