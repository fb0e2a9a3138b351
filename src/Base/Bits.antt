-- ===== src/Base/Bits.antt =====
-- Masks: `x & (2 ^ k - 1)` at every width, from the digit recursion behind `bit_and`.
use Prim.Native.Nat.{
  ℕ, zero, suc, ◌+◌, ◌-◌, ◌*◌, ◌/◌, ◌%◌, ◌^◌, ◌≤◌, ◌<◌, min, bit_and, digits, bit_and-bitwise,
}
use mathlib.Core.Path.{sym, ◌≡◌, refl, ap, ◌∙◌}
use native.Mathlib.Decide.{dec_lt}
use native.Mathlib.Omega.{arith}
use native.Mathlib.Nat.{
  div-div-eq-div-mul, mul_comm, pow-suc, add_comm, add-mul-mod_self_right, mod-eq_of_lt, mod-lt,
  div-add-mod', suc-add, zero-add, pow-le-pow_right, le-add_right,
}

-- The digit recursion on `fuel`: one unit of fuel for each binary digit of `x` is enough.
abbrev common : (fuel x y : ℕ) → ℕ
common fuel x y = digits (λ y. zero) min fuel x y

common-suc : (fuel x y : ℕ) → x ≤ fuel → common (suc fuel) x y ≡ common fuel x y
common-suc zero zero y h = refl
common-suc zero (suc x) y h = absurd (omega arith)
common-suc (suc fuel) zero y h = refl
common-suc (suc fuel) (suc x) y h = omega (arith, common-suc fuel (suc x / 2) (y / 2) (omega arith))

common-enough : (fuel least x y : ℕ) → least ≤ fuel → x ≤ least → common fuel x y ≡ common least x y
common-enough zero least x y h k =
    let same : zero ≡ least = omega arith in ap (λ (t : ℕ). common t x y) same
common-enough (suc fuel) least x y h k = elim (dec_lt fuel least) [
  | yes lt ↦ let same : suc fuel ≡ least = omega arith in ap (λ (t : ℕ). common t x y) same
  | no ge ↦ common-suc fuel x y (omega arith) ∙ common-enough fuel least x y (omega arith) k
]

nothing_common : (y : ℕ) → bit_and 0 y ≡ 0
nothing_common y = bit_and-bitwise 0 y

-- A conjunction by its lowest digit and the rest.
bit_and-halves : (x y : ℕ) → bit_and x y ≡ min (x % 2) (y % 2) + 2 * bit_and (x / 2) (y / 2)
bit_and-halves zero y = omega (arith, nothing_common (y / 2), nothing_common y)
bit_and-halves (suc x) y =
    let half : suc x / 2 ≤ x = omega arith in
    omega (
      arith,
      common-enough x (suc x / 2) (suc x / 2) (y / 2) half (omega arith),
      bit_and-bitwise (suc x / 2) (y / 2),
      bit_and-bitwise (suc x) y,
    )

clear_below : (x n : ℕ) → x ≤ n → bit_and x 0 ≡ 0
clear_below zero n h = nothing_common 0
clear_below (suc x) zero h = absurd (omega arith)
clear_below (suc x) (suc n) h =
    let rest = clear_below (suc x / 2) n (omega arith) in
    omega (arith, rest, bit_and-halves (suc x) 0)

pub pow-pos : (k : ℕ) → 0 < 2 ^ k
pow-pos zero = omega arith
pow-pos (suc k) = omega (arith, pow-suc 2 k, pow-pos k)

-- A remainder is what is left below the modulus.
pub mod_unique : (q m r : ℕ) → r < m → (q * m + r) % m ≡ r
mod_unique q m r h = rw (add_comm, add-mul-mod_self_right, mod-eq_of_lt h)

module _ (k a : ℕ) where
  split : a ≡ a / 2 / 2 ^ k * 2 ^ suc k + (a / 2 % 2 ^ k * 2 + a % 2)
  split =
      omega (arith, ap (λ (t : ℕ). a / 2 / 2 ^ k * t) (pow-suc 2 k), div-add-mod' (a / 2) (2 ^ k))

  mod-pow-suc : a % 2 ^ suc k ≡ a / 2 % 2 ^ k * 2 + a % 2
  mod-pow-suc =
      ap (λ (t : ℕ). t % 2 ^ suc k) split
      ∙ mod_unique (a / 2 / 2 ^ k) (2 ^ suc k) (a / 2 % 2 ^ k * 2 + a % 2)
          (omega (arith, pow-suc 2 k, mod-lt (a / 2) (pow-pos k)))

-- A mask of the k low bits.
pub bit_and_low : (k a : ℕ) → bit_and a (2 ^ k - 1) ≡ a % 2 ^ k
bit_and_low zero a = omega (arith, clear_below a a (omega arith))
bit_and_low (suc k) a = ground (
  arith,
  bit_and-halves a (2 ^ suc k - 1),
  mod-pow-suc k a,
  pow-suc 2 k,
  pow-pos k,
  bit_and_low k (a / 2),
)

-- A mask of all bits of a w-bit word but the k low ones.
pub bit_and_high : (k j a : ℕ) → a < 2 ^ (k + j) → bit_and a (2 ^ (k + j) - 2 ^ k) ≡ a - a % 2 ^ k
bit_and_high zero j a h =
    let h' : a < 2 ^ j = rw zero-add at h in
    rw (zero-add j, bit_and_low j a, mod-eq_of_lt h') (omega arith)
bit_and_high (suc k) j a h = rw (suc-add k j) (
    ground (
      arith,
      bit_and-halves a (2 ^ suc (k + j) - 2 ^ suc k),
      mod-pow-suc k a,
      pow-suc 2 k,
      pow-suc 2 (k + j),
      pow-pos k,
      grow,
      bit_and_high k j (a / 2) below,
    ))
  where
    grow : 2 ^ k ≤ 2 ^ (k + j)
    grow = pow-le-pow_right (omega arith) (le-add_right k j)

    h' : a < 2 ^ suc (k + j)
    h' = rw (suc-add k j) at h

    below : a / 2 < 2 ^ (k + j)
    below = omega (arith, pow-suc 2 (k + j), h')

-- A mask of one bit.
pub bit_and_single : (j a : ℕ) → bit_and (2 ^ j) a ≡ a / 2 ^ j % 2 * 2 ^ j
bit_and_single zero a = ground (arith, bit_and-halves 1 a, nothing_common (a / 2))
bit_and_single (suc j) a =
    let even : 2 ^ suc j % 2 ≡ 0 = omega (arith, pow-suc 2 j) in
    let half : 2 ^ suc j / 2 ≡ 2 ^ j = omega (arith, pow-suc 2 j) in
    let deep : a / 2 ^ suc j ≡ a / 2 / 2 ^ j =
      ap (λ (t : ℕ). a / t) (pow-suc 2 j ∙ mul_comm (2 ^ j) 2)
      ∙ sym (div-div-eq-div-mul a 2 (2 ^ j)) in
    rw (bit_and-halves (2 ^ suc j) a, even, half, deep, bit_and_single j (a / 2), pow-suc 2 j)
      (grind arith)

digit-lt : (d p m : ℕ) → d ≤ 1 → m < p → d * p + m < p * 2
digit-lt zero p m h k = omega arith
digit-lt (suc zero) p m h k = omega arith
digit-lt (suc (suc d)) p m h k = absurd (omega arith)

top_digit : (a p q d m : ℕ) → a ≡ (q * 2 + d) * p + m → a ≡ q * (p * 2) + (d * p + m)
top_digit a p q d m e = grind arith

-- A remainder by its highest digit and the rest.
pub mod-pow_top : (j a : ℕ) → a % 2 ^ suc j ≡ a / 2 ^ j % 2 * 2 ^ j + a % 2 ^ j
mod-pow_top j a =
    let q = a / 2 ^ j in
    let whole : a ≡ (q / 2 * 2 + q % 2) * 2 ^ j + a % 2 ^ j =
      sym (ap (λ (t : ℕ). t * 2 ^ j + a % 2 ^ j) (div-add-mod' q 2) ∙ div-add-mod' a (2 ^ j)) in
    rw (pow-suc 2 j) (
      ap (λ (t : ℕ). t % (2 ^ j * 2)) (top_digit a (2 ^ j) (q / 2) (q % 2) (a % 2 ^ j) whole)
      ∙ mod_unique (q / 2) (2 ^ j * 2) (q % 2 * 2 ^ j + a % 2 ^ j)
          (digit-lt (q % 2) (2 ^ j) (a % 2 ^ j) (omega arith) (mod-lt a (pow-pos j))))
