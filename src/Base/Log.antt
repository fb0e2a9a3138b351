-- ===== src/Base/Log.antt =====
-- The position of the highest set bit of a 64-bit word, and what the standard library and the
-- compiler's builtins compute from it.
use Prim.Native.Nat.{ℕ, zero, suc, ◌-◌, ◌/◌, ◌^◌, ◌≤◌, ◌<◌}
use mathlib.Core.Path.{◌≡◌}
use mathlib.Core.Logic.{inl, inr}
use native.Mathlib.Omega.{arith}
use native.Mathlib.Nat.{pow-suc, pow-le-pow_right}
use native.Mathlib.Decide.{dec_lt}
use model_lib.Base.Tests.{ltb, if◌then◌else◌, Bool-cases}
use model_lib.Base.Bits.{pow-pos}

unfoldable pub log2_fuel : ℕ → ℕ → ℕ
log2_fuel zero n = 0
log2_fuel (suc k) n = let rest = log2_fuel k (n / 2) in if ltb n 2 then 0 else suc rest

unfoldable pub log2 : ℕ → ℕ
unfolding log2_fuel
log2 n = log2_fuel 64 n

-- `__builtin_clz` and `__builtin_clzll`, which are undefined at 0
unfoldable pub clz : ℕ → ℕ
unfolding log2
clz n = 31 - log2 n

unfoldable pub clzll : ℕ → ℕ
unfolding log2
clzll n = 63 - log2 n

-- `std::bit_ceil`: the least power of two that is not below `n`
unfoldable pub bit_ceil : ℕ → ℕ
unfolding log2
bit_ceil n = if ltb n 2 then 1 else 2 ^ suc (log2 (n - 1))

log2_fuel_bounds :
    (k n : ℕ) → 0 < n → n < 2 ^ k → (2 ^ log2_fuel k n ≤ n) × (n < 2 ^ suc (log2_fuel k n))
unfolding log2_fuel
log2_fuel_bounds zero n p h = absurd (omega arith)
log2_fuel_bounds (suc k) n p h = elim (Bool-cases (ltb n 2)) [
  | inl small ↦ rw small (ground arith)
  | inr big ↦ rw big (
      ground (
        arith,
        pow-suc 2 k,
        pow-suc 2 (log2_fuel k (n / 2)),
        pow-suc 2 (suc (log2_fuel k (n / 2))),
        log2_fuel_bounds k (n / 2),
      ))
]

pub log2_bounds : (n : ℕ) → 0 < n → n < 2 ^ 64 → (2 ^ log2 n ≤ n) × (n < 2 ^ suc (log2 n))
unfolding log2
log2_bounds n p h = log2_fuel_bounds 64 n p h

-- Powers of two enclose a number in one way only.
pub exponent_le : (a b n : ℕ) → 2 ^ a ≤ n → n < 2 ^ suc b → a ≤ b
exponent_le a b n p q = elim (dec_lt b a) [
  | yes h ↦ absurd (omega (arith, pow-le-pow_right {n = 2} (omega arith) {i = suc b} {j = a} h))
  | no h ↦ omega arith
]

pub log2_unique : (n e : ℕ) → n < 2 ^ 64 → 2 ^ e ≤ n → n < 2 ^ suc e → log2 n ≡ e
log2_unique n e h p q =
    let pos : 0 < n = omega (arith, pow-pos e) in
    let b = log2_bounds n pos h in
    omega (arith, exponent_le (log2 n) e n b.0 q, exponent_le e (log2 n) n p b.1)

pub log2-lt : (n w : ℕ) → 0 < n → n < 2 ^ 64 → n < 2 ^ suc w → log2 n ≤ w
log2-lt n w p h q = exponent_le (log2 n) w n (log2_bounds n p h).0 q
