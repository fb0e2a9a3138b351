-- ===== src/RoundUp.antt =====
-- include/__ngr/__core/__round_up.hpp: `__round_up` on 64-bit words and on addresses.
use Prim.Native.Nat.{bit_and}
use native.Mathlib.Nat.{pow-le-pow_right, mod-lt, mul-mod_left, div-add-mod'}
use model_lib.Base.{ℕ, ◌+◌, ◌-◌, ◌*◌, ◌/◌, ◌%◌, ◌^◌, ◌≤◌, ◌<◌, ◌≡◌, ap, ◌∙◌, arith}
use model_lib.Base.Words.{add64, sub64, not64}
use model_lib.Base.Bits.{bit_and_high, pow-pos}

unfoldable pub round_up : ℕ → ℕ → ℕ
round_up x a = bit_and (sub64 (add64 x a) 1) (not64 (sub64 a 1))

-- The overload on pointers computes the same on the address.
unfoldable pub round_up_ptr : ℕ → ℕ → ℕ
round_up_ptr ptr a = bit_and (sub64 (add64 ptr a) 1) (not64 (sub64 a 1))

-- With a power of two and no wrap both keep the address bits above the alignment.
pub round_up-eq :
    (k x : ℕ)
    → k < 64
    → x + 2 ^ k ≤ 2 ^ 64
    → round_up x (2 ^ k) ≡ x + 2 ^ k - 1 - (x + 2 ^ k - 1) % 2 ^ k
unfolding round_up
round_up-eq k x hk fits =
    rw (argument, mask)
      (rw width at (bit_and_high k (64 - k) (x + 2 ^ k - 1) (rw width (omega (arith, pow-pos k)))))
  where
    width : k + (64 - k) ≡ 64
    width = omega arith

    small : 2 ^ k ≤ 2 ^ 63
    small = pow-le-pow_right {n = 2} (omega arith) {i = k} {j = 63} (omega arith)

    argument : sub64 (add64 x (2 ^ k)) 1 ≡ x + 2 ^ k - 1
    argument = omega (arith, pow-pos k, fits)

    mask : not64 (sub64 (2 ^ k) 1) ≡ 2 ^ 64 - 2 ^ k
    mask = omega (arith, pow-pos k, small)

-- Rounding up to a power of two gives the least multiple that is not below `x`.
pub round_up_least :
    (k x : ℕ)
    → k < 64
    → x + 2 ^ k ≤ 2 ^ 64
    → (x ≤ round_up x (2 ^ k)) × (round_up x (2 ^ k) < x + 2 ^ k) × (round_up x (2 ^ k) % 2 ^ k ≡ 0)
round_up_least k x hk fits = rw (round_up-eq k x hk fits) (below, above, multiple)
  where
    m : ℕ
    m = x + 2 ^ k - 1

    below : x ≤ m - m % 2 ^ k
    below = omega (arith, mod-lt m (pow-pos k))

    above : m - m % 2 ^ k < x + 2 ^ k
    above = omega (arith, pow-pos k)

    multiple : (m - m % 2 ^ k) % 2 ^ k ≡ 0
    multiple = ap (λ (t : ℕ). t % 2 ^ k) whole ∙ mul-mod_left (m / 2 ^ k) (2 ^ k)
      where
        whole : m - m % 2 ^ k ≡ m / 2 ^ k * 2 ^ k
        whole = omega (arith, div-add-mod' m (2 ^ k))
