-- ===== src/Base/Rings.antt =====
-- Slots of a ring of 2 ^ b entries, indexed by 32-bit counters that wrap.
use Prim.Native.Nat.{ℕ, zero, suc, ◌+◌, ◌-◌, ◌*◌, ◌%◌, ◌^◌, ◌≤◌, ◌<◌, ◌∣◌, bit_and}
use mathlib.Core.Path.{◌≡◌, sym, ap, ◌∙◌}
use mathlib.Core.Logic.{◌≢◌}
use native.Mathlib.Omega.{arith}
use native.Mathlib.Decide.{dec_lt}
use native.Mathlib.Nat.{
  mod-mod_of_dvd, mod-add-mod, mod-lt, mod-eq_of_lt, mod-eq-sub-mod, pow-suc, add-zero,
  dvd_of_mod-eq-zero, mul-mod_right, add-suc, mul_assoc,
}
use model_lib.Base.Bits.{bit_and_low}

pow-add : (a c : ℕ) → 2 ^ (a + c) ≡ 2 ^ a * 2 ^ c
pow-add a zero = rw add-zero (omega arith)
pow-add a (suc c) =
    rw (add-suc a c, pow-suc 2 (a + c), pow-add a c, pow-suc 2 c) (mul_assoc (2 ^ a) (2 ^ c) 2)

-- The slot of a 32-bit counter under the mask is its remainder, also after a wrap.
pub slot-mod : (b x : ℕ) → b ≤ 32 → bit_and (x % 2 ^ 32) (2 ^ b - 1) ≡ x % 2 ^ b
slot-mod b x h = bit_and_low b (x % 2 ^ 32) ∙ mod-mod_of_dvd (2 ^ b) x divides
  where
    divides : 2 ^ b ∣ 2 ^ 32
    divides = dvd_of_mod-eq-zero (2 ^ b) (
        ap (λ (t : ℕ). t % 2 ^ b) (ap (λ (t : ℕ). 2 ^ t) (whole) ∙ pow-add b (32 - b))
        ∙ mul-mod_right (2 ^ b) (2 ^ (32 - b)))
      where
        whole : 32 ≡ b + (32 - b)
        whole = omega arith

pub word-mod : (b x : ℕ) → b ≤ 32 → x % 2 ^ 32 % 2 ^ b ≡ x % 2 ^ b
word-mod b x h = sym (bit_and_low b (x % 2 ^ 32)) ∙ slot-mod b x h

-- Fewer than `p` steps apart, two counters have different remainders.
step-ne : (p m d : ℕ) → 0 < d → d < p → m % p ≢ (m + d) % p
step-ne p m d h k = rw (← mod-add-mod m p d) (elim (dec_lt (m % p + d) p) [
  | yes lt ↦ rw (mod-eq_of_lt lt) (omega arith)
  | no ge ↦
      rw
        (
          mod-eq-sub-mod {n = m % p + d} {m = p} (omega arith),
          mod-eq_of_lt {n = m % p + d - p} {m = p} (omega (arith, mod-lt m {m = p} (omega arith))),
        )
        (omega (arith, mod-lt m {m = p} (omega arith)))
])

pub slot-ne : (p t i j : ℕ) → i < j → j < i + p → (t + i) % p ≢ (t + j) % p
slot-ne p t i j lt far = λ e.
    step-ne p (t + i) (j - i) (omega arith) (omega arith) (e ∙ ap (λ (x : ℕ). x % p) (omega arith))
