-- ===== src/Circular/Fifo.antt =====
-- include/__ngr/__core/__circular_buffer.hpp: the buffer is a queue, first in first out, also when
-- its counters wrap.
use model_lib.Base.Bits.{bit_and_low}
use mathlib.Core.Path.{subst}
use native.Mathlib.Nat.{mod-add-mod, pow-le-pow_right}
use model_lib.Base.{
  Bool-cases, ◌∙◌, sym, ap, ==-self, inr, inl, get_elem?-snoc, ne→==false, length-append, ℕ, zero,
  suc, ◌+◌, ◌-◌, ◌%◌, ◌^◌, ◌≤◌, ◌<◌, ◌≡◌, ◌==◌, refl, List, [], ◌∷◌, ◌++◌, some, length, take, drop,
  get_elem?, arith, Bool, if◌then◌else◌, false,
}
use model_lib.Base.Words.{add32}
use model_lib.Base.Rings.{slot-mod, word-mod, slot-ne}
use model_lib.Circular.{
  bit_and, Circular, push_back, pop_front, front, drain, while_loop, consume_front_while,
}

-- The buffer holds `xs`, the first at its head.
pub record HoldsFifo {A : Type 0} (b : ℕ) (c : Circular A) (xs : List A) : Type 0 where
  pub ends : c.tail ≡ (c.head + length xs) % 2 ^ 32
  pub head_word : c.head < 2 ^ 32
  pub room : length xs ≤ 2 ^ b
  pub at : (i : ℕ) (v : A) → get_elem? xs i ≡ some v → c.storage ((c.head + i) % 2 ^ b) ≡ v

-- how many elements `fn` accepts before the first that it refuses
abbrev pub prefix_length : {A : Type 0} → (A → Bool) → List A → ℕ
prefix_length fn [] = 0
prefix_length fn (x ∷ xs) = if fn x then suc (prefix_length fn xs) else 0

prefix_length-le : {A : Type 0} (fn : A → Bool) (xs : List A) → prefix_length fn xs ≤ length xs
prefix_length-le fn [] = omega arith
prefix_length-le fn (x ∷ xs) = ground (arith, prefix_length-le fn xs)

size-le : (b : ℕ) → b < 32 → 2 ^ b ≤ 2 ^ 31
size-le b small = pow-le-pow_right {n = 2} (omega arith) {i = b} {j = 31} (omega arith)

still : (n : ℕ) → n < 2 ^ 32 → (n + 0) % 2 ^ 32 ≡ n
still n h = omega arith

module _ {A : Type 0} (b : ℕ) (small : b < 32) where
  -- Pushing at the back while there is room adds the element behind the others.
  pub push_back-HoldsFifo :
      (v : A) (c : Circular A) (xs : List A)
      → HoldsFifo b c xs
      → length xs < 2 ^ b
      → HoldsFifo b (push_back b v c) (xs ++ v ∷ [])
  unfolding push_back
  push_back-HoldsFifo v c xs h lt = record {
    ends = tail_next;
    head_word = h.head_word;
    room = omega (arith, length-append xs (v ∷ []));
    at = λ i w e. elim (get_elem?-snoc xs v i w e) [
      | inl (l, e') ↦ rw (other i l) (h.at i w e')
      | inr (l, e') ↦ rw (l, slot, ==-self ((c.head + length xs) % 2 ^ b)) e'
    ];
  }
    where
      slot : bit_and c.tail (2 ^ b - 1) ≡ (c.head + length xs) % 2 ^ b
      slot = rw h.ends (slot-mod b (c.head + length xs) (omega arith))

      tail_next : add32 c.tail 1 ≡ (c.head + length (xs ++ v ∷ [])) % 2 ^ 32
      tail_next = omega (arith, h.ends, length-append xs (v ∷ []))

      other : (i : ℕ) → i < length xs → ((c.head + i) % 2 ^ b == bit_and c.tail (2 ^ b - 1)) ≡ false
      other i l = rw slot (ne→==false _ _ (slot-ne (2 ^ b) c.head i (length xs) l (omega arith)))

  pop_front-HoldsFifo :
      (x : A) (c : Circular A) (xs : List A)
      → HoldsFifo b c (x ∷ xs)
      → (front b c ≡ x) × HoldsFifo b (pop_front c) xs
  unfolding front pop_front
  pop_front-HoldsFifo x c xs h = (
    first,
    record {
      ends = tail_same;
      head_word = omega arith;
      room = omega (arith, h.room);
      at = λ i v e. ahead i ∙ h.at (suc i) v e;
    },
  )
    where
      first : c.storage (bit_and c.head (2 ^ b - 1)) ≡ x
      first =
          rw (bit_and_low b c.head)
            (ap c.storage (ap (λ (t : ℕ). t % 2 ^ b) (omega arith)) ∙ h.at 0 x refl)

      tail_same : c.tail ≡ (add32 c.head 1 + length xs) % 2 ^ 32
      tail_same = omega (arith, h.ends)

      ahead :
          (i : ℕ) → c.storage ((add32 c.head 1 + i) % 2 ^ b) ≡ c.storage ((c.head + suc i) % 2 ^ b)
      ahead i = ap c.storage (
          sym (mod-add-mod (add32 c.head 1) (2 ^ b) i)
          ∙ ap (λ (t : ℕ). (t + i) % 2 ^ b) (word-mod b (c.head + 1) (omega arith))
          ∙ mod-add-mod (c.head + 1) (2 ^ b) i
          ∙ ap (λ (t : ℕ). t % 2 ^ b) (omega arith))

  popped : (c : Circular A) (m : ℕ) → ((pop_front c).head + m) % 2 ^ 32 ≡ (c.head + suc m) % 2 ^ 32
  unfolding pop_front
  popped c m = omega arith

  while_loop-head :
      (k h x : ℕ) (fn : A → Bool) (c : Circular A)
      → while_loop b k fn h (record c { head = x }) ≡ while_loop b k fn h c
  unfolding while_loop
  while_loop-head zero h x fn c = refl
  while_loop-head (suc k) h x fn c = rw (while_loop-head k (add32 h 1) x fn c) refl

  after_pop :
      (k : ℕ) (fn : A → Bool) (c : Circular A) (xs : List A)
      → while_loop b k fn (pop_front c).head (pop_front c)
        ≡ some (((pop_front c).head + prefix_length fn xs) % 2 ^ 32)
      → while_loop b k fn (add32 c.head 1) c ≡ some ((c.head + suc (prefix_length fn xs)) % 2 ^ 32)
  unfolding pop_front
  after_pop k fn c xs e =
      sym (while_loop-head k (add32 c.head 1) (add32 c.head 1) fn c)
      ∙ e
      ∙ ap some (popped c (prefix_length fn xs))

  -- The loop stops at the first element that `fn` refuses, or at the tail.
  while_loop-ends :
      (k : ℕ) (fn : A → Bool) (c : Circular A) (xs : List A)
      → HoldsFifo b c xs
      → length xs < k
      → while_loop b k fn c.head c ≡ some ((c.head + prefix_length fn xs) % 2 ^ 32)
  unfolding while_loop front
  while_loop-ends zero fn c xs h fuel = absurd (omega arith)
  while_loop-ends (suc k) fn c [] h fuel =
      let same : c.tail ≡ c.head = omega (arith, h.ends, h.head_word) in
      rw (same, ==-self c.head, still c.head h.head_word)
  while_loop-ends (suc k) fn c (x ∷ xs) h fuel =
      let first = (pop_front-HoldsFifo x c xs h).0 in
      let ne =
        ne→==false c.head c.tail (omega (arith, h.ends, h.head_word, h.room, size-le b small)) in
      elim (Bool-cases (fn x)) [
        | inl accepted ↦
            rw (ne, first, accepted)
              (after_pop k fn c xs (
                while_loop-ends k fn (pop_front c) xs (pop_front-HoldsFifo x c xs h).1
                  (omega arith)))
        | inr refused ↦ rw (ne, first, refused, still c.head h.head_word)
      ]

  drain-take :
      (k m : ℕ) (c : Circular A) (xs : List A)
      → HoldsFifo b c xs
      → m ≤ length xs
      → m < k
      → (c' : Circular A) × (drain b k ((c.head + m) % 2 ^ 32) c ≡ some (take m xs, c'))
        × HoldsFifo b c' (drop m xs)
  unfolding drain
  drain-take zero m c xs h fits fuel = absurd (omega arith)
  drain-take (suc k) zero c xs h fits fuel = (c, rw (still c.head h.head_word, ==-self c.head), h)
  drain-take (suc k) (suc m) c [] h fits fuel = absurd (omega arith)
  drain-take (suc k) (suc m) c (x ∷ xs) h fits fuel =
      let (first, rest) = pop_front-HoldsFifo x c xs h in
      let (c', e, h') = drain-take k m (pop_front c) xs rest (omega arith) (omega arith) in
      let e' = subst (λ t. drain b k t (pop_front c) ≡ some (take m xs, c')) (popped c m) e in
      let ne =
        ne→==false c.head ((c.head + suc m) % 2 ^ 32)
          (omega (arith, h.head_word, h.room, size-le b small)) in
      (c', rw (ne, first, e'), h')

  -- Consuming while `fn` accepts, on more rounds than there are elements, gives a prefix whose
  -- draining takes the elements up to the first that `fn` refuses, in order, and leaves a buffer
  -- that holds the others.
  pub consume_front_while-drain :
      (fuel : ℕ) (fn : A → Bool) (c : Circular A) (xs : List A)
      → HoldsFifo b c xs
      → length xs < fuel
      → (last : ℕ) × (c' : Circular A) × (consume_front_while b fuel fn c ≡ some last)
        × (drain b fuel last c ≡ some (take (prefix_length fn xs) xs, c'))
        × HoldsFifo b c' (drop (prefix_length fn xs) xs)
  unfolding consume_front_while
  consume_front_while-drain fuel fn c xs h fuel' =
      let (c', e, h') =
        drain-take fuel (prefix_length fn xs) c xs h (prefix_length-le fn xs)
          (omega (arith, prefix_length-le fn xs)) in
      (_, c', while_loop-ends fuel fn c xs h fuel', e, h')
