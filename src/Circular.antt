-- ===== src/Circular.antt =====
-- include/__ngr/__core/__circular_buffer.hpp: a ring of 2^b elements between 32-bit counters that
-- wrap. A view of a prefix is the counter it ends at.
pub mod Fifo
use Prim.Native.Nat.{bit_and}
use model_lib.Base.{
  ℕ, zero, suc, ◌+◌, ◌-◌, ◌^◌, ◌==◌, Bool, true, false, ◌&&◌, not, Option, none, some, List, [],
  ◌∷◌, if◌then◌else◌,
}
use model_lib.Base.Words.{add32}

pub record Circular (A : Type 0) : Type 0 where
  pub storage : ℕ → A
  pub head : ℕ
  pub tail : ℕ

-- the index that `_M_data` adds to the storage
abbrev pub data_at : ℕ → ℕ → ℕ
data_at b n = bit_and n (2 ^ b - 1)

abbrev pub consed : {A : Type 0} → A → Option (List A × Circular A) → Option (List A × Circular A)
consed v none = none
consed v (some (vs, c)) = some (v ∷ vs, c)

-- `_M_empty` of a prefix that ends at `last`
abbrev pub empty : {A : Type 0} → ℕ → Circular A → Bool
empty last c = c.head == last

-- `_M_pop_front`
unfoldable pub pop_front : {A : Type 0} → Circular A → Circular A
pop_front c = record c { head = add32 c.head 1 }

-- `_M_consume_swap` asserts that there is an element.
unfoldable pub consume_swap : {A : Type 0} → Circular A → Option ℕ
consume_swap c = if c.head == c.tail then none else some c.tail

module _ {A : Type 0} (b : ℕ) where
  -- `_M_push_back`, with the write of `v` through the reference it returns
  unfoldable pub push_back : A → Circular A → Circular A
  push_back v c = record c {
    storage = λ i. if i == data_at b c.tail then v else c.storage i;
    tail = add32 c.tail 1;
  }

  -- `_M_front`
  unfoldable pub front : Circular A → A
  front c = c.storage (data_at b c.head)

  -- The loop of `_M_consume_front_while`, on fuel.
  unfoldable pub while_loop : ℕ → (A → Bool) → ℕ → Circular A → Option ℕ
  while_loop zero fn h c = none
  while_loop (suc k) fn h c =
      let rest = while_loop k fn (add32 h 1) c in
      if not (h == c.tail) && fn (c.storage (data_at b h)) then rest else some h

  unfoldable pub consume_front_while : ℕ → (A → Bool) → Circular A → Option ℕ
  unfolding while_loop
  consume_front_while fuel fn c = while_loop fuel fn c.head c

  -- What a client does with a prefix: take the front and pop it until the prefix is empty.
  unfoldable pub drain : ℕ → ℕ → Circular A → Option (List A × Circular A)
  unfolding pop_front front
  drain zero last c = none
  drain (suc k) last c =
      if empty last c then some ([], c) else consed (front c) (drain k last (pop_front c))
