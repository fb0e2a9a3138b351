-- ===== src/Arena/Batches.antt =====
-- include/__ngr/__core/__memory_resource.hpp: `_M_push` and `_M_try_pop_swap_reversed` on the batches
-- of the ring.
use Prim.Native.Nat.{bit_and}
use model_lib.Base.{
  false, ℕ, suc, ◌+◌, ◌-◌, ◌%◌, ◌^◌, ◌<◌, ◌≡◌, ◌≢◌, refl, sym, ap, ◌∙◌, ◌⊎◌, inl, inr, List, [],
  ◌∷◌, ◌++◌, ◌==◌, if◌then◌else◌, length, reverse, arith, ==-self, ne→==false, ℕ_discrete,
}
use model_lib.Base.Words.{add64}
use model_lib.Store.{Ptr}
use model_lib.Arena.{slots}
use model_lib.Arena.Outcome.{done, spins, Returns, returns}
use model_lib.Arena.Remote.{
  Remote, Slot, slot, empty_slot, put_slot, convert, push, try_pop_swap_reversed, tail_stride,
  head_stride,
}
use model_lib.Arena.Ring.{
  still, tail_slot, slot_at-open_self, tail_word, head_word, slot_at-beyond, put_at, HoldsBatches,
  slot_at, head_slot, at_head, closed-HoldsBatches, opened-HoldsBatches,
}

-- the batches after the one at the head has become `c`
abbrev pub added : List (List Ptr) → List Ptr → List (List Ptr) × List Ptr
added full c = if length c == 16 then (full ++ c ∷ [], []) else (full, c)

push_at :
    (x : Ptr) (r : Remote) (i : ℕ) (part : List Ptr)
    → bit_and (convert r.state).head (slots - 1) ≡ i
    → r.ring i ≡ slot part (length part)
    → length part < 16
    → push x r
      ≡ done (record r {
        ring = put_slot r.ring i (slot (x ∷ part) (length (x ∷ part)));
        state = if length (x ∷ part) == 16 then add64 r.state head_stride else r.state;
      })
unfolding push
push_at x r i part e e' lt =
    let short : (length part == 16) ≡ false =
      ne→==false (length part) 16 (λ b. absurd (omega arith)) in
    let next : add64 (length part) 1 ≡ suc (length part) = omega arith in
    let next' : length part + 1 ≡ suc (length part) = omega arith in rw (e, e', short, next, next')

-- A pushed block joins the blocks of the batch that is being filled; the sixteenth completes it and
-- opens the next. The call returns when the ring has room and the head does not wrap.
pub push-HoldsBatches :
    (x : Ptr) (r : Remote) (full : List (List Ptr)) (part : List Ptr)
    → HoldsBatches r full part
    → length full < 64
    → suc (convert r.state).head < 2 ^ 32
    → Returns
        (λ r'. HoldsBatches r' (added full (x ∷ part)).0 (added full (x ∷ part)).1 × (r'.n ≡ r.n))
        (push x r)
push-HoldsBatches x r full part h lt fits =
    rw (push_at x r _ part (head_slot h) (at_head h lt) h.open_batch)
      (elim (ℕ_discrete (length (x ∷ part)) 16) [
        | yes e ↦ rw e (returns (closed-HoldsBatches h (x ∷ part) lt fits e, refl))
        | no ne ↦
            rw (ne→==false (length (x ∷ part)) 16 ne)
              (returns (opened-HoldsBatches h (x ∷ part) lt (omega (arith, h.open_batch)), refl))
      ])

push_full :
    (x : Ptr) (r : Remote) (i : ℕ) (c : List Ptr)
    → bit_and (convert r.state).head (slots - 1) ≡ i
    → r.ring i ≡ slot c 16
    → push x r ≡ spins
unfolding push
push_full x r i c e e' = rw (e, e')

-- A push spins while all 64 slots hold batches.
pub push-spins :
    (x : Ptr) (r : Remote) (b : List Ptr) (bs : List (List Ptr))
    → HoldsBatches r (b ∷ bs) []
    → length (b ∷ bs) ≡ 64
    → push x r ≡ spins
push-spins x r b bs h e =
    let around : (h.tail + length (b ∷ bs)) % 64 ≡ (h.tail + 0) % 64 = rw e (omega arith) in
    push_full x r ((h.tail + 0) % 64) b (head_slot h ∙ around) (h.at 0 (omega arith))

pop_at :
    (r : Remote) (i : ℕ) (c : List Ptr)
    → (convert r.state).head ≢ (convert r.state).tail
    → bit_and (convert r.state).tail (slots - 1) ≡ i
    → (r.ring i).chain ≡ c
    → try_pop_swap_reversed r ≡ (
      reverse c,
      record r { state = add64 r.state tail_stride; ring = put_slot r.ring i empty_slot },
    )
unfolding try_pop_swap_reversed
pop_at r i c ne e e' = rw (ne→==false (convert r.state).head (convert r.state).tail ne, e, e')

pop_none :
    (r : Remote)
    → (convert r.state).head ≡ (convert r.state).tail
    → try_pop_swap_reversed r ≡ ([], r)
unfolding try_pop_swap_reversed
pop_none r e = rw (e, ==-self (convert r.state).tail)

last_empty :
    (bs : List (List Ptr)) (part : List Ptr) (i : ℕ)
    → i ≡ 63
    → (suc (length bs) < 64) ⊎ ((suc (length bs) ≡ 64) × (part ≡ []))
    → slot_at bs part i ≡ empty_slot
last_empty bs part i e (inl lt) = slot_at-beyond bs part i (omega arith)
last_empty bs part i e (inr (eq, nil)) =
    let at_end : i ≡ length bs = omega arith in rw (nil, at_end) (slot_at-open_self bs [])

-- With the oldest batch taken, each slot is one step nearer to the tail.
emptied :
    (f : ℕ → Slot) (t : ℕ) (b : List Ptr) (bs : List (List Ptr)) (part : List Ptr)
    → ((i : ℕ) → i < 64 → f ((t + i) % 64) ≡ slot_at (b ∷ bs) part i)
    → (suc (length bs) < 64) ⊎ ((suc (length bs) ≡ 64) × (part ≡ []))
    → (i : ℕ) → i < 64
    → put_slot f ((t + 0) % 64) empty_slot ((suc t + i) % 64) ≡ slot_at bs part i
emptied f t b bs part at room i hi = elim (ℕ_discrete i 63) [
  | yes e ↦
      let around : (suc t + i) % 64 ≡ (t + 0) % 64 = omega (arith, e) in
      rw (around, ==-self ((t + 0) % 64)) (sym (last_empty bs part i e room))
  | no ne ↦
      let next : suc t + i ≡ t + suc i = omega arith in
      rw next (
        put_at f t 0 empty_slot (suc i) (omega arith) (omega arith)
        ∙ rw (ne→==false (suc i) 0 (λ e. absurd (omega arith))) (at (suc i) (omega arith)))
]

at_most : (n : ℕ) {part : List Ptr} → (suc n < 64) ⊎ ((suc n ≡ 64) × (part ≡ [])) → n < 64
at_most n (inl lt) = omega arith
at_most n (inr (eq, nil)) = omega arith

-- Taking a batch gives the oldest full one, its blocks in the order in which they were pushed, and
-- empties its slot.
pub pop-HoldsBatches :
    (r : Remote) (b : List Ptr) (bs : List (List Ptr)) (part : List Ptr)
    → HoldsBatches r (b ∷ bs) part
    → ((try_pop_swap_reversed r).0 ≡ reverse b)
      × HoldsBatches (try_pop_swap_reversed r).1 bs part
      × ((try_pop_swap_reversed r).1.n ≡ r.n)
pop-HoldsBatches r b bs part h =
    rw
      (pop_at r ((h.tail + 0) % 64) b (λ e. absurd (omega (arith, head_word h, tail_word h, e)))
        (tail_slot h) (ap (λ t. t.chain) (h.at 0 (omega arith))))
      (
        refl,
        record {
          tail = suc h.tail;
          word = omega (arith, h.word);
          state = omega (arith, h.word, h.state);
          at = emptied r.ring h.tail b bs part h.at h.room;
          batches = h.batches.1;
          open_batch = h.open_batch;
          room = inl (omega (arith, at_most (length bs) h.room));
        },
        refl,
      )

-- While no batch is full there is none to take.
pub pop-nothing :
    (r : Remote) (part : List Ptr) → HoldsBatches r [] part → try_pop_swap_reversed r ≡ ([], r)
pop-nothing r part h = pop_none r (head_word h ∙ sym (tail_word h ∙ sym (still h.tail)))
