-- ===== src/Arena/Ring.antt =====
-- include/__ngr/__core/__memory_resource.hpp: the ring of the shared source is a queue of batches.
use Prim.Native.Nat.{bit_and}
use model_lib.Base.{
  dec_lt, ℕ, zero, suc, ◌+◌, ◌*◌, ◌-◌, ◌%◌, ◌^◌, ◌<◌, ◌≡◌, ◌≢◌, refl, sym, ap, ◌∙◌, ◌⊎◌, inl, inr,
  List, [], ◌∷◌, ◌++◌, ◌==◌, if◌then◌else◌, length, arith, ==-self, ne→==false, ℕ_discrete,
  length-append,
}
use model_lib.Base.Words.{add64}
use model_lib.Base.Rings.{slot-mod, slot-ne}
use model_lib.Store.{Ptr}
use model_lib.Arena.{slots}
use model_lib.Arena.Remote.{Remote, Slot, slot, empty_slot, put_slot, convert, head_stride}

pub still : (n : ℕ) → n + 0 ≡ n
still n = omega arith

-- every batch has 16 blocks
abbrev pub AllBatches : List (List Ptr) → Type 0
AllBatches [] = Unit
AllBatches (b ∷ bs) = (length b ≡ 16) × AllBatches bs

-- What the slot at a distance from the tail holds: full batches, then the one being filled.
abbrev pub slot_at : List (List Ptr) → List Ptr → ℕ → Slot
slot_at [] part zero = slot part (length part)
slot_at [] part (suc i) = empty_slot
slot_at (b ∷ bs) part zero = slot b 16
slot_at (b ∷ bs) part (suc i) = slot_at bs part i

-- The ring holds the batches `full`, the oldest at its tail, and `part` at its head.
pub record HoldsBatches (r : Remote) (full : List (List Ptr)) (part : List Ptr) : Type 0 where
  pub tail : ℕ
  pub word : tail + length full < 2 ^ 32
  pub state : r.state ≡ tail + length full + tail * 2 ^ 32
  pub at : (i : ℕ) → i < 64 → r.ring ((tail + i) % 64) ≡ slot_at full part i
  pub batches : AllBatches full
  pub open_batch : length part < 16
  pub room : (length full < 64) ⊎ ((length full ≡ 64) × (part ≡ []))

pub convert-head :
    (r : Remote) (h t : ℕ) → h < 2 ^ 32 → r.state ≡ h + t * 2 ^ 32 → (convert r.state).head ≡ h
unfolding convert
convert-head r h t lt e = rw e (omega arith)

pub convert-tail :
    (r : Remote) (h t : ℕ)
    → h < 2 ^ 32
    → t < 2 ^ 32
    → r.state ≡ h + t * 2 ^ 32
    → (convert r.state).tail ≡ t
unfolding convert
convert-tail r h t lt lt' e = rw e (omega arith)

pub slot_of_word : (x : ℕ) → x < 2 ^ 32 → bit_and x (slots - 1) ≡ x % 64
slot_of_word x lt =
    let whole : x % 2 ^ 32 ≡ x = omega arith in
    ap (λ (t : ℕ). bit_and t 63) (sym whole) ∙ slot-mod 6 x (omega arith)

-- Two distances below 64 are the same slot only if they are the same.
same_slot : (t i j : ℕ) → i < 64 → j < 64 → i ≢ j → (t + j) % 64 ≢ (t + i) % 64
same_slot t i j hi hj ne = λ e. elim (dec_lt i j) [
  | yes lt ↦ slot-ne 64 t i j lt (omega arith) (sym e)
  | no ge ↦ slot-ne 64 t j i (omega arith) (omega arith) e
]

pub put_at :
    (f : ℕ → Slot) (t k : ℕ) (s : Slot) (i : ℕ)
    → i < 64
    → k < 64
    → put_slot f ((t + k) % 64) s ((t + i) % 64) ≡ (if i == k then s else f ((t + i) % 64))
put_at f t k s i hi hk = elim (ℕ_discrete i k) [
  | yes e ↦ rw (e, ==-self ((t + k) % 64), ==-self k)
  | no ne ↦ rw (
    ne→==false ((t + i) % 64) ((t + k) % 64) (λ e. same_slot t i k hi hk ne (sym e)),
    ne→==false i k ne,
  )
]

suc_same : (i j : ℕ) → (suc i == suc j) ≡ (i == j)
suc_same i j = ground arith

pub slot_at-closed :
    (full : List (List Ptr)) (part c : List Ptr) (i : ℕ)
    → slot_at (full ++ c ∷ []) [] i ≡ (if i == length full then slot c 16 else slot_at full part i)
slot_at-closed [] part c zero = refl
slot_at-closed [] part c (suc zero) = refl
slot_at-closed [] part c (suc (suc i)) = rw (ne→==false (suc (suc i)) 0 (λ e. absurd (omega arith)))
slot_at-closed (b ∷ bs) part c zero =
    rw (ne→==false 0 (suc (length bs)) (λ e. absurd (omega arith)))
slot_at-closed (b ∷ bs) part c (suc i) = rw (suc_same i (length bs)) (slot_at-closed bs part c i)

pub slot_at-open :
    (full : List (List Ptr)) (part c : List Ptr) (i : ℕ)
    → slot_at full c i ≡ (if i == length full then slot c (length c) else slot_at full part i)
slot_at-open [] part c zero = refl
slot_at-open [] part c (suc i) = rw (ne→==false (suc i) 0 (λ e. absurd (omega arith)))
slot_at-open (b ∷ bs) part c zero = rw (ne→==false 0 (suc (length bs)) (λ e. absurd (omega arith)))
slot_at-open (b ∷ bs) part c (suc i) = rw (suc_same i (length bs)) (slot_at-open bs part c i)

pub slot_at-open_self :
    (full : List (List Ptr)) (part : List Ptr)
    → slot_at full part (length full) ≡ slot part (length part)
slot_at-open_self [] part = refl
slot_at-open_self (b ∷ bs) part = slot_at-open_self bs part

-- Past the batch that is filled the slots are empty.
pub slot_at-beyond :
    (full : List (List Ptr)) (part : List Ptr) (i : ℕ)
    → length full < i
    → slot_at full part i ≡ empty_slot
slot_at-beyond [] part zero h = absurd (omega arith)
slot_at-beyond [] part (suc i) h = refl
slot_at-beyond (b ∷ bs) part zero h = absurd (omega arith)
slot_at-beyond (b ∷ bs) part (suc i) h = slot_at-beyond bs part i (omega arith)

pub AllBatches-snoc :
    (full : List (List Ptr)) (c : List Ptr)
    → AllBatches full
    → length c ≡ 16
    → AllBatches (full ++ c ∷ [])
AllBatches-snoc [] c a h = (h, tt)
AllBatches-snoc (b ∷ bs) c a h = (a.0, AllBatches-snoc bs c a.1 h)

module _ {r : Remote} {full : List (List Ptr)} {part : List Ptr}
    (h : HoldsBatches r full part) where
  pub head_word : (convert r.state).head ≡ h.tail + length full
  head_word = convert-head r (h.tail + length full) h.tail h.word h.state

  pub head_slot : bit_and (convert r.state).head (slots - 1) ≡ (h.tail + length full) % 64
  head_slot = rw head_word (slot_of_word (h.tail + length full) h.word)

  pub at_head : length full < 64 → r.ring ((h.tail + length full) % 64) ≡ slot part (length part)
  at_head lt = h.at (length full) lt ∙ slot_at-open_self full part

  pub tail_word : (convert r.state).tail ≡ h.tail
  tail_word = convert-tail r (h.tail + length full) h.tail h.word (omega (arith, h.word)) h.state

  pub tail_slot : bit_and (convert r.state).tail (slots - 1) ≡ (h.tail + 0) % 64
  tail_slot =
      rw (tail_word)
        (slot_of_word h.tail (omega (arith, h.word)) ∙ ap (λ (t : ℕ). t % 64) (sym (still h.tail)))

  -- The slot at the head is filled up, and the head goes on.
  pub closed-HoldsBatches :
      (c : List Ptr)
      → length full < 64
      → suc (convert r.state).head < 2 ^ 32
      → length c ≡ 16
      → HoldsBatches
          (record r {
            ring = put_slot r.ring ((h.tail + length full) % 64) (slot c 16);
            state = add64 r.state head_stride;
          })
          (full ++ c ∷ [])
          []
  closed-HoldsBatches c lt fits len =
      let grown : length (full ++ c ∷ []) ≡ suc (length full) =
        omega (arith, length-append full (c ∷ [])) in
      let word' : suc (h.tail + length full) < 2 ^ 32 = rw head_word at fits in
      record {
        tail = h.tail;
        word = omega (arith, grown, word');
        state = omega (arith, grown, word', h.state);
        at = λ i hi.
            put_at r.ring h.tail (length full) (slot c 16) i hi lt
            ∙ (rw (h.at i hi) (sym (slot_at-closed full part c i)));
        batches = AllBatches-snoc full c h.batches len;
        open_batch = omega arith;
        room = elim (dec_lt (length (full ++ c ∷ [])) 64) [
          | yes below ↦ inl below
          | no ge ↦ inr (omega (arith, grown), refl)
        ];
      }

  -- The slot at the head gets a chain that is still short of a batch.
  pub opened-HoldsBatches :
      (c : List Ptr)
      → length full < 64
      → length c < 16
      → HoldsBatches
          (record r { ring = put_slot r.ring ((h.tail + length full) % 64) (slot c (length c)) })
          full
          c
  opened-HoldsBatches c lt len = record {
    tail = h.tail;
    word = h.word;
    state = h.state;
    at = λ i hi.
        put_at r.ring h.tail (length full) (slot c (length c)) i hi lt
        ∙ (rw (h.at i hi) (sym (slot_at-open full part c i)));
    batches = h.batches;
    open_batch = len;
    room = inl lt;
  }
