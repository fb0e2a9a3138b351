-- ===== src/Arena/Growth.antt =====
-- include/__ngr/__core/__memory_resource.hpp: `_M_prepend` and `_M_allocate` of the shared source.
use Prim.Native.Nat.{bit_and}
use mathlib.Core.Path.{subst}
use mathlib.Core.List.{append-nil, append_assoc}
use model_lib.Base.{
  lt→ltb, ne→==false, false, true, ℕ, zero, suc, ◌+◌, ◌*◌, ◌-◌, ◌%◌, ◌^◌, ◌≤◌, ◌<◌, ◌≡◌, refl, ◌∙◌,
  List, [], ◌∷◌, ◌++◌, ◌==◌, ltb, if◌then◌else◌, length, take, drop, arith, length-append,
  length-take, length-drop,
}
use model_lib.Base.Words.{add32, sub32, add64}
use model_lib.Store.{Ptr}
use model_lib.Arena.{slots}
use model_lib.Arena.Outcome.{weaken, fault, Returns, returns}
use model_lib.Arena.Remote.{Remote, slot, put_slot, convert, prepend, fill_slot, head_stride}
use model_lib.Arena.Ring.{HoldsBatches, head_slot, at_head, closed-HoldsBatches}

-- the first `m` batches of a list
abbrev pub chunks : ℕ → List Ptr → List (List Ptr)
chunks zero xs = []
chunks (suc m) xs = take 16 xs ∷ chunks m (drop 16 xs)

fill_at :
    (i m : ℕ) (blk part : List Ptr) (r : Remote)
    → r.ring i ≡ slot part (length part)
    → fill_slot i m blk r ≡ record r {
      ring = put_slot r.ring i (slot (take m blk ++ part) 16);
      state = add64 r.state head_stride;
    }
unfolding fill_slot
fill_at i m blk part r e = rw e

round_at :
    (fuel : ℕ) (b : Ptr) (bs : List Ptr) (k : ℕ) (r : Remote) (i : ℕ) (part : List Ptr)
    → bit_and (convert r.state).head (slots - 1) ≡ i
    → r.ring i ≡ slot part (length part)
    → length part < 16
    → prepend (suc fuel) (b ∷ bs) k r ≡ (
        if ltb (sub32 (add32 k (16 - length part)) 1) 64
        then prepend fuel
            (drop (16 - length part) (b ∷ bs))
            (add32 k (16 - length part))
            (fill_slot i (16 - length part) (b ∷ bs) r)
        else fault)
unfolding prepend
round_at fuel b bs k r i part e e' lt =
    let short : (length part == 16) ≡ false =
      ne→==false (length part) 16 (λ b. absurd (omega arith)) in
    let rest : sub32 16 (length part) ≡ 16 - length part = omega arith in rw (e, e', short, rest)

head_next :
    (s : ℕ)
    → suc (convert s).head < 2 ^ 32
    → (convert (add64 s head_stride)).head ≡ suc (convert s).head
unfolding convert
head_next s fits = omega arith

-- A round fills the slot at the head, when the blocks it takes are among the 64.
pub round_fills :
    (fuel : ℕ) (b : Ptr) (bs : List Ptr) (k : ℕ) (r : Remote) (full : List (List Ptr))
    (part : List Ptr)
    → HoldsBatches r full part
    → length full < 64
    → suc (convert r.state).head < 2 ^ 32
    → k + (16 - length part) ≤ 64
    → 16 ≤ length part + length (b ∷ bs)
    → (r' : Remote) × (prepend (suc fuel) (b ∷ bs) k r
        ≡ prepend fuel (drop (16 - length part) (b ∷ bs)) (k + (16 - length part)) r')
      × HoldsBatches r' (full ++ (take (16 - length part) (b ∷ bs) ++ part) ∷ []) []
      × (r'.n ≡ r.n)
      × ((convert r'.state).head ≡ suc (convert r.state).head)
round_fills fuel b bs k r full part h lt fits inside enough =
    let i = (h.tail + length full) % 64 in
    let m = 16 - length part in
    let sum : add32 k m ≡ k + m = omega (arith, inside) in
    let read : ltb (sub32 (k + m) 1) 64 ≡ true =
      lt→ltb (sub32 (k + m) 1) 64 (omega (arith, inside, h.open_batch)) in
    let len : length (take m (b ∷ bs) ++ part) ≡ 16 =
      omega (
        arith,
        length-append (take m (b ∷ bs)) part,
        length-take m (b ∷ bs),
        enough,
        h.open_batch,
      ) in
    (
      record r {
        ring = put_slot r.ring i (slot (take m (b ∷ bs) ++ part) 16);
        state = add64 r.state head_stride;
      },
      round_at fuel b bs k r i part (head_slot h) (at_head h lt) h.open_batch
          ∙ rw (sum, read, fill_at i m (b ∷ bs) part r (at_head h lt)),
      closed-HoldsBatches h (take m (b ∷ bs) ++ part) lt fits len,
      refl,
      head_next r.state fits,
    )

-- A round that takes more blocks than are left reads past the 64 pointers.
round_overruns :
    (fuel : ℕ) (b : Ptr) (bs : List Ptr) (k : ℕ) (r : Remote) (full : List (List Ptr))
    (part : List Ptr)
    → HoldsBatches r full part
    → length full < 64
    → k ≤ 64
    → 64 < k + (16 - length part)
    → prepend (suc fuel) (b ∷ bs) k r ≡ fault
round_overruns fuel b bs k r full part h lt le past =
    let m = 16 - length part in
    let read : ltb (sub32 (add32 k m) 1) 64 ≡ false = ground (arith, past, le) in
    round_at fuel b bs k r _ part (head_slot h) (at_head h lt) h.open_batch ∙ rw read

-- From a slot with no block the list is stored batch by batch, and no slot but those at the head
-- changes.
pub prepend-HoldsBatches :
    (m fuel k : ℕ) (blk : List Ptr) (r : Remote) (full : List (List Ptr))
    → HoldsBatches r full []
    → length full + m ≤ 64
    → (convert r.state).head + m < 2 ^ 32
    → length blk ≡ 16 * m
    → k + 16 * m ≡ 64
    → m ≤ fuel
    → Returns
        (λ r'. HoldsBatches r' (full ++ chunks m blk) [] × (r'.n ≡ r.n))
        (prepend fuel blk k r)
unfolding prepend
prepend-HoldsBatches zero fuel k [] r full h room fits len end enough =
    returns (rw (append-nil full) h, refl)
prepend-HoldsBatches zero fuel k (b ∷ bs) r full h room fits len end enough =
    absurd (omega (arith, len))
prepend-HoldsBatches (suc m) fuel k [] r full h room fits len end enough =
    absurd (omega (arith, len))
prepend-HoldsBatches (suc m) zero k (b ∷ bs) r full h room fits len end enough =
    absurd (omega arith)
prepend-HoldsBatches (suc m) (suc fuel) k (b ∷ bs) r full h room fits len end enough =
    let lt : length full < 64 = omega arith in
    let (r', e, h', n, next) =
      round_fills fuel b bs k r full [] h lt (omega (arith, fits)) (omega (arith, end))
        (omega (arith, len)) in
    let c = take 16 (b ∷ bs) in
    let grown : length (full ++ (c ++ []) ∷ []) ≡ suc (length full) =
      omega (arith, length-append full ((c ++ []) ∷ [])) in
    let same : (full ++ (c ++ []) ∷ []) ++ chunks m (drop 16 (b ∷ bs))
        ≡ full ++ c ∷ chunks m (drop 16 (b ∷ bs)) =
      rw (append-nil c) (append_assoc full (c ∷ []) (chunks m (drop 16 (b ∷ bs)))) in
    let left : length (drop 16 (b ∷ bs)) ≡ 16 * m = omega (arith, length-drop 16 (b ∷ bs), len) in
    rw e (
      weaken
        (prepend-HoldsBatches m fuel (k + 16) (drop 16 (b ∷ bs)) r' (full ++ (c ++ []) ∷ []) h'
          (omega (arith, grown, room)) (omega (arith, next, fits)) left (omega (arith, end))
          (omega arith))
        (λ r'' q. (subst (λ t. HoldsBatches r'' t []) same q.0, q.1 ∙ n)))

-- From a slot with no block, whole batches and `e` blocks more end in a read past the 64 pointers.
pub prepend-overruns :
    (m e fuel k : ℕ) (blk : List Ptr) (r : Remote) (full : List (List Ptr))
    → HoldsBatches r full []
    → length full + m < 64
    → (convert r.state).head + m < 2 ^ 32
    → length blk ≡ 16 * m + e
    → 0 < e
    → e < 16
    → k + 16 * m + e ≡ 64
    → m < fuel
    → prepend fuel blk k r ≡ fault
prepend-overruns m e fuel k [] r full h room fits len pos short end enough =
    absurd (omega (arith, len))
prepend-overruns m e zero k (b ∷ bs) r full h room fits len pos short end enough =
    absurd (omega arith)
prepend-overruns zero e (suc fuel) k (b ∷ bs) r full h room fits len pos short end enough =
    round_overruns fuel b bs k r full [] h (omega arith) (omega arith) (omega arith)
prepend-overruns (suc m) e (suc fuel) k (b ∷ bs) r full h room fits len pos short end enough =
    let (r', run, h', n, next) =
      round_fills fuel b bs k r full [] h (omega arith) (omega (arith, fits)) (omega (arith, end))
        (omega (arith, len)) in
    let c = take 16 (b ∷ bs) in
    let grown : length (full ++ (c ++ []) ∷ []) ≡ suc (length full) =
      omega (arith, length-append full ((c ++ []) ∷ [])) in
    let left : length (drop 16 (b ∷ bs)) ≡ 16 * m + e =
      omega (arith, length-drop 16 (b ∷ bs), len) in
    run
    ∙ prepend-overruns m e fuel (k + 16) (drop 16 (b ∷ bs)) r' (full ++ (c ++ []) ∷ []) h'
        (omega (arith, grown, room)) (omega (arith, next, fits)) left pos short (omega (arith, end))
        (omega arith)
