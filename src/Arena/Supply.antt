-- ===== src/Arena/Supply.antt =====
-- include/__ngr/__core/__memory_resource.hpp: what the shared source hands out, mapping memory when it
-- has no full batch.
use model_lib.Base.{
  length-append, ℕ, zero, suc, ◌+◌, ◌*◌, ◌-◌, ◌^◌, ◌≤◌, ◌<◌, ◌≡◌, ◌≢◌, refl, sym, ap, ◌∙◌, Option,
  some, List, [], ◌∷◌, ◌++◌, ◌==◌, if◌then◌else◌, length-append, length, reverse, drop, take, arith,
  lt→ltb, length-drop, length-reverse,
}
use native.Mathlib.Nat.{zero-add, suc-add}
use model_lib.Base.Words.{add32}
use model_lib.Store.{Ptr}
use model_lib.Arena.{mapping_blocks}
use model_lib.Arena.Layout.{length-mapping_blocks}
use model_lib.Arena.Outcome.{done, fault, ◌>>=◌, Returns, returns, weaken, then_returns}
use model_lib.Arena.Remote.{
  Remote, convert, prepend, allocate, try_pop_swap_reversed, pop_loop, pop_swap_reversed,
}
use model_lib.Arena.Ring.{HoldsBatches}
use model_lib.Arena.Batches.{pop-HoldsBatches, pop-nothing}
use model_lib.Arena.Growth.{chunks, prepend-HoldsBatches, prepend-overruns, round_fills}

-- the source after `mmap` has returned `p`
abbrev remapped : Remote → ℕ → Remote
remapped r p = record r { n = add32 r.n 1; mmap = λ i. if i == r.n then p else r.mmap i }

allocate_at :
    (os : ℕ → Option ℕ) (p : ℕ) (r : Remote)
    → os r.n ≡ some p
    → r.n < 16
    → allocate os r ≡ prepend 65 (mapping_blocks p) 0 (remapped r p)
unfolding allocate
allocate_at os p r e lt = rw (e, lt→ltb r.n 16 lt)

kept :
    (r : Remote) (full : List (List Ptr)) (part : List Ptr) (p : ℕ)
    → HoldsBatches r full part
    → HoldsBatches (remapped r p) full part
kept r full part p h = record {
  tail = h.tail;
  word = h.word;
  state = h.state;
  at = h.at;
  batches = h.batches;
  open_batch = h.open_batch;
  room = h.room;
}

-- With no batch being filled, the blocks of a new mapping become four batches behind the others.
pub allocate-HoldsBatches :
    (os : ℕ → Option ℕ) (p : ℕ) (r : Remote) (full : List (List Ptr))
    → HoldsBatches r full []
    → length full + 4 ≤ 64
    → (convert r.state).head + 4 < 2 ^ 32
    → r.n < 16
    → os r.n ≡ some p
    → Returns
        (λ r'. HoldsBatches r' (full ++ chunks 4 (mapping_blocks p)) [] × (r'.n ≡ suc r.n))
        (allocate os r)
allocate-HoldsBatches os p r full h room fits lt e = rw (allocate_at os p r e lt) (
    weaken
      (prepend-HoldsBatches 4 65 0 (mapping_blocks p) (remapped r p) full (kept r full [] p h) room
        fits (length-mapping_blocks p) refl (omega arith))
      (λ r' q. (q.0, q.1 ∙ one_more)))
  where
    one_more : add32 r.n 1 ≡ suc r.n
    one_more = omega arith

-- With a batch that is being filled, growing the source ends in a read past the 64 pointers.
pub allocate-overruns :
    (os : ℕ → Option ℕ) (p : ℕ) (r : Remote) (full : List (List Ptr)) (part : List Ptr)
    → HoldsBatches r full part
    → part ≢ []
    → length full + 4 < 64
    → (convert r.state).head + 4 < 2 ^ 32
    → r.n < 16
    → os r.n ≡ some p
    → allocate os r ≡ fault
allocate-overruns os p r full [] h ne room fits lt e = absurd (ne refl)
allocate-overruns os p r full (x ∷ xs) h ne room fits lt e =
    allocate_at os p r e lt ∙ overruns (mapping_blocks p) (length-mapping_blocks p)
  where
    part : List Ptr
    part = x ∷ xs

    overruns : (blk : List Ptr) → length blk ≡ 64 → prepend 65 blk 0 (remapped r p) ≡ fault
    overruns [] len = absurd (omega (arith, len))
    overruns (b ∷ bs) len =
        let d = 16 - length part in
        let h' = kept r full part p h in
        let (r', run, h'', n, next) =
          round_fills 64 b bs 0 (remapped r p) full part h' (omega arith) (omega arith)
            (omega (arith, h.open_batch)) (omega (arith, len)) in
        let c = take d (b ∷ bs) ++ part in
        let grown : length (full ++ c ∷ []) ≡ suc (length full) =
          omega (arith, length-append full (c ∷ [])) in
        let left : length (drop d (b ∷ bs)) ≡ 16 * 3 + length part =
          omega (arith, length-drop d (b ∷ bs), len, h.open_batch) in
        run
        ∙ prepend-overruns 3 (length part) 64 (0 + d) (drop d (b ∷ bs)) r' (full ++ c ∷ []) h''
            (omega (arith, grown, room)) (omega (arith, next, fits)) left (omega arith) h.open_batch
            (omega (arith, h.open_batch)) (omega arith)

nonempty : (xs : List Ptr) → 0 < length xs → (y : Ptr) × (ys : List Ptr) × (xs ≡ y ∷ ys)
nonempty [] h = absurd (omega arith)
nonempty (y ∷ ys) h = (y, ys, refl)

spin_round :
    (os : ℕ → Option ℕ) (fuel spin : ℕ) (r : Remote)
    → try_pop_swap_reversed r ≡ ([], r)
    → spin < 16
    → pop_loop os (suc fuel) spin r ≡ pop_loop os fuel (spin + 1) r
unfolding pop_loop
spin_round os fuel spin r e lt = rw (e, lt→ltb spin 16 lt)

spins_through :
    (os : ℕ → Option ℕ) (d fuel : ℕ) (r : Remote)
    → try_pop_swap_reversed r ≡ ([], r)
    → d ≤ 16
    → pop_loop os (d + fuel) (16 - d) r ≡ pop_loop os fuel 16 r
spins_through os zero fuel r e le = ap (λ t. pop_loop os t 16 r) (zero-add fuel)
spins_through os (suc d) fuel r e le =
    let fuel' : suc d + fuel ≡ suc (d + fuel) = suc-add d fuel in
    let spin' : 16 - suc d + 1 ≡ 16 - d = omega (arith, le) in
    rw fuel' (
      spin_round os (d + fuel) (16 - suc d) r e (omega (arith, le))
      ∙ rw spin' (spins_through os d fuel r e (omega arith)))

growth_round :
    (os : ℕ → Option ℕ) (fuel : ℕ) (r : Remote)
    → try_pop_swap_reversed r ≡ ([], r)
    → pop_loop os (suc fuel) 16 r ≡ (allocate os r >>= pop_loop os fuel 0)
unfolding pop_loop
growth_round os fuel r e = rw e

taken :
    (os : ℕ → Option ℕ) (fuel spin : ℕ) (r : Remote) (x : Ptr) (xs : List Ptr)
    → (try_pop_swap_reversed r).0 ≡ x ∷ xs
    → pop_loop os (suc fuel) spin r ≡ done (x ∷ xs, (try_pop_swap_reversed r).1)
unfolding pop_loop
taken os fuel spin r x xs e = rw e

served :
    (os : ℕ → Option ℕ) (fuel spin : ℕ) (r : Remote) (b : List Ptr) (bs : List (List Ptr))
    (part : List Ptr)
    → HoldsBatches r (b ∷ bs) part
    → Returns
        (λ p. (p.0 ≡ reverse b) × HoldsBatches p.1 bs part × (p.1.n ≡ r.n))
        (pop_loop os (suc fuel) spin r)
served os fuel spin r b bs part h =
    let (e, h', n) = pop-HoldsBatches r b bs part h in
    let sixteen : length (reverse b) ≡ 16 = omega (arith, length-reverse b, h.batches.0) in
    let (x, xs, cons) = nonempty (reverse b) (omega (arith, sixteen)) in
    rw (taken os fuel spin r x xs (e ∙ cons)) (returns (sym cons, h', n))

-- While a batch is full the oldest is handed out at once, its blocks in the order in which they were
-- pushed, whatever the state of the batch that is being filled.
pub pop_swap_reversed-oldest :
    (os : ℕ → Option ℕ) (r : Remote) (b : List Ptr) (bs : List (List Ptr)) (part : List Ptr)
    → HoldsBatches r (b ∷ bs) part
    → Returns
        (λ p. (p.0 ≡ reverse b) × HoldsBatches p.1 bs part × (p.1.n ≡ r.n))
        (pop_swap_reversed os r)
unfolding pop_swap_reversed
pop_swap_reversed-oldest os r b bs part h = served os 17 0 r b bs part h

-- Of a source with no block at all, `mmap` gives 64 blocks; the first 16 are handed out, the others
-- stay as three batches. The loop ends, after its 16 spins.
pub pop_swap_reversed-grows :
    (os : ℕ → Option ℕ) (p : ℕ) (r : Remote)
    → HoldsBatches r [] []
    → (convert r.state).head + 4 < 2 ^ 32
    → r.n < 16
    → os r.n ≡ some p
    → Returns
        (λ q.
          (q.0 ≡ reverse (take 16 (mapping_blocks p)))
          × HoldsBatches q.1 (chunks 3 (drop 16 (mapping_blocks p))) []
          × (q.1.n ≡ suc r.n))
        (pop_swap_reversed os r)
unfolding pop_swap_reversed
pop_swap_reversed-grows os p r h fits lt e =
    let nothing = pop-nothing r [] h in
    rw (spins_through os 16 2 r nothing (omega arith), growth_round os 1 r nothing)
      (then_returns (allocate-HoldsBatches os p r [] h (omega arith) fits lt e) (λ r' q.
        weaken
          (served os 0 0 r' (take 16 (mapping_blocks p)) (chunks 3 (drop 16 (mapping_blocks p))) []
            q.0)
          (λ s t. (t.0, t.1, t.2 ∙ q.1))))
