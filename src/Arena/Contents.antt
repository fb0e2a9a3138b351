-- ===== src/Arena/Contents.antt =====
-- include/__ngr/__core/__memory_resource.hpp: which blocks the ring of the shared source has, counted slot
-- by slot and batch by batch.
use model_lib.Base.{
  ℕ, zero, suc, ◌+◌, ◌*◌, ◌%◌, ◌<◌, ◌≡◌, refl, sym, ap, ◌∙◌, ◌⊎◌, inl, inr, List, [], ◌∷◌, ◌++◌,
  length, reverse, reverse_aux, take, drop, length-drop, arith, take-append-drop,
}
use model_lib.Store.{Ptr}
use model_lib.Arena.Remote.{Remote, Slot}
use model_lib.Arena.Ring.{HoldsBatches, slot_at}
use model_lib.Arena.Growth.{chunks}
use model_lib.Arena.Accounts.{occurs}

abbrev pub sum : ℕ → (ℕ → ℕ) → ℕ
sum zero f = 0
sum (suc n) f = f n + sum n f

-- how often a block stands in the ring
abbrev pub in_ring : (ℕ → Slot) → Ptr → ℕ
in_ring f y = sum 64 (λ i. occurs y (f i).chain)

-- how often a block stands in some batches
abbrev pub in_batches : Ptr → List (List Ptr) → ℕ
in_batches y [] = 0
in_batches y (b ∷ bs) = occurs y b + in_batches y bs

sum-same : (n : ℕ) (f g : ℕ → ℕ) → ((i : ℕ) → i < n → f i ≡ g i) → sum n f ≡ sum n g
sum-same zero f g h = refl
sum-same (suc n) f g h =
    omega (arith, h n (omega arith), sum-same n f g (λ i lt. h i (omega arith)))

sum-shift : (n : ℕ) (f : ℕ → ℕ) → sum n (λ i. f (suc i)) + f 0 ≡ sum (suc n) f
sum-shift zero f = omega arith
sum-shift (suc n) f = omega (arith, sum-shift n f)

-- A ring has the same sum from every place.
rotated : (t : ℕ) (f : ℕ → ℕ) → sum 64 (λ i. f ((t + i) % 64)) ≡ sum 64 f
rotated zero f = sum-same 64 _ f (λ i lt. ap f {x = (zero + i) % 64} {y = i} (omega (arith, lt)))
rotated (suc t) f =
    sum-same 64 (λ i. f ((suc t + i) % 64)) (λ i. f ((t + suc i) % 64)) (λ i lt. ap f (omega arith))
    ∙ omega (arith, sum-shift 64 (λ i. f ((t + i) % 64)), around, rotated t f)
  where
    around : f ((t + 64) % 64) ≡ f ((t + 0) % 64)
    around = ap f (omega arith)

beyond :
    (n : ℕ) (y : Ptr) (part : List Ptr) → sum n (λ i. occurs y (slot_at [] part (suc i)).chain) ≡ 0
beyond zero y part = refl
beyond (suc n) y part = omega (arith, beyond n y part)

slots_sum :
    (n : ℕ) (y : Ptr) (full : List (List Ptr)) (part : List Ptr)
    → (length full < n) ⊎ ((length full ≡ n) × (part ≡ []))
    → sum n (λ i. occurs y (slot_at full part i).chain) ≡ in_batches y full + occurs y part
slots_sum zero y [] part (inl lt) = absurd (omega arith)
slots_sum zero y [] part (inr (e, nil)) = rw nil
slots_sum zero y (b ∷ bs) part (inl lt) = absurd (omega arith)
slots_sum zero y (b ∷ bs) part (inr (e, nil)) = absurd (omega arith)
slots_sum (suc n) y [] part h =
    omega (arith, sum-shift n (λ i. occurs y (slot_at [] part i).chain), beyond n y part)
slots_sum (suc n) y (b ∷ bs) part (inl lt) = omega (
  arith,
  sum-shift n (λ i. occurs y (slot_at (b ∷ bs) part i).chain),
  slots_sum n y bs part (inl (omega arith)),
)
slots_sum (suc n) y (b ∷ bs) part (inr (e, nil)) = omega (
  arith,
  sum-shift n (λ i. occurs y (slot_at (b ∷ bs) part i).chain),
  slots_sum n y bs part (inr (omega arith, nil)),
)

-- The slots hold the batches and the blocks of the batch that is being filled, and nothing else.
pub in_ring-batches :
    (r : Remote) (full : List (List Ptr)) (part : List Ptr) (y : Ptr)
    → HoldsBatches r full part
    → in_ring r.ring y ≡ in_batches y full + occurs y part
in_ring-batches r full part y h =
    sym (rotated h.tail (λ i. occurs y (r.ring i).chain))
    ∙ sum-same 64 _ _ (λ i lt. ap (λ s. occurs y s.chain) (h.at i lt))
    ∙ slots_sum 64 y full part h.room

pub occurs-append : (y : Ptr) (xs ys : List Ptr) → occurs y (xs ++ ys) ≡ occurs y xs + occurs y ys
occurs-append y [] ys = omega arith
occurs-append y (x ∷ xs) ys = omega (arith, occurs-append y xs ys)

occurs-reverse_aux :
    (y : Ptr) (xs ys : List Ptr) → occurs y (reverse_aux xs ys) ≡ occurs y xs + occurs y ys
occurs-reverse_aux y [] ys = omega arith
occurs-reverse_aux y (x ∷ xs) ys = omega (arith, occurs-reverse_aux y xs (x ∷ ys))

pub occurs-reverse : (y : Ptr) (xs : List Ptr) → occurs y (reverse xs) ≡ occurs y xs
occurs-reverse y xs = omega (arith, occurs-reverse_aux y xs [])

pub in_batches-append :
    (y : Ptr) (bs cs : List (List Ptr))
    → in_batches y (bs ++ cs) ≡ in_batches y bs + in_batches y cs
in_batches-append y [] cs = omega arith
in_batches-append y (b ∷ bs) cs = omega (arith, in_batches-append y bs cs)

-- Whole batches have each block of the list as often as the list.
pub in_batches-chunks :
    (m : ℕ) (y : Ptr) (xs : List Ptr)
    → length xs ≡ 16 * m
    → in_batches y (chunks m xs) ≡ occurs y xs
in_batches-chunks zero y [] len = refl
in_batches-chunks zero y (x ∷ xs) len = absurd (omega (arith, len))
in_batches-chunks (suc m) y xs len = omega (
  arith,
  in_batches-chunks m y (drop 16 xs) (omega (arith, length-drop 16 xs, len)),
  occurs-append y (take 16 xs) (drop 16 xs),
  ap (λ t. occurs y t) (take-append-drop 16 xs),
)
