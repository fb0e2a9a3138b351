-- ===== src/Segments/Reads.antt =====
-- include/__ngr/__core/__atomic_segment_array.hpp: `_M_fold_inplace` walks the segments in order of
-- the places.
use mathlib.Core.List.{foldl, foldl-append}
use mathlib.Core.Option.{some-injective}
use native.Mathlib.Nat.{pow-le-pow_right, pow-suc, zero-add, add-zero}
use native.Mathlib.Numerals.{add-one}
use mathlib.Core.Path.{subst}
use model_lib.Base.{
  dec_lt, true, ◌*◌, ℕ, zero, suc, ◌+◌, ◌-◌, ◌^◌, ◌≤◌, ◌<◌, ◌≡◌, refl, sym, ap, ◌∙◌, some, List, [],
  ◌∷◌, ltb, min, arith, length, get_elem?, take, drop, Bool-cases, inl, inr, ltb→lt,
  take-append-drop, drop-add, drop-all, get_elem?-take, get_elem?-drop, length-take, length-drop,
  get_elem?-lt, get_elem?-some,
}
use model_lib.Base.Bits.{pow-pos}
use model_lib.Base.Log.{exponent_le}
use model_lib.Segments.{bit_width, SegmentArray, locate, fold_slots, fold_segments, fold_inplace}
use model_lib.Segments.Locate.{locate_place}
use model_lib.Segments.Folds.{Holds}

pow-suc' : (n : ℕ) → 2 ^ (n + 1) ≡ 2 ^ n * 2
pow-suc' n = rw add-one (pow-suc 2 n)

module _ {ℓ} {V : Type 0} {U : Type ℓ} (fn : U → V → U) where
  fold_slots-foldl :
      (xs : List V) (m : ℕ) (s : ℕ → V) (init : U)
      → ((i : ℕ) (v : V) → get_elem? xs i ≡ some v → s (m + i) ≡ v)
      → fold_slots fn (length xs) m s init ≡ foldl fn init xs
  unfolding fold_slots
  fold_slots-foldl [] m s init same = refl
  fold_slots-foldl (x ∷ xs) m s init same =
      ap (λ (t : V). fold_slots fn (length xs) (m + 1) s (fn init t))
        (rw add-zero at (same 0 x refl))
      ∙ fold_slots-foldl xs (m + 1) s (fn init x) (λ i v h. ap s (omega arith) ∙ same (suc i) v h)

module _ {ℓ} {V : Type 0} {U : Type ℓ} {max : ℕ} (fn : U → V → U) where
  -- One round at segment `n`, which begins at place `w`.
  module _ (a : SegmentArray V max) (vs : List V) (is : Holds a vs) (room : length vs < 2 ^ 32 - 1)
      (fits : length vs < 2 ^ bit_width max) where
    rest-length : (w : ℕ) → length (drop w vs) ≡ length vs - w
    rest-length w = length-drop w vs

    -- The slot of a place in segment `n`.
    slot :
        (n i : ℕ) (v : V)
        → i < 2 ^ n
        → get_elem? vs (2 ^ n - 1 + i) ≡ some v
        → (s : ℕ → V) × (a.seg n ≡ some s) × (s i ≡ v)
    slot n i v lt e =
        let inside : 2 ^ n - 1 + i < length vs = get_elem?-lt vs (2 ^ n - 1 + i) v e in
        let level : n < 32 =
          omega (
            arith,
            exponent_le n 31 (2 ^ n - 1 + i + 1) (omega (arith, pow-pos n)) (omega arith),
          ) in
        let at : locate (2 ^ n - 1 + i) ≡ (n, i) = locate_place n i level lt (omega arith) in
        rw at at (is.slots (2 ^ n - 1 + i) v e)

    round :
        (n k : ℕ)
        → 2 ^ n - 1 < length vs
        → k ≤ 2 ^ n
        → k ≤ length vs - (2 ^ n - 1)
        → (s : ℕ → V) × (a.seg n ≡ some s)
          × ((init : U) → fold_slots fn k 0 s init ≡ foldl fn init (take k (drop (2 ^ n - 1) vs)))
    round n k lt k1 k2 =
        let (v, e) = get_elem?-some vs (2 ^ n - 1) lt in
        let (s, here, _) = slot n 0 v (pow-pos n) (rw add-zero e) in
        (
          s,
          here,
          λ init.
              subst
                (λ (t : ℕ). fold_slots fn t 0 s init ≡ foldl fn init (take k (drop (2 ^ n - 1) vs)))
                count (fold_slots-foldl fn (take k (drop (2 ^ n - 1) vs)) 0 s init (values s here)),
        )
      where
        count : length (take k (drop (2 ^ n - 1) vs)) ≡ k
        count = omega (arith, length-take k (drop (2 ^ n - 1) vs), length-drop (2 ^ n - 1) vs)

        values :
            (s : ℕ → V)
            → a.seg n ≡ some s
            → (i : ℕ) (v : V) → get_elem? (take k (drop (2 ^ n - 1) vs)) i ≡ some v
            → s (0 + i) ≡ v
        values s here i v e =
            let (lt, e') = get_elem?-take k i (drop (2 ^ n - 1) vs) v e in
            let (t, there, value) =
              slot n i v (omega arith) (sym (get_elem?-drop (2 ^ n - 1) i vs) ∙ e') in
            let same : s ≡ t = some-injective s t (sym here ∙ there) in
            rw zero-add (ap (λ (x : ℕ → V). x i) same ∙ value)

    -- A segment where values begin is in the table.
    in_reach : (n : ℕ) → 2 ^ n - 1 < length vs → ltb n (bit_width max) ≡ true
    in_reach n lt = elim (dec_lt n (bit_width max)) [
      | yes inside ↦ ground arith
      | no past ↦ absurd (
          omega (
            arith,
            pow-pos n,
            pow-le-pow_right {n = 2} (omega arith) {i = bit_width max} {j = n} (omega arith),
          ))
    ]

    joined :
        (w k : ℕ) (init : U)
        → foldl fn (foldl fn init (take k (drop w vs))) (drop (w + k) vs)
          ≡ foldl fn init (drop w vs)
    joined w k init =
        ap (λ (t : List V). foldl fn (foldl fn init (take k (drop w vs))) t) (sym (drop-add k w vs))
        ∙ sym (foldl-append fn init (take k (drop w vs)) (drop k (drop w vs)))
        ∙ ap (λ (t : List V). foldl fn init t) (take-append-drop k (drop w vs))

    fold_segments-foldl :
        (fuel w n : ℕ) (init : U)
        → (w < length vs → w ≡ 2 ^ n - 1)
        → w ≤ length vs
        → length vs - w < fuel
        → fold_segments fn fuel a (length vs) w n init ≡ some (foldl fn init (drop w vs))
    unfolding fold_segments
    fold_segments-foldl zero w n init e le h = absurd (omega arith)
    fold_segments-foldl (suc fuel) w n init e le h = elim (Bool-cases (ltb w (length vs))) [
      | inl more ↦
          let lt = ltb→lt w (length vs) more in
          let start : w ≡ 2 ^ n - 1 = e lt in
          let k : ℕ = min (2 ^ n) (length vs - w) in
          let (s, here, run) = round n k (omega arith) (omega arith) (omega arith) in
          let next =
            fold_segments-foldl fuel (w + k) (n + 1) (foldl fn init (take k (drop w vs)))
              (λ l. omega (arith, pow-suc' n)) (omega arith) (omega (arith, pow-pos n)) in
          let walked : fold_slots fn k 0 s init ≡ foldl fn init (take k (drop w vs)) =
            subst (λ (t : ℕ). fold_slots fn k 0 s init ≡ foldl fn init (take k (drop t vs)))
              (sym start) (run init) in
          let step : fold_segments fn (suc fuel) a (length vs) w n init
              ≡ fold_segments fn fuel a (length vs) (w + k) (n + 1) (fold_slots fn k 0 s init) =
            rw (more, in_reach n (omega arith), here) in
          step
          ∙ ap (λ (t : U). fold_segments fn fuel a (length vs) (w + k) (n + 1) t) walked
          ∙ next
          ∙ ap some (joined w k init)
      | inr done ↦ rw (done, drop-all w vs (ground arith))
    ]

  -- On an array that holds `vs`, no more values than its table has room for, `fold_inplace` applies the
  -- function to the values in order, and never reads a null segment or past the table; one round more
  -- than there are values is enough fuel.
  pub fold_inplace-foldl :
      (a : SegmentArray V max) (vs : List V) (fuel : ℕ) (init : U)
      → Holds a vs
      → length vs < 2 ^ 32 - 1
      → length vs < 2 ^ bit_width max
      → length vs < fuel
      → fold_inplace fn fuel a init ≡ some (foldl fn init vs)
  unfolding fold_inplace
  fold_inplace-foldl a vs fuel init is room fits h =
      subst (λ (c : ℕ). fold_segments fn fuel a c 0 0 init ≡ some (foldl fn init vs))
        (sym is.counted)
        (fold_segments-foldl a vs is room fits fuel 0 0 init (λ _. refl) (omega arith)
          (omega arith))
