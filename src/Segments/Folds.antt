-- ===== src/Segments/Folds.antt =====
-- include/__ngr/__core/__atomic_segment_array.hpp: appending and folding implement a sequence.
use mathlib.Core.Path.{ap₂}
use mathlib.Core.Option.{some-injective}
use model_lib.Base.{
  suc, ltb, Bool, zero, suc, if◌then◌else◌, ◌≢◌, ◌∙◌, ℕ, ◌+◌, ◌-◌, ◌^◌, ◌<◌, ◌≡◌, refl, sym, ap,
  ◌∙◌, Option, none, some, List, [], ◌∷◌, ◌++◌, ◌==◌, arith, length, get_elem?, length-append,
  get_elem?-snoc, Bool-cases, inl, inr, true, ==-self, ==_iff,
}
use mathlib.Core.Path.{subst}
use model_lib.Base.Log.{log2, log2-lt}
use model_lib.Segments.{
  write_slot, publish_next, published, bit_width, SegmentArray, locate, segment, segment_at,
  reserve, publish, push_back, put_seg, put_slot,
}
use model_lib.Segments.Locate.{locate_slot, locate-eq}
use model_lib.Base.Words.{add32}

-- Places below the limit differ in segment or slot.
locate-apart :
    (i j : ℕ)
    → i < j
    → j < 2 ^ 32 - 1
    → (locate i).0 ≡ (locate j).0
    → (locate i).1 ≡ (locate j).1
    → i ≡ j
locate-apart i j lt h e f =
    let a = locate_slot i (omega arith) in
    let b = locate_slot j h in a.2 ∙ ap₂ (λ (n m : ℕ). 2 ^ n - 1 + m) e f ∙ sym b.2

-- The segment of a place below the last one that the table has room for.
pub segment_in_table :
    (w max : ℕ) → w < 2 ^ 32 - 1 → w + 1 < 2 ^ bit_width max → (locate w).0 < bit_width max
segment_in_table w max word room = rw (locate-eq w word) (log2_below (bit_width max) room)
  where
    log2_below : (k : ℕ) → w + 1 < 2 ^ k → log2 (w + 1) < k
    log2_below zero h = absurd (omega arith)
    log2_below (suc k) h = omega (arith, log2-lt (w + 1) k (omega arith) (omega arith) h)

module _ {V : Type 0} where
  -- What the write of `reserve` leaves of the slot at `j`, given the place `w` that is written.
  module _ (f : ℕ → Option (ℕ → V)) (s : ℕ → V) (w : ℕ) (v : V) where
    abbrev written : ℕ → Option (ℕ → V)
    written = put_seg f (locate w).0 (put_slot s (locate w).1 v)

    written_here : (x : ℕ → V) × (written (locate w).0 ≡ some x) × (x (locate w).1 ≡ v)
    written_here = (put_slot s (locate w).1 v, rw (==-self (locate w).0), rw (==-self (locate w).1))

    other_slot :
        (i : ℕ) (t : ℕ → V)
        → i < w
        → w < 2 ^ 32 - 1
        → f (locate w).0 ≡ some s
        → f (locate i).0 ≡ some t
        → (locate i).0 ≡ (locate w).0
        → put_slot s (locate w).1 v (locate i).1 ≡ t (locate i).1
    other_slot i t lt room here there same = elim (Bool-cases ((locate i).1 == (locate w).1)) [
      | inl e ↦ absurd (distinct (locate-apart i w lt room same ((==_iff _ _).0 e)))
      | inr e ↦ rw e (ap (λ (x : ℕ → V). x (locate i).1) (some-injective s t one))
    ]
      where
        distinct : i ≢ w
        distinct e = omega arith

        one : some s ≡ some t
        one = sym here ∙ ap f (sym same) ∙ there

    written_other :
        (i : ℕ) (t : ℕ → V)
        → i < w
        → w < 2 ^ 32 - 1
        → f (locate w).0 ≡ some s
        → f (locate i).0 ≡ some t
        → (x : ℕ → V) × (written (locate i).0 ≡ some x) × (x (locate i).1 ≡ t (locate i).1)
    written_other i t lt room here there = elim (Bool-cases ((locate i).0 == (locate w).0)) [
      | inl same ↦ (
        put_slot s (locate w).1 v,
        rw same,
        other_slot i t lt room here there ((==_iff _ _).0 same),
      )
      | inr other ↦ (t, rw other there, refl)
    ]

module _ {V : Type 0} {max : ℕ} where
  -- The array holds the values `vs`, in order of their places.
  pub record Holds (a : SegmentArray V max) (vs : List V) : Type 0 where
    pub counted : a.count ≡ length vs
    pub handed : a.prev ≡ length vs
    pub slots :
        (i : ℕ) (v : V)
        → get_elem? vs i ≡ some v
        → (s : ℕ → V) × (a.seg (locate i).0 ≡ some s) × (s (locate i).1 ≡ v)

  -- What `segment` returns, and that it keeps every segment that was there.
  record Segment (a : SegmentArray V max) (n : ℕ) (r : (ℕ → V) × SegmentArray V max) : Type 0 where
    kept : (m : ℕ) (s : ℕ → V) → a.seg m ≡ some s → r.1.seg m ≡ some s
    here : r.1.seg n ≡ some r.0
    count : r.1.count ≡ a.count
    prev : r.1.prev ≡ a.prev

  segment_at_lem :
      (news : ℕ → Bool) (zeroed : V) (a : SegmentArray V max) (n : ℕ) (o : Option (ℕ → V))
      → news n ≡ true
      → a.seg n ≡ o
      → (r : (ℕ → V) × SegmentArray V max) × (segment_at news zeroed a n o ≡ some r) × Segment a n r
  unfolding segment_at
  segment_at_lem news zeroed a n (some s) new e =
      ((s, a), refl, record { kept = λ m t h. h; here = e; count = refl; prev = refl })
  segment_at_lem news zeroed a n none new e = (
    (λ _. zeroed, record a { seg = put_seg a.seg n (λ _. zeroed) }),
    rw new,
    record { kept = λ m t h. put-other m t h; here = ground arith; count = refl; prev = refl },
  )
    where
      put-other : (m : ℕ) (t : ℕ → V) → a.seg m ≡ some t → put_seg a.seg n (λ _. zeroed) m ≡ some t
      put-other m t h = ground arith

  segment_lem :
      (news : ℕ → Bool) (zeroed : V) (a : SegmentArray V max) (n : ℕ)
      → news n ≡ true
      → n < bit_width max
      → (r : (ℕ → V) × SegmentArray V max) × (segment news zeroed a n ≡ some r) × Segment a n r
  unfolding segment
  segment_lem news zeroed a n new inside =
      let there : ltb n (bit_width max) ≡ true = ground arith in
      let (r, e, g) = segment_at_lem news zeroed a n (a.seg n) new refl in (r, rw there e, g)

  -- Each value is in its slot after the write.
  pushed_slots :
      (a : SegmentArray V max) (vs : List V) (is : Holds a vs) (v : V) (f : ℕ → Option (ℕ → V))
      (x : ℕ → V)
      → length vs < 2 ^ 32 - 1
      → f (locate a.prev).0 ≡ some x
      → ((m : ℕ) (s : ℕ → V) → a.seg m ≡ some s → f m ≡ some s)
      → (i : ℕ) (w : V) → get_elem? (vs ++ v ∷ []) i ≡ some w
      → (s : ℕ → V) × (written f x a.prev v (locate i).0 ≡ some s) × (s (locate i).1 ≡ w)
  pushed_slots a vs is v f x word here kept i w h = elim (get_elem?-snoc vs v i w h) [
    | inl (lt, e) ↦
        let (s, there, value) = is.slots i w e in
        let (t, at, same) =
          written_other f x a.prev v i s (omega (arith, is.handed)) (omega (arith, is.handed)) here
            (kept (locate i).0 s there) in
        (t, at, same ∙ value)
    | inr (last, e) ↦
        let at : i ≡ a.prev = last ∙ sym is.handed in rw (at, ← e) (written_here f x a.prev v)
  ]

  -- With no other thread in between, where the segment of the next place is in the table, the index
  -- type has room, and the operator new does not fail, `push_back` returns the number of values that
  -- were there and the array then holds those values and the new one.
  pub push_back-Holds :
      (news : ℕ → Bool) (zeroed v : V) (a : SegmentArray V max) (vs : List V)
      → Holds a vs
      → length vs + 1 < 2 ^ bit_width max
      → length vs < 2 ^ 32 - 1
      → news (locate (length vs)).0 ≡ true
      → (a' : SegmentArray V max) × (push_back news zeroed v a ≡ some (length vs, a'))
        × Holds a' (vs ++ v ∷ [])
  unfolding push_back reserve publish
  push_back-Holds news zeroed v a vs is room word new =
      let b : SegmentArray V max = record a { prev = add32 a.prev 1 } in
      let at : a.prev ≡ length vs = is.handed in
      let (r, e, g) =
        segment_lem news zeroed b (locate a.prev).0
          (subst (λ p. news (locate p).0 ≡ true) (sym at) new)
          (segment_in_table a.prev max (omega arith)
            (subst (λ p. p + 1 < 2 ^ bit_width max) (sym at) room)) in
      let ready : (r.1.count == a.prev) ≡ true =
        rw (g.count, is.counted, at, ==-self (length vs)) in
      let next : add32 a.prev 1 ≡ length (vs ++ v ∷ []) =
        omega (arith, at, length-append vs (v ∷ [])) in
      let pushed : SegmentArray V max = record r.1 {
        seg = written r.1.seg r.0 a.prev v;
        count = add32 a.prev 1;
      } in
      (
        pushed,
        ap (λ o. publish_next a.prev (write_slot news v a.prev o)) e
            ∙ ap (λ t. published a.prev (if t then some pushed else none)) ready
            ∙ ap (λ p. some (p, pushed)) at,
        record {
          counted = next;
          handed = g.prev ∙ next;
          slots = pushed_slots a vs is v r.1.seg r.0 word g.here g.kept;
        },
      )
