-- ===== src/Segments.antt =====
-- include/__ngr/__core/__atomic_segment_array.hpp: an append-only array in segments of 1, 2, 4, …
-- slots. Segments are allocated on demand; the array is read by a fold over what is published. The
-- table of segments has `std::bit_width(max)` entries; an access past it, or through a null segment,
-- is a fault.
pub mod Locate
pub mod Folds
pub mod Reads
use model_lib.Base.{
  ℕ, zero, suc, ◌+◌, ◌-◌, ◌^◌, Option, none, some, List, [], ◌∷◌, ◌==◌, ltb, if◌then◌else◌, min,
  Bool,
}
use model_lib.Base.Words.{add32, sub32}
use model_lib.Base.Log.{clzll}

-- the segment and the position in it
abbrev pub Place : Type 0
Place = ℕ × ℕ

unfoldable pub locate : ℕ → Place
unfolding clzll
locate w = let n = 63 - clzll (add32 w 1) in (n, sub32 w (sub32 (2 ^ n) 1))

-- `std::bit_width`, by the count of leading zeros
abbrev pub bit_width : ℕ → ℕ
bit_width n = if n == 0 then 0 else 64 - clzll n

-- Of the table's entries, the first `bit_width max`, each is null or the slots of segment `n`; `count`
-- is what readers may see, `prev` the next place to hand out.
pub record SegmentArray (V : Type 0) (max : ℕ) : Type 0 where
  pub seg : ℕ → Option (ℕ → V)
  pub count : ℕ
  pub prev : ℕ

module _ {V : Type 0} where
  abbrev pub put_seg : (ℕ → Option (ℕ → V)) → ℕ → (ℕ → V) → ℕ → Option (ℕ → V)
  put_seg f n s m = if m == n then some s else f m

  abbrev pub put_slot : (ℕ → V) → ℕ → V → ℕ → V
  put_slot f n v m = if m == n then v else f m

  -- the inner loop of `_M_fold_inplace`, from slot `m` on
  unfoldable pub fold_slots {ℓ} : {U : Type ℓ} → (U → V → U) → ℕ → ℕ → (ℕ → V) → U → U
  fold_slots fn zero m s init = init
  fold_slots fn (suc k) m s init = fold_slots fn k (m + 1) s (fn init (s m))

  -- A read through a null segment is a fault.
  abbrev pub with_segment {ℓ} : {U : Type ℓ} → Option (ℕ → V) → ((ℕ → V) → Option U) → Option U
  with_segment none k = none
  with_segment (some s) k = k s

module _ {V : Type 0} {max : ℕ} where
  -- Whether the table has an entry for segment `n`.
  abbrev pub in_table : SegmentArray V max → ℕ → Bool
  in_table a n = ltb n (bit_width max)

  -- The second step of `_M_push_back`: the thread spins until all places before its own are published, and publishes its own:
  -- `none` while it spins.
  unfoldable pub publish : ℕ → SegmentArray V max → Option (SegmentArray V max)
  publish place a = if a.count == place then some (record a { count = add32 place 1 }) else none

  -- The whole operation with no other thread in between.
  abbrev pub published : ℕ → Option (SegmentArray V max) → Option (ℕ × SegmentArray V max)
  published place none = none
  published place (some a) = some (place, a)

  abbrev pub publish_next : ℕ → Option (SegmentArray V max) → Option (ℕ × SegmentArray V max)
  publish_next place none = none
  publish_next place (some a) = published place (publish place a)

  -- The operations that add take `news`: whether the operator new has memory for segment `n`.
  module _ (news : ℕ → Bool) where
    -- `_M_segment`, and that its result is not null: the segment that is there, or a new one, its
    -- slots value-initialised to `zeroed`. Of two threads that find null, the compare-exchange lets
    -- one install its segment, and both use that one.
    unfoldable pub segment_at :
        V → SegmentArray V max → ℕ → Option (ℕ → V) → Option ((ℕ → V) × SegmentArray V max)
    segment_at zeroed a n (some s) = some (s, a)
    segment_at zeroed a n none =
        if news n
        then some (λ _. zeroed, record a { seg = put_seg a.seg n (λ _. zeroed) })
        else none

    unfoldable pub segment : V → SegmentArray V max → ℕ → Option ((ℕ → V) × SegmentArray V max)
    unfolding segment_at
    segment zeroed a n = if in_table a n then segment_at zeroed a n (a.seg n) else none

    -- `_M_push_back` in two steps. First a place is handed out and its slot written.
    abbrev pub write_slot :
        V → (place : ℕ) → Option ((ℕ → V) × SegmentArray V max) → Option (SegmentArray V max)
    write_slot v place none = none
    write_slot v place (some (s, a)) =
        let p = locate place in some (record a { seg = put_seg a.seg p.0 (put_slot s p.1 v) })

    unfoldable pub reserve : V → V → SegmentArray V max → Option (SegmentArray V max)
    reserve zeroed v a =
        write_slot v a.prev (segment zeroed (record a { prev = add32 a.prev 1 }) (locate a.prev).0)

    unfoldable pub push_back : V → V → SegmentArray V max → Option (ℕ × SegmentArray V max)
    push_back zeroed v a = publish_next a.prev (reserve zeroed v a)

  -- The outer loop, on fuel; `none` is a read through a null segment or past the table, or no fuel
  -- left.
  unfoldable pub fold_segments {ℓ} :
      {U : Type ℓ} → (U → V → U) → ℕ → SegmentArray V max → (r w n : ℕ) → U → Option U
  unfolding fold_slots
  fold_segments fn zero a r w n init = none
  fold_segments fn (suc k) a r w n init =
      let mm = min (2 ^ n) (r - w) in
      let rest =
        λ (s : ℕ → V). fold_segments fn k a r (w + mm) (n + 1) (fold_slots fn mm 0 s init) in
      if ltb w r then with_segment (if in_table a n then a.seg n else none) rest else some init

  unfoldable pub fold_inplace {ℓ} :
      {U : Type ℓ} → (U → V → U) → ℕ → SegmentArray V max → U → Option U
  unfolding fold_segments
  fold_inplace fn fuel a init = fold_segments fn fuel a a.count 0 0 init
