-- ===== src/Queue/Splice.antt =====
-- include/__ngr/__core/__intrusive_queue.hpp: `_M_splice`.
use mathlib.Core.Path.{subst}
use model_lib.Base.{
  inr, inl, Bool-cases, true, ◌≡◌, ◌≢◌, refl, sym, ◌∙◌, false, some, List, [], ◌∷◌, ◌++◌, arith,
  ◌==◌, if◌then◌else◌, ne→==false, ==-self,
}
use model_lib.Store.{Ptr, null, Links, write}
use model_lib.Store.Seg.{
  write_self, Seg-redirect, Apart, Seg-write, has, Seg, last_or, last_or-append, last-ne-null,
  not-last, has-last,
}
use model_lib.Store.Split.{Seg-Split}
use model_lib.Store.Steps.{store-some, assert-some}
use model_lib.Store.Yields.{Yields, yields}
use model_lib.Queue.Defs.{
  Queue, queue, empty_queue, Iterator, iterator, begin, end, splice, splice_in, splice_out,
}
use model_lib.Queue.Laws.{IsQueue}

-- A tail is set just when the queue has nodes.
tail_after :
    (h : Links) (z : Ptr) (x : Ptr) (xs post : List Ptr)
    → Seg h z post null
    → (if z == null then null else last_or x (xs ++ post)) ≡ last_or null post
tail_after h z x xs [] s = rw s
tail_after h z x xs (y ∷ ys) s = rw (s.0, ne→==false y null s.1) (last_or-append x y xs ys)

-- Splicing a prefix of `other` into an empty queue takes the prefix out of `other` and writes
-- nothing: the queue's head and tail are the ends of the prefix, whose last link still leads
-- to what `other` keeps.
pub splice-prefix :
    (h : Links) (other : Queue) (pos : Iterator) (x z : Ptr) (xs post : List Ptr)
    → Seg h other.head (x ∷ xs) z
    → Seg h z post null
    → other.tail ≡ last_or x (xs ++ post)
    → Yields
        (λ r g. (r.0 ≡ queue x (last_or x xs)) × IsQueue g r.1 post × (g ≡ h))
        (splice empty_queue pos other (begin other) (iterator (last_or x xs) z) h)
unfolding splice splice_in splice_out
splice-prefix h other pos x z xs post s t last =
    let nn : last_or x xs ≢ null = last-ne-null h other.head x xs z s in
    let xn : other.head ≢ null = rw s.0 s.1 in
    let e : splice empty_queue pos other (begin other) (iterator (last_or x xs) z) h
        ≡ some (
          (queue other.head (last_or x xs), queue z (if z == null then null else other.tail)),
          h,
        ) =
      rw (
        ne→==false null (last_or x xs) (λ e. nn (sym e)),
        assert-some other.head xn h,
        assert-some (last_or x xs) nn h,
        ==-self other.head,
      ) in
    rw e (yields (rw s.0, record { chain = t; ends = rw last (tail_after h z x xs post t) }, refl))

not-head : (a x : Ptr) (xs : List Ptr) → has a (x ∷ xs) ≡ false → (a == x) ≡ false
not-head a x xs out = ground arith

-- The right part of a split has nothing of the left one.
not_in_left : (a : Ptr) (xs ys : List Ptr) → Apart xs ys → has a ys ≡ true → has a xs ≡ false
not_in_left a xs ys apart i = elim (Bool-cases (has a xs)) [
  | inl there ↦ absurd (ground (arith, i, apart a there))
  | inr out ↦ out
]

-- Splicing the suffix `x ∷ xs` off a queue that keeps the nodes `p ∷ ps`, into another queue that is
-- not empty and behind a node that is in neither part, takes the suffix out: what is kept is
-- linked from the old head to null, and the suffix stands between the position's nodes. But the tail
-- that the first queue is left with is the last node of the suffix, which it no longer links.
pub splice-suffix_stale :
    (h : Links) (q : Queue) (pos : Iterator) (other : Queue) (p x : Ptr) (ps xs : List Ptr)
    → IsQueue h other (p ∷ ps ++ x ∷ xs)
    → q.head ≢ null
    → pos.predecessor ≢ null
    → has pos.predecessor (p ∷ ps) ≡ false
    → has pos.predecessor (x ∷ xs) ≡ false
    → Yields
        (λ r g.
          Seg g r.1.head (p ∷ ps) null
          × (g pos.predecessor ≡ x)
          × Seg g x (x ∷ xs) pos.item
          × (r.1.tail ≡ last_or x xs)
          × (has r.1.tail (p ∷ ps) ≡ false))
        (splice q pos other (iterator (last_or p ps) x) (end other) h)
unfolding splice splice_in splice_out
splice-suffix_stale h q pos other p x ps xs is qn pn outl outr =
    let parts = Seg-Split h other.head (p ∷ ps) (x ∷ xs) null is.chain in
    let en : last_or x xs ≢ null = last-ne-null h parts.mid x xs null parts.back in
    let last : other.tail ≡ last_or x xs = is.ends ∙ last_or-append null x (p ∷ ps) xs in
    let tn : other.tail ≢ null = rw last en in
    let ln : last_or p ps ≢ null = last-ne-null h other.head p ps parts.mid parts.front in
    let alone : has (last_or p ps) (x ∷ xs) ≡ false = parts.apart (last_or p ps) (has-last p ps) in
    let gone : has (last_or x xs) (p ∷ ps) ≡ false =
      not_in_left (last_or x xs) (p ∷ ps) (x ∷ xs) parts.apart (has-last x xs) in
    let differ : (last_or p ps == last_or x xs) ≡ false = not-last (last_or p ps) x xs alone in
    let f : Links = write h (last_or p ps) null in
    let g : Links = write f other.tail pos.item in
    let here : (other.head == x) ≡ false =
      rw is.chain.0 (not-head p x xs (parts.apart p (ground arith))) in
    let xn : x ≢ null = parts.back.1 in
    let apart : (last_or p ps == other.tail) ≡ false = rw last differ in
    let e : splice q pos other (iterator (last_or p ps) x) (end other) h
        ≡ some (
          (queue q.head (if pos.item == null then other.tail else q.tail), other),
          write g pos.predecessor x,
        ) =
      rw (
        apart,
        assert-some x xn h,
        assert-some other.tail tn h,
        here,
        assert-some (last_or p ps) ln h,
        store-some (last_or p ps) ln null h,
        store-some other.tail tn pos.item f,
        ne→==false q.head null qn,
        store-some pos.predecessor pn x g,
      ) in
    let stale : has other.tail (p ∷ ps) ≡ false =
      subst (λ t. has t (p ∷ ps) ≡ false) (sym last) gone in
    let kept : Seg (write g pos.predecessor x) other.head (p ∷ ps) null =
      Seg-write g pos.predecessor x other.head (p ∷ ps) null outl (
        Seg-write f other.tail pos.item other.head (p ∷ ps) null stale
          (Seg-redirect h null other.head p ps parts.mid parts.front)) in
    let moved : Seg (write g pos.predecessor x) x (x ∷ xs) pos.item =
      Seg-write g pos.predecessor x x (x ∷ xs) pos.item outr (
        subst (λ t. Seg (write f t pos.item) x (x ∷ xs) pos.item) (sym last)
          (Seg-redirect f pos.item x x xs null (
            Seg-write h (last_or p ps) null x (x ∷ xs) null alone
              (refl, parts.back.1, parts.back.2, parts.back.3)))) in
    rw e (yields (kept, write_self g pos.predecessor x, moved, last, stale))
