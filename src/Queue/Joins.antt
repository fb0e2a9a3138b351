-- ===== src/Queue/Joins.antt =====
-- include/__ngr/__core/__intrusive_queue.hpp: `_M_append` and `_M_prepend` join two queues by one
-- link, and leave the argument empty, as its destructor asserts.
use mathlib.Core.List.{append-nil}
use mathlib.Core.Path.{subst}
use model_lib.Base.{◌≡◌, ◌≢◌, refl, sym, false, some, List, [], ◌∷◌, ◌++◌, arith, ne→==false}
use model_lib.Store.{Ptr, null, Links, write}
use model_lib.Store.Seg.{
  Seg, SameBut, Apart, last_or, last_or-append, Seg-frame, Seg-append, Seg-redirect, last-ne-null,
  has-last, has-apart,
}
use model_lib.Store.Steps.{store-some}
use model_lib.Store.Yields.{Yields, yields}
use model_lib.Queue.Defs.{Queue, queue, empty_queue, empty, append, prepend}
use model_lib.Queue.Laws.{IsQueue}

no_nodes : (h : Links) (o : Queue) → IsQueue h o [] → o ≡ empty_queue
no_nodes h o is = ground (arith, is.chain, is.ends)

some_nodes :
    (h : Links) (q : Queue) (x : Ptr) (xs : List Ptr) → IsQueue h q (x ∷ xs) → empty q ≡ false
some_nodes h q x xs is = ground (arith, is.chain)

tail-ne-null :
    (h : Links) (q : Queue) (x : Ptr) (xs : List Ptr) → IsQueue h q (x ∷ xs) → q.tail ≢ null
tail-ne-null h q x xs is = rw is.ends (last-ne-null h q.head x xs null is.chain)

-- Redirecting the last link of one chain to the head of another joins them.
join :
    (h : Links) (t p x : Ptr) (xs : List Ptr) (r y : Ptr) (ys : List Ptr)
    → t ≡ last_or x xs
    → Seg h p (x ∷ xs) null
    → Seg h r (y ∷ ys) null
    → Apart (x ∷ xs) (y ∷ ys)
    → Seg (write h t r) p (x ∷ xs ++ y ∷ ys) null
join h t p x xs r y ys last s u apart =
    let g : Links = write h (last_or x xs) r in
    subst (λ u. Seg (write h u r) p (x ∷ xs ++ y ∷ ys) null) (sym last)
      (Seg-append g p (x ∷ xs) r (y ∷ ys) null (Seg-redirect h r p x xs null s)
        (Seg-frame r (y ∷ ys) null
          (λ a i. rw (has-apart a (last_or x xs) (y ∷ ys) (apart _ (has-last x xs)) i)) u)
        apart)

-- Appending `other` to `q` gives the nodes of both in order, leaves `other` empty, and writes no
-- link but that of the last node of `q`.
pub append-joins :
    (h : Links) (q other : Queue) (xs ys : List Ptr)
    → IsQueue h q xs
    → IsQueue h other ys
    → Apart xs ys
    → Yields
        (λ r g. IsQueue g r.0 (xs ++ ys) × (r.1 ≡ empty_queue) × SameBut (q.tail ∷ []) h g)
        (append q other h)
unfolding append
append-joins h q other xs [] is it apart =
    let e : append q other h ≡ some ((q, other), h) = rw it.chain in
    rw e (yields (rw (append-nil xs) is, no_nodes h other it, λ a o. refl))
append-joins h q other [] (y ∷ ys) is it apart =
    let e : append q other h ≡ some ((queue other.head other.tail, empty_queue), h) =
      rw (some_nodes h other y ys it, is.chain) in
    rw e (yields (it, refl, λ a o. refl))
append-joins h q other (x ∷ xs) (y ∷ ys) is it apart =
    let e : append q other h
        ≡ some ((queue q.head other.tail, empty_queue), write h q.tail other.head) =
      rw (
        some_nodes h other y ys it,
        some_nodes h q x xs is,
        store-some q.tail (tail-ne-null h q x xs is) other.head h,
      ) in
    rw e (
      yields (
        record {
          chain = join h q.tail q.head x xs other.head y ys is.ends is.chain it.chain apart;
          ends = rw (last_or-append null y (x ∷ xs) ys) it.ends;
        },
        refl,
        λ a o. ground arith,
      ))

-- Prepending `other` to `q` gives the nodes of `other` before those of `q`, leaves `other` empty,
-- and writes no link but that of the last node of `other`.
pub prepend-joins :
    (h : Links) (q other : Queue) (xs ys : List Ptr)
    → IsQueue h q xs
    → IsQueue h other ys
    → Apart ys xs
    → Yields
        (λ r g. IsQueue g r.0 (ys ++ xs) × (r.1 ≡ empty_queue) × SameBut (other.tail ∷ []) h g)
        (prepend q other h)
unfolding prepend
prepend-joins h q other xs [] is it apart =
    let e : prepend q other h ≡ some ((q, other), h) = rw it.chain in
    rw e (yields (is, no_nodes h other it, λ a o. refl))
prepend-joins h q other [] (y ∷ ys) is it apart =
    let e : prepend q other h
        ≡ some ((queue other.head other.tail, empty_queue), write h other.tail q.head) =
      rw (
        some_nodes h other y ys it,
        store-some other.tail (tail-ne-null h other y ys it) q.head h,
        is.ends,
      ) in
    rw e (
      yields (
        record {
          chain = rw (append-nil ys) (redirected is.chain);
          ends = rw (append-nil ys) it.ends;
        },
        refl,
        λ a o. ground arith,
      ))
  where
    redirected : q.head ≡ null → Seg (write h other.tail q.head) other.head (y ∷ ys) null
    redirected z =
        subst (λ u. Seg (write h u q.head) other.head (y ∷ ys) null) (sym it.ends)
          (subst (λ e. Seg (write h (last_or y ys) q.head) other.head (y ∷ ys) e) z
            (Seg-redirect h q.head other.head y ys null it.chain))
prepend-joins h q other (x ∷ xs) (y ∷ ys) is it apart =
    let e : prepend q other h
        ≡ some ((queue other.head q.tail, empty_queue), write h other.tail q.head) =
      rw (
        some_nodes h other y ys it,
        store-some other.tail (tail-ne-null h other y ys it) q.head h,
        ne→==false q.tail null (tail-ne-null h q x xs is),
      ) in
    rw e (
      yields (
        record {
          chain = join h other.tail other.head y ys q.head x xs it.ends it.chain is.chain apart;
          ends = rw (last_or-append null x (y ∷ ys) xs) is.ends;
        },
        refl,
        λ a o. ground arith,
      ))
