-- ===== src/Inbox/Order.antt =====
-- include/__ngr/__core/__atomic_intrusive_queue.hpp: what is pushed at the front is taken in the order
-- in which it was pushed.
use model_lib.Base.{
  ℕ, ◌<◌, ◌≡◌, ◌≢◌, refl, List, [], ◌∷◌, ◌==◌, length, reverse, arith, false, some,
}
use model_lib.Store.{Ptr, null, Links, write}
use model_lib.Store.Seg.{has, Seg, SameBut, Seg-write, write_self}
use model_lib.Store.Steps.{store-some}
use model_lib.Store.Yields.{Yields, yields, after}
use model_lib.Queue.Laws.{IsQueue}
use model_lib.Queue.Loops.{create_reversed-IsQueue}
use model_lib.Inbox.{push_front, pop_swap_reversed}

-- Pushing a node that is not in the chain of the inbox puts it before the others, tells whether the
-- inbox was empty, and writes no other link.
pub inbox_push :
    (h : Links) (head x : Ptr) (xs : List Ptr)
    → Seg h head xs null
    → x ≢ null
    → has x xs ≡ false
    → Yields
        (λ r g. (r.0 ≡ (head == null)) × Seg g r.1 (x ∷ xs) null × SameBut (x ∷ []) h g)
        (push_front x head h)
unfolding push_front
inbox_push h head x xs s nn out =
    let e : push_front x head h ≡ some ((head == null, x), write h x head) =
      rw (store-some x nn head h) in
    rw e (
      yields (
        refl,
        (refl, nn, out, rw (write_self h x head) (Seg-write h x head head xs null out s)),
        λ a o. ground arith,
      ))

-- Taking all nodes in reverse gives the queue of the nodes in the order in which they were pushed,
-- ends with more rounds than there are nodes, and leaves the inbox empty.
pub inbox_take :
    (fuel : ℕ) (h : Links) (head : Ptr) (xs : List Ptr)
    → Seg h head xs null
    → length xs < fuel
    → Yields
        (λ r g. IsQueue g r.0 (reverse xs) × (r.1 ≡ null) × SameBut xs h g)
        (pop_swap_reversed fuel head h)
unfolding pop_swap_reversed
inbox_take fuel h head xs s enough =
    after (create_reversed-IsQueue fuel h head xs s enough)
      (λ q g (is, same). yields (is, refl, same))
