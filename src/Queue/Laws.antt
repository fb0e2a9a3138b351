-- ===== src/Queue/Laws.antt =====
-- include/__ngr/__core/__intrusive_queue.hpp: what each member function does to the sequence of
-- nodes that a queue stands for, and which links it writes.
use model_lib.Base.{
  ne→==false, sym, some, ◌≡◌, ◌≢◌, refl, false, List, [], ◌∷◌, ◌++◌, arith, ◌==◌, if◌then◌else◌,
}
use model_lib.Store.{Ptr, null, Links, write}
use model_lib.Store.Seg.{
  has-apart, not-last, last-ne-null, write_self, has, Seg, SameBut, last_or, last_or-append,
  Seg-write, Seg-append, Seg-redirect,
}
use model_lib.Store.Steps.{store-some, assert-some}
use model_lib.Store.Yields.{Yields, yields}
use model_lib.Queue.Defs.{Queue, queue, empty_queue, empty, pop_front, push_front, push_back}

-- The queue stands for the nodes `xs`, front first: its chain ends at null, and its tail is the
-- last node.
pub record IsQueue (h : Links) (q : Queue) (xs : List Ptr) : Type 0 where
  pub chain : Seg h q.head xs null
  pub ends : q.tail ≡ last_or null xs

pub IsQueue-empty : (h : Links) → IsQueue h empty_queue []
IsQueue-empty h = record { chain = refl; ends = refl }

-- An empty queue stands for no node, and a queue of no node is empty.
pub empty_iff :
    (h : Links) (q : Queue) (x : Ptr) (xs : List Ptr) → IsQueue h q (x ∷ xs) → (empty q) ≡ false
empty_iff h q x xs is = ground (arith, is.chain)

module _ (h : Links) (q : Queue) where
  -- Popping the front of `x ∷ xs` returns `x`, leaves `xs`, and writes nothing.
  pub pop_front-cons :
      (x : Ptr) (xs : List Ptr)
      → IsQueue h q (x ∷ xs)
      → Yields (λ r g. (r.0 ≡ x) × IsQueue g r.1 xs × (g ≡ h)) (pop_front q h)
  unfolding pop_front
  pop_front-cons x [] is =
      let e : pop_front q h ≡ some ((x, queue null null), h) = ground (arith, is.chain) in
      rw e (yields (refl, IsQueue-empty h, refl))
  pop_front-cons x (y ∷ ys) is =
      let e : pop_front q h ≡ some ((x, queue y q.tail), h) = ground (arith, is.chain) in
      rw e (yields (refl, record { chain = ground (arith, is.chain); ends = is.ends }, refl))

  new_tail :
      (x : Ptr) (xs : List Ptr)
      → IsQueue h q xs
      → (if q.tail == null then x else q.tail) ≡ last_or x xs
  new_tail x [] is = ground (arith, is.ends)
  new_tail x (y ∷ ys) is = ground (arith, is.ends, last-ne-null h q.head y ys null is.chain)

  -- Pushing a node that is not in the queue puts it in front, and writes only its link.
  pub push_front-cons :
      (x : Ptr) (xs : List Ptr)
      → IsQueue h q xs
      → x ≢ null
      → has x xs ≡ false
      → Yields (λ r g. IsQueue g r (x ∷ xs) × SameBut (x ∷ []) h g) (push_front x q h)
  unfolding push_front
  push_front-cons x xs is nn out =
      let q' : Queue = queue x (if q.tail == null then x else q.tail) in
      let e : push_front x q h ≡ some (q', write h x q.head) = ground (arith) in
      let back : Seg (write h x q.head) q.head xs null =
        Seg-write h x q.head q.head xs null out is.chain in
      rw e (
        yields (
          record {
            chain = (refl, nn, out, rw (write_self h x q.head) back);
            ends = new_tail x xs is;
          },
          λ a o. ground arith,
        ))

  -- Pushing a node that is not in the queue puts it at the back; the only links written are its own
  -- and that of the old last node.
  pub push_back-append :
      (x : Ptr) (xs : List Ptr)
      → IsQueue h q xs
      → x ≢ null
      → has x xs ≡ false
      → Yields (λ r g. IsQueue g r (xs ++ x ∷ []) × SameBut (x ∷ q.tail ∷ []) h g) (push_back x q h)
  unfolding push_back
  push_back-append x [] is nn out =
      let e : push_back x q h ≡ some (queue x x, write h x null) =
        rw (assert-some x nn h, store-some x nn null h, is.ends) in
      rw e (
        yields (
          record { chain = (refl, nn, refl, write_self h x null); ends = refl },
          λ a o. ground arith,
        ))
  push_back-append x (y ∷ ys) is nn out =
      let t : Ptr = last_or y ys in
      let g : Links = write h x null in
      let nt : q.tail ≢ null = rw is.ends (last-ne-null h q.head y ys null is.chain) in
      let tail_set : (q.tail == null) ≡ false = ne→==false q.tail null nt in
      let e : push_back x q h ≡ some (queue q.head x, write g t x) =
        rw (
          assert-some x nn h,
          store-some x nn null h,
          tail_set,
          store-some q.tail nt x g,
          is.ends,
        ) in
      let front : Seg (write g t x) q.head (y ∷ ys) x =
        Seg-redirect g x q.head y ys null (Seg-write h x null q.head (y ∷ ys) null out is.chain) in
      rw e (
        yields (
          record {
            chain =
                Seg-append (write g t x) q.head (y ∷ ys) x (x ∷ []) null front
                  (refl, nn, refl, last_link x t (not-last x y ys out))
                  (λ a i. rw (has-apart a x (y ∷ ys) out i));
            ends = sym (last_or-append null x (y ∷ ys) []);
          },
          λ a o. twice_unchanged a x t (rw is.ends at o),
        ))
    where
      last_link : (x t : Ptr) → (x == t) ≡ false → write (write h x null) t x x ≡ null
      last_link x t ne = ground arith

      twice_unchanged :
          (a x t : Ptr) → has a (x ∷ t ∷ []) ≡ false → write (write h x null) t x a ≡ h a
      twice_unchanged a x t o = ground arith
