-- ===== src/Heap/Shift.antt =====
-- include/__ngr/__core/__intrusive_heap.hpp: the inner loop of `_M_push` shifts the nodes below the
-- new one along the path.
use mathlib.Core.Path.{subst}
use model_lib.Base.{
  Option, ◌≡◌, ◌≢◌, refl, sym, ◌∙◌, Bool, true, false, some, List, [], ◌∷◌, arith, ==-self,
  ne→==false,
}
use model_lib.Store.{Ptr, null}
use model_lib.Heap.{Heap, of_left, of_right, write_at, settle}
use model_lib.Heap.Trees.{Tree, leaf, node, count, shift}
use model_lib.Heap.Linked.{
  Linked, Distinct, count_self, ne_of_count, outside-root, Distinct-left, Distinct-right, root-left,
  root-right, left-right, right-left,
}
use model_lib.Heap.Displace.{Lifted, Spares, Agrees-trans, beside-Linked}

-- The outcome of the inner loop.
abbrev pub Shifted : List Bool → Ptr → Tree → Heap → Option (Unit {0} × Heap) → Type 0
Shifted bs x t h o =
    (g : Heap) × (o ≡ some (tt, g)) × Linked g (h.prev x) x (shift bs x t) × Spares x t h g

pub settle-Shifted :
    (x : Ptr) (h : Heap) → x ≢ null → h.at (of_right x) ≡ null → Shifted [] x leaf h (settle x h)
unfolding settle shift
settle-Shifted x h nx none_right = (
  write_at (of_left x) null h,
  rw (ne→==false x null nx, none_right, ne→==false x null nx),
  (refl, nx, refl, rw (==-self x), none_right),
  record {
    size = refl;
    root = refl;
    links = λ y ne o. record { left = rw (ne→==false y x ne); right = refl };
    prev = λ y o. refl;
  },
)

-- What `x` and its links hold after a round and the rest of the path.
module _ (x a : Ptr) (l r : Tree) (h g k : Heap) (nx : x ≢ null) (distinct : Distinct (node a l r))
    (out : count x (node a l r) ≡ 0) where
  x-ne-a : x ≢ a
  x-ne-a = ne_of_count x a (node a l r) out (count_self a l r)

  pub right_round :
      (bs : List Bool)
      → Linked h x a (node a l r)
      → Lifted true x a (h.at (of_left a)) h g
      → Linked k (g.prev a) a (shift bs a r)
      → Spares a r g k
      → Linked k (h.prev x) x (shift (true ∷ bs) x (node a l r)) × Spares x (node a l r) h k
  unfolding shift
  right_round bs linked lift below spares =
      let own = spares.links x x-ne-a (omega (arith, out)) in
      let s = h.at (of_left a) in
      let outside = λ (y : Ptr) (o : count y l ≡ 0). outside-root h a s y l linked.3 o in
      (
        (
          refl,
          nx,
          spares.prev x (omega (arith, out)) ∙ lift.others x (outside x (omega (arith, out))),
          subst (λ c. Linked k x c l) (sym (own.left ∙ lift.beside))
              (beside-Linked true x a s h g k l r lift spares (Distinct-left a l r distinct)
                (omega (arith, out)) (root-left a l r distinct) (left-right a l r distinct)
                linked.3),
          subst (λ c. Linked k x c (shift bs a r)) (sym (own.right ∙ lift.on_path))
              (subst (λ c. Linked k c a (shift bs a r))
                (lift.others a (outside a (root-left a l r distinct)) ∙ linked.2) below),
        ),
        record {
          size = spares.size ∙ lift.size;
          root = spares.root ∙ lift.root;
          links = λ y ne o. Agrees-trans h g k y (lift.links y ne) (
              spares.links y (ne_of_count y a (node a l r) o (count_self a l r))
                (omega (arith, o)));
          prev = λ y o.
              spares.prev y (omega (arith, o)) ∙ lift.others y (outside y (omega (arith, o)));
        },
      )

  pub left_round :
      (bs : List Bool)
      → Linked h x a (node a l r)
      → Lifted false x a (h.at (of_right a)) h g
      → Linked k (g.prev a) a (shift bs a l)
      → Spares a l g k
      → Linked k (h.prev x) x (shift (false ∷ bs) x (node a l r)) × Spares x (node a l r) h k
  unfolding shift
  left_round bs linked lift below spares =
      let own = spares.links x x-ne-a (omega (arith, out)) in
      let s = h.at (of_right a) in
      let outside = λ (y : Ptr) (o : count y r ≡ 0). outside-root h a s y r linked.4 o in
      (
        (
          refl,
          nx,
          spares.prev x (omega (arith, out)) ∙ lift.others x (outside x (omega (arith, out))),
          subst (λ c. Linked k x c (shift bs a l)) (sym (own.left ∙ lift.on_path))
              (subst (λ c. Linked k c a (shift bs a l))
                (lift.others a (outside a (root-right a l r distinct)) ∙ linked.2) below),
          subst (λ c. Linked k x c r) (sym (own.right ∙ lift.beside))
              (beside-Linked false x a s h g k r l lift spares (Distinct-right a l r distinct)
                (omega (arith, out)) (root-right a l r distinct) (right-left a l r distinct)
                linked.4),
        ),
        record {
          size = spares.size ∙ lift.size;
          root = spares.root ∙ lift.root;
          links = λ y ne o. Agrees-trans h g k y (lift.links y ne) (
              spares.links y (ne_of_count y a (node a l r) o (count_self a l r))
                (omega (arith, o)));
          prev = λ y o.
              spares.prev y (omega (arith, o)) ∙ lift.others y (outside y (omega (arith, o)));
        },
      )
