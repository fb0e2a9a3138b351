-- ===== src/Heap/Linked.antt =====
-- include/__ngr/__core/__intrusive_heap.hpp: a tree in the links of its nodes.
use model_lib.Base.{◌≤◌, ◌≡◌, ◌≢◌, refl, ap, sym, ◌∙◌, ◌==◌, arith, ==-self, ne→==false}
use mathlib.Core.Path.{subst}
use model_lib.Store.{Ptr, null}
use model_lib.Heap.{Heap, of_left, of_right}
use model_lib.Heap.Trees.{Tree, leaf, node, count, one_if}

-- From `p`, whose parent is `q`, the links are those of the tree.
abbrev pub Linked : Heap → (q p : Ptr) → Tree → Type 0
Linked h q p leaf = p ≡ null
Linked h q p (node a l r) =
    (p ≡ a)
    × (a ≢ null)
    × (h.prev a ≡ q)
    × Linked h a (h.at (of_left a)) l
    × Linked h a (h.at (of_right a)) r

-- No node stands in the tree twice.
abbrev pub Distinct : Tree → Type 0
Distinct t = (b : Ptr) → count b t ≤ 1

pub one_self : (a : Ptr) → one_if (a == a) ≡ 1
one_self a = rw (==-self a)

pub count_self : (a : Ptr) (l r : Tree) → 1 ≤ count a (node a l r)
count_self a l r = omega (arith, one_self a)

pub ne_of_count : (y z : Ptr) (t : Tree) → count y t ≡ 0 → 1 ≤ count z t → y ≢ z
ne_of_count y z t h k e = absurd (omega (arith, ap (λ b. count b t) e))

-- A node under another is under neither itself nor the other child.
module _ (a : Ptr) (l r : Tree) (distinct : Distinct (node a l r)) where
  pub Distinct-left : Distinct l
  Distinct-left b = omega (arith, distinct b)

  pub Distinct-right : Distinct r
  Distinct-right b = omega (arith, distinct b)

  pub root-left : count a l ≡ 0
  root-left = omega (arith, distinct a, one_self a)

  pub root-right : count a r ≡ 0
  root-right = omega (arith, distinct a, one_self a)

  pub left-right : (b : Ptr) → 1 ≤ count b l → count b r ≡ 0
  left-right b h = omega (arith, distinct b)

  pub right-left : (b : Ptr) → 1 ≤ count b r → count b l ≡ 0
  right-left b h = omega (arith, distinct b)

pub Linked-root : (h : Heap) (q p : Ptr) (t : Tree) → Linked h q p t → p ≢ null → 1 ≤ count p t
Linked-root h q p leaf k ne = absurd (ne k)
Linked-root h q p (node a l r) k ne =
    subst (λ c. 1 ≤ count c (node a l r)) (sym k.0) (count_self a l r)

-- A node that is not in a tree is its root only if there is none.
pub outside-root :
    (h : Heap) (q p y : Ptr) (t : Tree) → Linked h q p t → count y t ≡ 0 → y ≡ p → p ≡ null
outside-root h q p y leaf k o e = k
outside-root h q p y (node a l r) k o e =
    absurd (ne_of_count y a (node a l r) o (count_self a l r) (e ∙ k.0))

-- Two heaps agree on the links of a node.
pub record Agrees (h g : Heap) (a : Ptr) : Type 0 where
  pub left : g.at (of_left a) ≡ h.at (of_left a)
  pub right : g.at (of_right a) ≡ h.at (of_right a)

pub Linked-frame :
    (h g : Heap) (q p : Ptr) (t : Tree)
    → ((a : Ptr) → 1 ≤ count a t → Agrees h g a)
    → ((a : Ptr) → 1 ≤ count a t → g.prev a ≡ h.prev a)
    → Linked h q p t
    → Linked g q p t
Linked-frame h g q p leaf same back k = k
Linked-frame h g q p (node a l r) same back (e, nn, b, kl, kr) =
    let here = same a (count_self a l r) in
    (
      e,
      nn,
      back a (count_self a l r) ∙ b,
      subst (λ c. Linked g a c l) (sym here.left)
          (Linked-frame h g a (h.at (of_left a)) l (λ y i. same y (omega arith))
            (λ y i. back y (omega arith)) kl),
      subst (λ c. Linked g a c r) (sym here.right)
          (Linked-frame h g a (h.at (of_right a)) r (λ y i. same y (omega arith))
            (λ y i. back y (omega arith)) kr),
    )

-- The root of a tree gets another parent.
pub Linked-rebase :
    (h g : Heap) (q u p : Ptr) (t : Tree)
    → Distinct t
    → ((a : Ptr) → 1 ≤ count a t → Agrees h g a)
    → (p ≢ null → g.prev p ≡ u)
    → ((a : Ptr) → 1 ≤ count a t → a ≢ p → g.prev a ≡ h.prev a)
    → Linked h q p t
    → Linked g u p t
Linked-rebase h g q u p leaf distinct same new back k = k
Linked-rebase h g q u p (node a l r) distinct same new back (e, nn, b, kl, kr) =
    let here = same a (count_self a l r) in
    (
      e,
      nn,
      ap g.prev (sym e) ∙ new (λ z. nn (sym e ∙ z)),
      subst (λ c. Linked g a c l) (sym here.left)
          (Linked-frame h g a (h.at (of_left a)) l (λ y i. same y (omega arith))
            (λ y i.
              back y (omega arith)
                (λ z. ne_of_count a y l (root-left a l r distinct) i (sym (z ∙ e))))
            kl),
      subst (λ c. Linked g a c r) (sym here.right)
          (Linked-frame h g a (h.at (of_right a)) r (λ y i. same y (omega arith))
            (λ y i.
              back y (omega arith)
                (λ z. ne_of_count a y r (root-right a l r distinct) i (sym (z ∙ e))))
            kr),
    )

pub null_outside : (h : Heap) (q p : Ptr) (t : Tree) → Linked h q p t → count null t ≡ 0
null_outside h q p leaf k = refl
null_outside h q p (node a l r) k = omega (
  arith,
  null_outside h a (h.at (of_left a)) l k.3,
  null_outside h a (h.at (of_right a)) r k.4,
  ap one_if (ne→==false null a (λ e. k.1 (sym e))),
)

-- The root of one tree, or null, is outside a tree that shares no node with it.
pub root_outside :
    (h : Heap) (q u s p : Ptr) (t r : Tree)
    → Linked h q s t
    → Linked h u p r
    → ((b : Ptr) → 1 ≤ count b t → count b r ≡ 0)
    → count s r ≡ 0
root_outside h q u s p leaf r k m disjoint =
    subst (λ c. count c r ≡ 0) (sym k) (null_outside h u p r m)
root_outside h q u s p (node a l r') r k m disjoint =
    disjoint s (Linked-root h q s (node a l r') k (λ e. k.1 (sym k.0 ∙ e)))
