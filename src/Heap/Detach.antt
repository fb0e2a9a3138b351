-- ===== src/Heap/Detach.antt =====
-- include/__ngr/__core/__intrusive_heap.hpp: `__remove_least_leaf` ends, with the last leaf taken off.
use mathlib.Core.Path.{subst}
use model_lib.Base.{
  ℕ, zero, suc, ◌+◌, ◌*◌, ◌/◌, ◌^◌, ◌<◌, ◌≡◌, ◌≢◌, refl, sym, ◌∙◌, Bool, true, false, some, Option,
  List, [], ◌∷◌, ◌==◌, arith, length, ==-self, ne→==false,
}
use model_lib.Store.{Ptr, null}
use model_lib.Heap.{
  Heap, Slot, of_root, of_left, of_right, usable, turns_right, write_at, path_bit_mask,
}
use model_lib.Heap.Removal.{leaf_loop, remove_least_leaf}
use model_lib.Heap.Trees.{Tree, leaf, node, Shape, goes_to, goes_to-ge}
use model_lib.Heap.Linked.{Linked, Distinct, Distinct-left, Distinct-right, root-left, root-right}
use model_lib.Heap.Displace.{Turns}
use model_lib.Heap.Slots.{owned, same_slot_self}
use model_lib.Heap.Cut.{last, cut}
use model_lib.Heap.Within.{Within, above-Within, above-Linked}
use model_lib.Heap.Path.{way, way-Turns, goes_to-way, length-way}

-- The outcome of the loop at the slot `pp` of a node of which `q` is the parent.
abbrev pub Detached :
    List Bool → Tree → (pp : Slot) → (q : Ptr) → Heap → Option (Ptr × Heap) → Type 0
Detached bs t pp q h o =
    (g : Heap) × (o ≡ some (last bs t, g))
    × Linked g q (g.at pp) (cut bs t)
    × Within pp t h g
    × ((y : Ptr) → g.prev y ≡ h.prev y)

here_step :
    (fuel mask k : ℕ) (a q : Ptr) (l r : Tree) (pp : Slot) (h : Heap)
    → mask ≡ 0
    → usable pp ≡ true
    → Detached [] (node a l r) pp q h (leaf_loop (suc fuel) mask k a pp h)
unfolding leaf_loop last cut
here_step fuel mask k a q l r pp h z u = (
  write_at pp null h,
  rw (subst (λ m. (m == 0) ≡ true) (sym z) (==-self 0), u),
  rw (same_slot_self pp),
  record { size = refl; at = λ s ne o. rw ne; prev = λ y o. refl },
  λ y. refl,
)

module _ (fuel mask k : ℕ) (bs : List Bool) (a q : Ptr) (l r : Tree) (pp : Slot) (h : Heap)
    (nz : mask ≢ 0) (distinct : Distinct (node a l r)) (own : owned pp (node a l r) ≡ 0)
    (top : h.at pp ≡ a) (linked : Linked h q a (node a l r)) where
  right_step :
      turns_right mask k ≡ true
      → Detached bs r
          (of_right a)
          a
          h
          (leaf_loop fuel (mask / 2) k (h.at (of_right a)) (of_right a) h)
      → Detached (true ∷ bs) (node a l r) pp q h (leaf_loop (suc fuel) mask k a pp h)
  unfolding leaf_loop last cut
  right_step turn done =
      let (g, run, below, within, prevs) = done in
      (
        g,
        rw (ne→==false mask 0 nz, turn, ne→==false a null linked.1) run,
        above-Linked true a l r pp h g distinct within q (cut bs r) own top linked.1 linked.2
            linked.3 below,
        above-Within true a l r pp h g distinct within,
        prevs,
      )

  left_step :
      turns_right mask k ≡ false
      → Detached bs l (of_left a) a h (leaf_loop fuel (mask / 2) k (h.at (of_left a)) (of_left a) h)
      → Detached (false ∷ bs) (node a l r) pp q h (leaf_loop (suc fuel) mask k a pp h)
  unfolding leaf_loop last cut
  left_step turn done =
      let (g, run, below, within, prevs) = done in
      (
        g,
        rw (ne→==false mask 0 nz, turn, ne→==false a null linked.1) run,
        above-Linked false a r l pp h g (λ b. omega (arith, distinct b)) within q (cut bs l) own top
            linked.1 linked.2 linked.4 below,
        above-Within false a r l pp h g (λ b. omega (arith, distinct b)) within,
        prevs,
      )

-- The loop takes the node at the last position off.
pub leaf_loop-Detached :
    (fuel mask k v n : ℕ) (bs : List Bool) (t : Tree) (pp : Slot) (q p : Ptr) (h : Heap)
    → Turns mask k bs
    → length bs < fuel
    → 0 < v
    → goes_to v bs ≡ suc n
    → Shape v (suc n) t
    → Distinct t
    → usable pp ≡ true
    → owned pp t ≡ 0
    → h.at pp ≡ p
    → Linked h q p t
    → Detached bs t pp q h (leaf_loop fuel mask k p pp h)
leaf_loop-Detached zero mask k v n bs t pp q p h turns enough pos g s d u own top linked =
    absurd (omega (arith, enough))
leaf_loop-Detached (suc fuel) mask k v n bs leaf pp q p h turns enough pos g s d u own top linked =
    absurd (omega (arith, goes_to-ge v bs, g))
leaf_loop-Detached (suc fuel) mask k v n [] (node a l r) pp q p h turns enough pos g s d u own top
      linked =
    subst (λ c. Detached [] (node a l r) pp q h (leaf_loop (suc fuel) mask k c pp h)) (sym linked.0)
      (here_step fuel mask k a q l r pp h turns u)
leaf_loop-Detached (suc fuel) mask k v n (true ∷ bs) (node a l r) pp q p h turns enough pos g s d u
      own top linked =
    let whole : Linked h q a (node a l r) = (refl, linked.1, linked.2, linked.3, linked.4) in
    subst (λ c. Detached (true ∷ bs) (node a l r) pp q h (leaf_loop (suc fuel) mask k c pp h))
      (sym linked.0)
      (right_step fuel mask k bs a q l r pp h turns.0 d own (top ∙ linked.0) whole turns.1 (
        leaf_loop-Detached fuel (mask / 2) k (2 * v + 1) n bs r (of_right a) a (h.at (of_right a)) h
          turns.2 (omega (arith, enough)) (omega arith) g s.2 (Distinct-right a l r d)
          (rw (ne→==false a null linked.1)) (root-right a l r d) refl linked.4))
leaf_loop-Detached (suc fuel) mask k v n (false ∷ bs) (node a l r) pp q p h turns enough pos g s d u
      own top linked =
    let whole : Linked h q a (node a l r) = (refl, linked.1, linked.2, linked.3, linked.4) in
    subst (λ c. Detached (false ∷ bs) (node a l r) pp q h (leaf_loop (suc fuel) mask k c pp h))
      (sym linked.0)
      (left_step fuel mask k bs a q l r pp h turns.0 d own (top ∙ linked.0) whole turns.1 (
        leaf_loop-Detached fuel (mask / 2) k (2 * v + 0) n bs l (of_left a) a (h.at (of_left a)) h
          turns.2 (omega (arith, enough)) (omega arith) g s.1 (Distinct-left a l r d)
          (rw (ne→==false a null linked.1)) (root-left a l r d) refl linked.3))

-- `__remove_least_leaf` on the root and the number of nodes takes the last leaf off the heap.
pub remove_least_leaf-Detached :
    (h : Heap) (n : ℕ) (t : Tree)
    → n + 2 < 2 ^ 64
    → Shape 1 (suc n) t
    → Distinct t
    → Linked h null (h.at of_root) t
    → Detached (way (suc n)) t of_root null h (remove_least_leaf of_root (suc n) h)
unfolding remove_least_leaf
remove_least_leaf-Detached h n t room s d linked =
    leaf_loop-Detached 65 (path_bit_mask (suc n)) (suc n) 1 n (way (suc n)) t of_root null
      (h.at of_root) h (way-Turns (suc n) (omega arith) (omega arith))
      (omega (arith, length-way (suc n) (omega arith) (omega arith))) (omega arith)
      (goes_to-way (suc n) (omega arith) (omega arith)) s d refl refl refl linked
