-- ===== src/Heap/Within.antt =====
-- include/__ngr/__core/__intrusive_heap.hpp: changes below one child of a node.
use mathlib.Core.Path.{subst}
use model_lib.Base.{◌≤◌, ◌≡◌, ◌≢◌, refl, sym, ◌∙◌, Bool, true, false, not, arith}
use model_lib.Store.{Ptr, null}
use model_lib.Heap.{Heap, Slot, of_root, of_left, of_right, same_slot, child_slot}
use model_lib.Heap.Trees.{Tree, node, count}
use model_lib.Heap.Linked.{
  Linked, Distinct, count_self, ne_of_count, Linked-frame, root-left, root-right, left-right,
}
use model_lib.Heap.Slots.{owned, other_left, other_right, child_apart}

-- a node with `d` on one side and `e` on the other
abbrev pub plant : Bool → Ptr → (e d : Tree) → Tree
plant true a e d = node a e d
plant false a e d = node a d e

-- Only the slot and the links of the tree's nodes have changed.
pub record Within (pp : Slot) (t : Tree) (h g : Heap) : Type 0 where
  pub size : g.size ≡ h.size
  pub at : (s : Slot) → same_slot s pp ≡ false → owned s t ≡ 0 → g.at s ≡ h.at s
  pub prev : (y : Ptr) → count y t ≡ 0 → g.prev y ≡ h.prev y

pub other_child :
    (b : Bool) (s : Slot) (a : Ptr) (t : Tree)
    → owned s t ≡ 0
    → 1 ≤ count a t
    → same_slot s (child_slot b a) ≡ false
other_child true s a t o i = other_right s a t o i
other_child false s a t o i = other_left s a t o i

owned_below :
    (b : Bool) (s : Slot) (a : Ptr) (e d : Tree) → owned s (plant b a e d) ≡ 0 → owned s d ≡ 0
owned_below true of_root a e d o = refl
owned_below true (of_left y) a e d o = omega (arith, o)
owned_below true (of_right y) a e d o = omega (arith, o)
owned_below false of_root a e d o = refl
owned_below false (of_left y) a e d o = omega (arith, o)
owned_below false (of_right y) a e d o = omega (arith, o)

pub count-plant :
    (b : Bool) (y a : Ptr) (e d : Tree) → count y (plant b a e d) ≡ count y (node a e d)
count-plant true y a e d = refl
count-plant false y a e d = omega arith

beside_self : (b : Bool) (a : Ptr) → same_slot (child_slot (not b) a) (child_slot b a) ≡ false
beside_self true a = refl
beside_self false a = refl

pub owned_child : (b : Bool) (a : Ptr) (t : Tree) → owned (child_slot b a) t ≡ count a t
owned_child true a t = refl
owned_child false a t = refl

-- A tree that shares no node with the changed one keeps its links.
pub within-Linked :
    (b : Bool) (a q p : Ptr) (d e : Tree) (h g : Heap)
    → Within (child_slot b a) d h g
    → count a e ≡ 0
    → ((y : Ptr) → 1 ≤ count y e → count y d ≡ 0)
    → Linked h q p e
    → Linked g q p e
within-Linked b a q p d e h g within na disjoint k =
    Linked-frame h g q p e
      (λ y i.
        let (lo, ro) = child_apart b y a (λ z. ne_of_count a y e na i (sym z)) in
        record {
          left = within.at (of_left y) lo (disjoint y i);
          right = within.at (of_right y) ro (disjoint y i);
        })
      (λ y i. within.prev y (disjoint y i)) k

-- the links of a node above the change
module _ (b : Bool) (a : Ptr) (e d : Tree) (pp : Slot) (h g : Heap)
    (distinct : Distinct (node a e d)) (within : Within (child_slot b a) d h g) where
  pub above-Within : Within pp (plant b a e d) h g
  above-Within = record {
    size = within.size;
    at = λ s ne o.
        within.at s
          (other_child b s a (plant b a e d) o
            (omega (arith, count-plant b a a e d, count_self a e d)))
          (owned_below b s a e d o);
    prev = λ y o. within.prev y (omega (arith, count-plant b y a e d, o));
  }

  pub above-Linked :
      (q : Ptr) (d' : Tree)
      → owned pp (plant b a e d) ≡ 0
      → h.at pp ≡ a
      → a ≢ null
      → h.prev a ≡ q
      → Linked h a (h.at (child_slot (not b) a)) e
      → Linked g a (g.at (child_slot b a)) d'
      → Linked g q (g.at pp) (plant b a e d')
  above-Linked q d' own top nn back beside below =
      assemble b
        (within.at pp
            (other_child b pp a (plant b a e d) own
              (omega (arith, count-plant b a a e d, count_self a e d)))
            (owned_below b pp a e d own)
          ∙ top)
        (within.prev a (root-right a e d distinct) ∙ back)
        (subst (λ c. Linked g a c e)
          (sym (
            within.at (child_slot (not b) a) (beside_self b a)
              (owned_child (not b) a d ∙ root-right a e d distinct)))
          (within-Linked b a a (h.at (child_slot (not b) a)) d e h g within
            (root-left a e d distinct) (left-right a e d distinct) beside))
        below
    where
      assemble :
          (b : Bool)
          → g.at pp ≡ a
          → g.prev a ≡ q
          → Linked g a (g.at (child_slot (not b) a)) e
          → Linked g a (g.at (child_slot b a)) d'
          → Linked g q (g.at pp) (plant b a e d')
      assemble true at back beside below = (at, nn, back, beside, below)
      assemble false at back beside below = (at, nn, back, below, beside)
