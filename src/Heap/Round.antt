-- ===== src/Heap/Round.antt =====
-- include/__ngr/__core/__intrusive_heap.hpp: the links after a round of `__heap_down_sink` and the rest.
use mathlib.Core.Path.{subst}
use model_lib.Base.{◌+◌, ◌≤◌, ◌≡◌, ◌≢◌, refl, ap, sym, ◌∙◌, Bool, true, false, not, arith}
use model_lib.Store.{Ptr, null}
use model_lib.Heap.{Heap, Slot, of_root, of_left, of_right, same_slot, usable, child_slot}
use model_lib.Heap.Trees.{Tree, leaf, node, count}
use model_lib.Heap.Linked.{
  one_self, Linked, Distinct, Agrees, Linked-frame, Linked-rebase, outside-root,
}
use model_lib.Heap.Slots.{owned, other_way, other_left, other_right}
use model_lib.Heap.Within.{other_child, Within, plant, above-Within, above-Linked, count-plant}
use model_lib.Heap.Raise.{Raised}

pub owned_mono :
    (s : Slot) (t u : Tree)
    → ((y : Ptr) → count y t ≡ 0 → count y u ≡ 0)
    → owned s t ≡ 0
    → owned s u ≡ 0
owned_mono of_root t u mono o = refl
owned_mono (of_left y) t u mono o = mono y o
owned_mono (of_right y) t u mono o = mono y o

-- `x` stands at `pp`, above `e` and, on the side `b`, the tree of `c`; both know `s` as their parent.
pub record Poised (b : Bool) (x c : Ptr) (e cl cr : Tree) (pp : Slot) (s : Ptr) (h : Heap)
    : Type 0 where
  pub distinct : Distinct (node x e (node c cl cr))
  pub there : x ≢ null
  pub writable : usable pp ≡ true
  pub outside : owned pp (node x e (node c cl cr)) ≡ 0
  pub on_path : Linked h s (h.at (child_slot b x)) (node c cl cr)
  pub beside : Linked h s (h.at (child_slot (not b) x)) e

module _ (b : Bool) (x c : Ptr) (e cl cr : Tree) (pp : Slot) (s : Ptr) (h g : Heap)
    (poised : Poised b x c e cl cr pp s h)
    (raised : Raised b x c (h.at (child_slot (not b) x)) pp h g) where
  abbrev other : Ptr
  other = h.at (child_slot (not b) x)

  pub c_new : count c (node x e (node x cl cr)) ≡ 0
  c_new = omega (arith, poised.distinct c, one_self c)

  pub sub-Distinct : Distinct (node x cl cr)
  sub-Distinct y = omega (arith, poised.distinct y)

  after-Distinct : Distinct (node c e (node x cl cr))
  after-Distinct y = omega (arith, poised.distinct y)

  e_apart : (y : Ptr) → 1 ≤ count y e → count y (node x leaf (node c cl cr)) ≡ 0
  e_apart y i = omega (arith, poised.distinct y)

  beside-Distinct : Distinct e
  beside-Distinct y = omega (arith, poised.distinct y)

  pp_off :
      (y : Ptr)
      → 1 ≤ count y (node x e (node c cl cr))
      → (same_slot (of_left y) pp ≡ false) × (same_slot (of_right y) pp ≡ false)
  pp_off y i = (
    other_way pp (of_left y) (other_left pp y (node x e (node c cl cr)) poised.outside i),
    other_way pp (of_right y) (other_right pp y (node x e (node c cl cr)) poised.outside i),
  )

  -- A node below keeps its links in the round.
  links_kept :
      (y : Ptr)
      → 1 ≤ count y (node x e (node c cl cr))
      → count y (node x (node c leaf leaf) leaf) ≡ 0
      → Agrees h g y
  links_kept y i o = record {
    left = raised.at (of_left y) (pp_off y i).0 o;
    right = raised.at (of_right y) (pp_off y i).1 o;
  }

  other_out : (y : Ptr) → count y e ≡ 0 → y ≡ other → other ≡ null
  other_out y o q = outside-root h s other y e poised.beside o q

  -- The trees of `c`, below `x` now.
  pub below-Linked :
      (q p : Ptr) (t : Tree)
      → ((y : Ptr) → 1 ≤ count y t → 1 ≤ count y cl + count y cr)
      → Linked h q p t
      → Linked g q p t
  below-Linked q p t inside k =
      Linked-frame h g q p t
        (λ y i.
          links_kept y (omega (arith, inside y i)) (omega (arith, poised.distinct y, inside y i)))
        (λ y i. raised.others y (other_out y (omega (arith, poised.distinct y, inside y i)))) k

  -- The other tree, below `c` now.
  pub e-Linked : Linked g c (g.at (child_slot (not b) c)) e
  e-Linked =
      subst (λ p. Linked g c p e) (sym raised.beside)
        (Linked-rebase h g s c other e beside-Distinct
          (λ y i. links_kept y (omega (arith, i)) (omega (arith, e_apart y i))) raised.back
          (λ y i ne. raised.others y (λ q. absurd (ne q))) poised.beside)

  after_outside : owned pp (plant b c e (node x cl cr)) ≡ 0
  after_outside =
      owned_mono pp (node x e (node c cl cr)) (plant b c e (node x cl cr))
        (λ y o. count-plant b y c e (node x cl cr) ∙ omega (arith, o)) poised.outside

  -- The round and what the rest makes of the tree below.
  module _ (f : Heap) (t : Tree) (below : Linked f c (f.at (child_slot b c)) t)
      (within : Within (child_slot b c) (node x cl cr) g f) where
    whole-Linked : Linked f (g.prev c) (f.at pp) (plant b c e t)
    whole-Linked =
        above-Linked b c e (node x cl cr) pp g f after-Distinct within (g.prev c) t after_outside
          raised.top poised.on_path.1 refl e-Linked below

    top_after : f.at pp ≡ c
    top_after =
        within.at pp
          (other_child b pp c (plant b c e (node x cl cr)) after_outside
            (omega (arith, count-plant b c c e (node x cl cr), one_self c)))
          (owned_mono pp (node x e (node c cl cr)) (node x cl cr) (λ y o. omega (arith, o))
            poised.outside)
        ∙ raised.top

    prev_after : f.prev (f.at pp) ≡ g.prev c
    prev_after = ap f.prev top_after ∙ within.prev c (omega (arith, c_new))

    pub round-Linked : Linked f (f.prev (f.at pp)) (f.at pp) (plant b c e t)
    round-Linked = subst (λ q. Linked f q (f.at pp) (plant b c e t)) (sym prev_after) whole-Linked

    pub round-prev : f.prev (f.at pp) ≡ s
    round-prev =
        prev_after ∙ raised.others c (other_out c (omega (arith, c_new))) ∙ poised.on_path.2

    pub round-Within : Within pp (plant b x e (node c cl cr)) h f
    round-Within =
        let above = above-Within b c e (node x cl cr) pp g f after-Distinct within in
        record {
          size = above.size ∙ raised.size;
          at = λ t ne o.
              above.at t ne (
                owned_mono t (plant b x e (node c cl cr)) (plant b c e (node x cl cr))
                  (λ y z.
                    count-plant b y c e (node x cl cr)
                    ∙ omega (arith, z, count-plant b y x e (node c cl cr)))
                  o)
              ∙ raised.at t ne (
                  owned_mono t (plant b x e (node c cl cr)) (node x (node c leaf leaf) leaf)
                    (λ y z. omega (arith, z, count-plant b y x e (node c cl cr))) o);
          prev = λ y z.
              let z' : count y (node x e (node c cl cr)) ≡ 0 =
                omega (arith, z, count-plant b y x e (node c cl cr)) in
              above.prev y (count-plant b y c e (node x cl cr) ∙ omega (arith, z'))
              ∙ raised.others y (other_out y (omega (arith, z')));
        }
