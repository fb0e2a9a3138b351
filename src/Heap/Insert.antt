-- ===== src/Heap/Insert.antt =====
-- include/__ngr/__core/__intrusive_heap.hpp: the outer loop of `_M_push` ends, with the node inserted.
use mathlib.Core.Path.{subst}
use model_lib.Base.{
  ℕ, suc, ◌/◌, ◌≡◌, ◌≢◌, refl, ap, sym, ◌∙◌, Bool, true, false, some, List, ◌∷◌, ◌==◌, ltb, arith,
  ne→==false, ==-self,
}
use model_lib.Store.{Ptr, null}
use model_lib.Heap.{
  Heap, Slot, of_left, of_right, usable, displace_loop, push_loop, turns_right, write_at,
  write_prev,
}
use model_lib.Heap.Trees.{Tree, leaf, node, count, one_if, shift, insert}
use model_lib.Heap.Linked.{
  left-right, right-left, root-left, root-right, Linked, Distinct, count_self, ne_of_count,
  Linked-rebase,
}
use model_lib.Heap.Shift.{Shifted}
use model_lib.Heap.Slots.{
  owned, other_left, other_right, other_way, same_slot_self, Inserted, spared_slot, slot_outside,
  sub_owned, outside_tree, kept-Linked,
}

-- The nodes from `p` on make way for `x`.
module _ (key : Ptr → ℕ) (x a : Ptr) (l r : Tree) (h : Heap) (pp : Slot) (q : Ptr) (nx : x ≢ null)
    (u : usable pp ≡ true) (distinct : Distinct (node a l r)) (out : count x (node a l r) ≡ 0)
    (own : owned pp (node x (node a l r) leaf) ≡ 0) (linked : Linked h q a (node a l r)) where
  abbrev pub entered : Heap
  entered = write_at pp x (write_prev a x (write_prev x q h))

  pub entered-Linked : Linked entered x a (node a l r)
  entered-Linked =
      Linked-rebase h entered q x a (node a l r) distinct
        (λ y i.
          let o = slot_outside pp x y (node a l r) own i in
          record {
            left = rw (
                other_way pp (of_left y)
                  (other_left pp y (node y leaf leaf) o (count_self y leaf leaf)));
            right = rw (
                other_way pp (of_right y)
                  (other_right pp y (node y leaf leaf) o (count_self y leaf leaf)));
          })
        (λ nn. rw (==-self a))
        (λ y i ne.
          rw (ne→==false y a ne, ne→==false y x (λ e. ne_of_count x y (node a l r) out i (sym e))))
        linked

  pub make_way :
      (bs : List Bool) (mask k fuel : ℕ)
      → (mask == 0) ≡ false
      → ltb (key x) (key a) ≡ true
      → insert key bs x (node a l r) ≡ shift bs x (node a l r)
      → Shifted bs x (node a l r) entered (displace_loop fuel mask k x a entered)
      → Inserted key bs x (node a l r) pp q h (push_loop key (suc fuel) mask k x pp a q h)
  unfolding push_loop
  make_way bs mask k fuel nz lt same done =
      let (f, run, whole, spares) = done in
      let xa = ne→==false x a (ne_of_count x a (node a l r) out (count_self a l r)) in
      let slot : f.at pp ≡ x =
        spared_slot pp x (node a l r) entered f own spares ∙ rw (same_slot_self pp) in
      let whole' : Linked f q x (shift bs x (node a l r)) =
        subst (λ c. Linked f c x (shift bs x (node a l r))) (rw (xa, ==-self x)) whole in
      let done' : push_loop key (suc fuel) mask k x pp a q h ≡ some (tt, f) =
        rw (nz, lt, ne→==false x null nx, ne→==false a null linked.1, u) run in
      (
        f,
        done',
        rw (slot, same) whole',
        record {
          size = spares.size;
          at = λ s ne o. spared_slot s x (node a l r) entered f o spares ∙ rw ne;
          prev = λ y ne o.
              spares.prev y o
              ∙ rw (
                ne→==false y x ne,
                ne→==false y a (ne_of_count y a (node a l r) o (count_self a l r)),
              );
        },
      )

  -- A turn below a node whose key is not greater.
  pub down_right :
      (bs : List Bool) (mask k fuel : ℕ)
      → h.at pp ≡ a
      → (mask == 0) ≡ false
      → turns_right mask k ≡ true
      → ltb (key x) (key a) ≡ false
      → Inserted key bs x r
          (of_right a)
          a
          h
          (push_loop key fuel (mask / 2) k x (of_right a) (h.at (of_right a)) a h)
      → Inserted key (true ∷ bs) x (node a l r) pp q h (push_loop key (suc fuel) mask k x pp a q h)
  unfolding push_loop insert
  down_right bs mask k fuel top nz turn ge done =
      let (f, run, below, keeps) = done in
      let ax : a ≢ x = λ e. ne_of_count x a (node a l r) out (count_self a l r) (sym e) in
      let done' : push_loop key (suc fuel) mask k x pp a q h ≡ some (tt, f) =
        rw (nz, ge, turn, ne→==false a null linked.1) run in
      let slot =
        keeps.at pp
          (other_right pp a (node a l r) (outside_tree pp x (node a l r) own) (count_self a l r))
          (sub_owned pp x a l r own).1 in
      (
        f,
        done',
        rw ge (
          slot ∙ top,
          linked.1,
          keeps.prev a ax (root-right a l r distinct) ∙ linked.2,
          subst (λ c. Linked f a c l)
              (sym (
                keeps.at (of_left a) refl
                  (omega (arith, ap one_if (ne→==false a x ax), root-right a l r distinct))))
              (kept-Linked true x a a (h.at (of_left a)) r l h f keeps (omega (arith, out))
                (root-left a l r distinct) (left-right a l r distinct) linked.3),
          below,
        ),
        record {
          size = keeps.size;
          at = λ s ne o.
              keeps.at s
                (other_right s a (node a l r) (outside_tree s x (node a l r) o) (count_self a l r))
                (sub_owned s x a l r o).1;
          prev = λ y ne o. keeps.prev y ne (omega (arith, o));
        },
      )

  pub down_left :
      (bs : List Bool) (mask k fuel : ℕ)
      → h.at pp ≡ a
      → (mask == 0) ≡ false
      → turns_right mask k ≡ false
      → ltb (key x) (key a) ≡ false
      → Inserted key bs x l
          (of_left a)
          a
          h
          (push_loop key fuel (mask / 2) k x (of_left a) (h.at (of_left a)) a h)
      → Inserted key (false ∷ bs) x (node a l r) pp q h (push_loop key (suc fuel) mask k x pp a q h)
  unfolding push_loop insert
  down_left bs mask k fuel top nz turn ge done =
      let (f, run, below, keeps) = done in
      let ax : a ≢ x = λ e. ne_of_count x a (node a l r) out (count_self a l r) (sym e) in
      let done' : push_loop key (suc fuel) mask k x pp a q h ≡ some (tt, f) =
        rw (nz, ge, turn, ne→==false a null linked.1) run in
      let slot =
        keeps.at pp
          (other_left pp a (node a l r) (outside_tree pp x (node a l r) own) (count_self a l r))
          (sub_owned pp x a l r own).0 in
      (
        f,
        done',
        rw ge (
          slot ∙ top,
          linked.1,
          keeps.prev a ax (root-left a l r distinct) ∙ linked.2,
          below,
          subst (λ c. Linked f a c r)
              (sym (
                keeps.at (of_right a) refl
                  (omega (arith, ap one_if (ne→==false a x ax), root-left a l r distinct))))
              (kept-Linked false x a a (h.at (of_right a)) l r h f keeps (omega (arith, out))
                (root-right a l r distinct) (right-left a l r distinct) linked.4),
        ),
        record {
          size = keeps.size;
          at = λ s ne o.
              keeps.at s
                (other_left s a (node a l r) (outside_tree s x (node a l r) o) (count_self a l r))
                (sub_owned s x a l r o).0;
          prev = λ y ne o. keeps.prev y ne (omega (arith, o));
        },
      )
