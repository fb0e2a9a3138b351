-- ===== src/Heap/Descend.antt =====
-- include/__ngr/__core/__intrusive_heap.hpp: the inner loop of `_M_push` ends, with the nodes shifted.
use mathlib.Core.Path.{subst}
use model_lib.Base.{
  ==-self, ℕ, zero, suc, ◌+◌, ◌*◌, ◌/◌, ◌≤◌, ◌<◌, ◌≡◌, ◌≢◌, refl, sym, ◌∙◌, Bool, true, false, some,
  List, [], ◌∷◌, ◌==◌, arith, ne→==false, length,
}
use model_lib.Store.{Ptr, null}
use model_lib.Heap.{settle, Heap, of_left, of_right, displace_loop, turns_right}
use model_lib.Heap.Trees.{
  Tree, leaf, node, count, one_if, Shape, goes_to, goes_to-ge, too_far, no_turns,
}
use model_lib.Heap.Linked.{
  right-left, root-left, Distinct-left, left-right, root_outside, root-right, Distinct-right,
  Linked, Distinct, count_self, ne_of_count,
}
use model_lib.Heap.Displace.{lifted-Linked, Turns, Lifted, displace-right, displace-left}
use model_lib.Heap.Shift.{Shifted, settle-Shifted, right_round, left_round}

-- A tree that starts behind the last position is empty, and one that starts before it is not.
pub beyond-null :
    (h : Heap) (q p : Ptr) (w n : ℕ) (t : Tree) → n < w → Shape w n t → Linked h q p t → p ≡ null
beyond-null h q p w n leaf lt s k = k
beyond-null h q p w n (node a l r) lt s k = absurd (omega (arith, s.0))

pub within-ne :
    (h : Heap) (q p : Ptr) (w n : ℕ) (t : Tree) → w ≤ n → Shape w n t → Linked h q p t → p ≢ null
within-ne h q p w n leaf le s k e = absurd (omega arith)
within-ne h q p w n (node a l r) le s k e = k.1 (sym k.0 ∙ e)

module _ (x a : Ptr) (l r : Tree) (h : Heap) (nx : x ≢ null) (distinct : Distinct (node a l r))
    (out : count x (node a l r) ≡ 0) (mask k fuel : ℕ) (bs : List Bool) (nz : mask ≢ 0)
    (linked : Linked h x a (node a l r)) where
  -- A turn to the right, and the rest of the loop.
  step-right :
      turns_right mask k ≡ true
      → h.at (of_left a) ≢ null
      → ((g : Heap)
          → Lifted true x a (h.at (of_left a)) h g
          → Shifted bs a r g (displace_loop fuel (mask / 2) k a (g.at (of_right a)) g))
      → Shifted (true ∷ bs) x (node a l r) h (displace_loop (suc fuel) mask k x a h)
  unfolding displace_loop
  step-right turn ns rest =
      let (g, run, lift) = displace-right x a h nx linked.1 ns in
      let (f, done, below, spares) = rest g lift in
      let done' : displace_loop (suc fuel) mask k x a h ≡ some (tt, f) =
        rw (ne→==false mask 0 nz, turn, run, ne→==false a null linked.1) done in
      let (whole, spared) = right_round x a l r h g f nx distinct out bs linked lift below spares in
      (f, done', whole, spared)

  step-left :
      turns_right mask k ≡ false
      → ((g : Heap)
          → Lifted false x a (h.at (of_right a)) h g
          → Shifted bs a l g (displace_loop fuel (mask / 2) k a (g.at (of_left a)) g))
      → Shifted (false ∷ bs) x (node a l r) h (displace_loop (suc fuel) mask k x a h)
  unfolding displace_loop
  step-left turn rest =
      let (g, run, lift) = displace-left x a h nx linked.1 in
      let (f, done, below, spares) = rest g lift in
      let done' : displace_loop (suc fuel) mask k x a h ≡ some (tt, f) =
        rw (ne→==false mask 0 nz, turn, run, ne→==false a null linked.1) done in
      let (whole, spared) = left_round x a l r h g f nx distinct out bs linked lift below spares in
      (f, done', whole, spared)

-- The end of the loop.
step-settle :
    (fuel mask k : ℕ) (x p : Ptr) (h : Heap)
    → mask ≡ 0
    → Shifted [] x leaf h (settle x h)
    → Shifted [] x leaf h (displace_loop (suc fuel) mask k x p h)
unfolding displace_loop
step-settle fuel mask k x p h z done = rw (subst (λ m. (m == 0) ≡ true) (sym z) (==-self 0)) done

-- Where the turns have ended, the right child of the last node is missing.
last_right :
    (b : Bool) (h : Heap) (a : Ptr) (v n : ℕ) (bs : List Bool) (r : Tree)
    → goes_to (2 * v + one_if b) bs ≡ suc n
    → Shape (2 * v + 1) n r
    → Linked h a (h.at (of_right a)) r
    → bs ≡ []
    → h.at (of_right a) ≡ null
last_right true h a v n bs r g s k e =
    let here = subst (λ c. goes_to (2 * v + 1) c ≡ suc n) e g in
    beyond-null h a (h.at (of_right a)) (2 * v + 1) n r (omega arith) s k
last_right false h a v n bs r g s k e =
    let here = subst (λ c. goes_to (2 * v + 0) c ≡ suc n) e g in
    beyond-null h a (h.at (of_right a)) (2 * v + 1) n r (omega arith) s k

-- The loop shifts the nodes of the tree along the turns to the first free position.
pub displace_loop-Shifted :
    (fuel mask k v n : ℕ) (bs : List Bool) (x p : Ptr) (t : Tree) (h : Heap)
    → Turns mask k bs
    → length bs < fuel
    → 0 < v
    → goes_to v bs ≡ suc n
    → Shape v n t
    → Distinct t
    → count x t ≡ 0
    → x ≢ null
    → Linked h x p t
    → (bs ≡ [] → h.at (of_right x) ≡ null)
    → Shifted bs x t h (displace_loop fuel mask k x p h)
displace_loop-Shifted zero mask k v n bs x p t h turns enough pos g s d out nx linked edge =
    absurd (omega arith)
displace_loop-Shifted (suc fuel) mask k v n [] x p leaf h turns enough pos g s d out nx linked
      edge =
    step-settle fuel mask k x p h turns (settle-Shifted x h nx (edge refl))
displace_loop-Shifted (suc fuel) mask k v n [] x p (node a l r) h turns enough pos g s d out nx
      linked edge =
    absurd (no_turns v n s.0 g)
displace_loop-Shifted (suc fuel) mask k v n (b ∷ bs) x p leaf h turns enough pos g s d out nx linked
      edge =
    absurd (too_far v n b bs s g)
displace_loop-Shifted (suc fuel) mask k v n (true ∷ bs) x p (node a l r) h turns enough pos g s d
      out nx linked edge =
    let whole : Linked h x a (node a l r) = (refl, linked.1, linked.2, linked.3, linked.4) in
    let ne = ne_of_count x a (node a l r) out (count_self a l r) in
    subst (λ c. Shifted (true ∷ bs) x (node a l r) h (displace_loop (suc fuel) mask k x c h))
      (sym linked.0)
      (step-right x a l r h nx d out mask k fuel bs turns.0 whole turns.1
        (within-ne h a (h.at (of_left a)) (2 * v + 0) n l (omega (arith, goes_to-ge (2 * v + 1) bs))
          s.1 linked.3)
        (λ i lift.
          let here = lift.links a (λ e. ne (sym e)) in
          displace_loop-Shifted fuel (mask / 2) k (2 * v + 1) n bs a (i.at (of_right a)) r i turns.2
            (omega arith) (omega arith) g s.2 (Distinct-right a l r d) (root-right a l r d) linked.1
            (subst (λ c. Linked i a c r) (sym here.right)
              (lifted-Linked true x a (h.at (of_left a)) (h.at (of_right a)) a h i r lift
                (omega (arith, out))
                (root_outside h a a (h.at (of_left a)) (h.at (of_right a)) l r linked.3 linked.4
                  (left-right a l r d))
                linked.4))
            (λ e. here.right ∙ last_right true h a v n bs r g s.2 linked.4 e)))
displace_loop-Shifted (suc fuel) mask k v n (false ∷ bs) x p (node a l r) h turns enough pos g s d
      out nx linked edge =
    let whole : Linked h x a (node a l r) = (refl, linked.1, linked.2, linked.3, linked.4) in
    let ne = ne_of_count x a (node a l r) out (count_self a l r) in
    subst (λ c. Shifted (false ∷ bs) x (node a l r) h (displace_loop (suc fuel) mask k x c h))
      (sym linked.0)
      (step-left x a l r h nx d out mask k fuel bs turns.0 whole turns.1 (λ i lift.
        let here = lift.links a (λ e. ne (sym e)) in
        displace_loop-Shifted fuel (mask / 2) k (2 * v + 0) n bs a (i.at (of_left a)) l i turns.2
          (omega arith) (omega arith) g s.1 (Distinct-left a l r d) (root-left a l r d) linked.1
          (subst (λ c. Linked i a c l) (sym here.left)
            (lifted-Linked false x a (h.at (of_right a)) (h.at (of_left a)) a h i l lift
              (omega (arith, out))
              (root_outside h a a (h.at (of_right a)) (h.at (of_left a)) r l linked.4 linked.3
                (right-left a l r d))
              linked.3))
          (λ e. here.right ∙ last_right false h a v n bs r g s.2 linked.4 e)))
