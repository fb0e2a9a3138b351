-- ===== src/Heap/Sinking.antt =====
-- include/__ngr/__core/__intrusive_heap.hpp: the rounds of `__heap_down_sink` together.
use mathlib.Core.Path.{subst}
use native.Mathlib.Nat.{pow-suc}
use model_lib.Base.{
  ℕ, zero, suc, ◌+◌, ◌*◌, ◌^◌, ◌<◌, ◌≡◌, ◌≢◌, refl, sym, ◌∙◌, true, false, ltb, arith, ne→==false,
  Bool-cases, inl, inr,
}
use model_lib.Store.{Ptr, null}
use model_lib.Heap.{Heap, Slot, of_left, of_right, put_prev, ◌>>◌}
use model_lib.Heap.Removal.{sink_loop, put_back}
use model_lib.Heap.Trees.{Tree, leaf, node, Shape}
use model_lib.Heap.Sink.{sink}
use model_lib.Heap.Settled.{right_first, loop_left, loop_keep}
use model_lib.Heap.Seat.{Sunk, Above, run_loop, loop_empty, loop_right}

module _ (key : Ptr → ℕ) where
  -- The test of the code, by the trees.
  first_none : (x : Ptr) (h : Heap) → h.at (of_right x) ≡ null → right_first key x h ≡ false
  first_none x h e = rw e refl

  first_some :
      (x b c : Ptr) (h : Heap)
      → h.at (of_left x) ≡ b
      → h.at (of_right x) ≡ c
      → c ≢ null
      → right_first key x h ≡ ltb (key c) (key b)
  first_some x b c h e k nc = rw (e, k, ne→==false c null nc) refl

  -- The node stays: beside a lesser left child, or above the right one.
  left_keeps :
      (fuel : ℕ) (x parent : Ptr) (pp : Slot) (h : Heap)
      → h.at (of_left x) ≢ null
      → right_first key x h ≡ false
      → ltb (key (h.at (of_left x))) (key x) ≡ false
      → run_loop key (suc fuel) x pp parent h
        ≡ (put_back (h.at (of_right x)) x >> put_prev (h.at (of_left x)) x >> put_prev x parent) h
  unfolding sink_loop
  left_keeps fuel x parent pp h nl test ge =
      rw (ne→==false (h.at (of_left x)) null nl, test, ge) refl

  right_keeps :
      (fuel : ℕ) (x parent : Ptr) (pp : Slot) (h : Heap)
      → h.at (of_left x) ≢ null
      → h.at (of_right x) ≢ null
      → right_first key x h ≡ true
      → ltb (key (h.at (of_right x))) (key x) ≡ false
      → run_loop key (suc fuel) x pp parent h
        ≡ (put_back (h.at (of_right x)) x >> put_prev (h.at (of_left x)) x >> put_prev x parent) h
  unfolding sink_loop
  right_keeps fuel x parent pp h nl nr test ge =
      rw
        (
          ne→==false (h.at (of_left x)) null nl,
          test,
          ge,
          ne→==false (h.at (of_right x)) null nr,
          ne→==false (h.at (of_right x)) null nr,
        )
        refl

  deeper : (v p n c : ℕ) → n < v * (p * 2) → n < (2 * v + c) * p
  deeper v p n c h = grind arith

  -- What `sink` computes, by the tests.
  sink_left :
      (x b : Ptr) (bl br : Tree)
      → ltb (key b) (key x) ≡ true
      → sink key x (node x (node b bl br) leaf) ≡ node b (sink key x (node b bl br)) leaf
  unfolding sink
  sink_left x b bl br lt = rw lt refl

  sink_keep :
      (x b : Ptr) (bl br : Tree)
      → ltb (key b) (key x) ≡ false
      → sink key x (node x (node b bl br) leaf) ≡ node x (node b bl br) leaf
  unfolding sink
  sink_keep x b bl br ge = rw ge refl

  sink_both_left :
      (x b c : Ptr) (bl br cl cr : Tree)
      → ltb (key c) (key b) ≡ false
      → ltb (key b) (key x) ≡ true
      → sink key x (node x (node b bl br) (node c cl cr))
        ≡ node b (sink key x (node b bl br)) (node c cl cr)
  unfolding sink
  sink_both_left x b c bl br cl cr greater lt = rw (greater, lt) refl

  sink_both_keep :
      (x b c : Ptr) (bl br cl cr : Tree)
      → ltb (key c) (key b) ≡ false
      → ltb (key b) (key x) ≡ false
      → sink key x (node x (node b bl br) (node c cl cr)) ≡ node x (node b bl br) (node c cl cr)
  unfolding sink
  sink_both_keep x b c bl br cl cr greater ge = rw (greater, ge) refl

  sink_right_keep :
      (x b c : Ptr) (bl br cl cr : Tree)
      → ltb (key c) (key b) ≡ true
      → ltb (key c) (key x) ≡ false
      → sink key x (node x (node b bl br) (node c cl cr)) ≡ node x (node b bl br) (node c cl cr)
  unfolding sink
  sink_right_keep x b c bl br cl cr smaller ge = rw (smaller, ge) refl

  -- The loop ends, with the node in its place.
  pub sink_loop-Sunk :
      (fuel v n : ℕ) (x : Ptr) (l r : Tree) (pp : Slot) (s parent : Ptr) (h : Heap)
      → n < v * 2 ^ fuel
      → Shape v n (node x l r)
      → Above key x l r pp s h
      → Sunk key x l r pp s parent h (run_loop key fuel x pp parent h)
  sink_loop-Sunk zero v n x l r pp s parent h deep shape above =
      absurd (omega (arith, deep, shape.0))
  sink_loop-Sunk (suc fuel) v n x leaf leaf pp s parent h deep shape above =
      loop_empty key fuel x s parent pp h above
  sink_loop-Sunk (suc fuel) v n x leaf (node c cl cr) pp s parent h deep shape above =
      absurd (omega (arith, shape.1, shape.2.0))
  sink_loop-Sunk (suc fuel) v n x (node b bl br) leaf pp s parent h deep shape above =
      let test = first_none x h above.right in
      elim (Bool-cases (ltb (key b) (key x))) [
        | inl lt ↦
            loop_left key fuel x s parent b bl br leaf pp h above test lt (sink_left x b bl br lt)
              (λ g up.
                sink_loop-Sunk fuel (2 * v + 0) n x bl br (of_left b) b b g
                  (deeper v (2 ^ fuel) n 0 (subst (λ m. n < v * m) (pow-suc 2 fuel) deep)) shape.1
                  up)
        | inr ge ↦ loop_keep key fuel x s parent b bl br leaf pp h above (sink_keep x b bl br ge) (
            left_keeps fuel x parent pp h (λ e. above.left.1 (sym above.left.0 ∙ e)) test
              (subst (λ p. ltb (key p) (key x) ≡ false) (sym above.left.0) ge))
      ]
  sink_loop-Sunk (suc fuel) v n x (node b bl br) (node c cl cr) pp s parent h deep shape above =
      let test = first_some x b c h above.left.0 above.right.0 above.right.1 in
      let nl : h.at (of_left x) ≢ null = (λ e. above.left.1 (sym above.left.0 ∙ e)) in
      elim (Bool-cases (ltb (key c) (key b))) [
        | inl smaller ↦ elim (Bool-cases (ltb (key c) (key x))) [
          | inl lt ↦ loop_right key fuel x s parent b c bl br cl cr pp h above smaller lt (λ g up.
              sink_loop-Sunk fuel (2 * v + 1) n x cl cr (of_right c) c c g
                (deeper v (2 ^ fuel) n 1 (subst (λ m. n < v * m) (pow-suc 2 fuel) deep)) shape.2 up)
          | inr ge ↦
              loop_keep key fuel x s parent b bl br (node c cl cr) pp h above
                (sink_right_keep x b c bl br cl cr smaller ge)
                (right_keeps fuel x parent pp h nl (λ e. above.right.1 (sym above.right.0 ∙ e))
                  (test ∙ smaller)
                  (subst (λ p. ltb (key p) (key x) ≡ false) (sym above.right.0) ge))
        ]
        | inr greater ↦ elim (Bool-cases (ltb (key b) (key x))) [
          | inl lt ↦
              loop_left key fuel x s parent b bl br (node c cl cr) pp h above (test ∙ greater) lt
                (sink_both_left x b c bl br cl cr greater lt)
                (λ g up.
                  sink_loop-Sunk fuel (2 * v + 0) n x bl br (of_left b) b b g
                    (deeper v (2 ^ fuel) n 0 (subst (λ m. n < v * m) (pow-suc 2 fuel) deep)) shape.1
                    up)
          | inr ge ↦
              loop_keep key fuel x s parent b bl br (node c cl cr) pp h above
                (sink_both_keep x b c bl br cl cr greater ge)
                (left_keeps fuel x parent pp h nl (test ∙ greater)
                  (subst (λ p. ltb (key p) (key x) ≡ false) (sym above.left.0) ge))
        ]
      ]
