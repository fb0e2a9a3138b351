-- ===== src/Heap/Settled.antt =====
-- include/__ngr/__core/__intrusive_heap.hpp: a round of `__heap_down_sink` that takes the left child or none.
use mathlib.Core.Path.{subst}
use model_lib.Base.{
  ℕ, suc, ◌+◌, ◌≤◌, ◌≡◌, ◌≢◌, refl, ap, sym, ◌∙◌, Bool, true, false, not, ◌&&◌, some, ◌==◌, ltb,
  arith, ne→==false,
}
use model_lib.Store.{Ptr, null}
use model_lib.Heap.{Heap, Slot, of_left, of_right, put_prev, ◌>>◌}
use model_lib.Heap.Removal.{raise_left, sink_loop, put_back}
use model_lib.Heap.Trees.{Tree, leaf, node, count, one_if}
use model_lib.Heap.Linked.{one_self, Linked, ne_of_count, Linked-root}
use model_lib.Heap.Sink.{sink}
use model_lib.Heap.Raise.{raise-left, keep-Stayed}
use model_lib.Heap.Round.{owned_mono, Poised, round-Linked, round-prev, round-Within}
use model_lib.Heap.Seat.{Sunk, Above, stay, sink-root, run_loop, next-Above}

module _ (key : Ptr → ℕ) where
  -- the test of the code for the right child
  abbrev pub right_first : Ptr → Heap → Bool
  right_first x h =
      not (h.at (of_right x) == null) && ltb (key (h.at (of_right x))) (key (h.at (of_left x)))

  -- The left child comes up.
  pub loop_left :
      (fuel : ℕ) (x s parent b : Ptr) (bl br r : Tree) (pp : Slot) (h : Heap)
      → Above key x (node b bl br) r pp s h
      → right_first x h ≡ false
      → ltb (key b) (key x) ≡ true
      → sink key x (node x (node b bl br) r) ≡ node b (sink key x (node b bl br)) r
      → ((g : Heap)
          → Above key x bl br (of_left b) b g
          → Sunk key x bl br (of_left b) b b g (run_loop key fuel x (of_left b) b g))
      → Sunk key x (node b bl br) r pp s parent h (run_loop key (suc fuel) x pp parent h)
  unfolding sink_loop
  loop_left fuel x s parent b bl br r pp h above test lt sunk rest =
      let nl : h.at (of_left x) ≢ null = λ e. above.left.1 (sym above.left.0 ∙ e) in
      let apart : x ≢ b =
        λ e. absurd (omega (arith, above.distinct x, one_self x, ap (λ z. one_if (x == z)) e)) in
      let (g, raise, raised) = raise-left x b pp h above.there above.left.1 apart above.writable (
        owned_mono pp (node x (node b bl br) r) (node x (node b leaf leaf) leaf)
          (λ y o. omega (arith, o)) above.outside) in
      let poised : Poised false x b r bl br pp s h = record {
        distinct = λ y. omega (arith, above.distinct y);
        there = above.there;
        writable = above.writable;
        outside =
            owned_mono pp (node x (node b bl br) r) (node x r (node b bl br))
              (λ y o. omega (arith, o)) above.outside;
        on_path = above.left;
        beside = above.right;
      } in
      let (f, run, below, same, within) =
        rest g
          (next-Above key false x b r bl br pp s h g poised raised (above.left.3, above.left.4)) in
      let below' : Linked f b (f.at (of_left b)) (sink key x (node b bl br)) =
        subst (Linked f b (f.at (of_left b))) (sym (sink-root key x b bl br)) (
          subst (λ q. Linked f q (f.at (of_left b)) (sink key x (node x bl br))) (same refl)
            below) in
      let whole =
        round-Linked false x b r bl br pp s h g poised raised f (sink key x (node b bl br)) below'
          within in
      let lt' : ltb (key (h.at (of_left x))) (key x) ≡ true =
        subst (λ p. ltb (key p) (key x) ≡ true) (sym above.left.0) lt in
      let raise' : raise_left x pp (h.at (of_right x)) (h.at (of_left x)) h ≡ some (tt, g) =
        subst (λ p. raise_left x pp (h.at (of_right x)) p h ≡ some (tt, g)) (sym above.left.0)
          raise in
      let run' =
        subst
          (λ p.
            sink_loop key fuel x (of_left p) p (g.at (of_right x)) (g.at (of_left x)) g
            ≡ some (tt, f))
          (sym above.left.0) run in
      let done : run_loop key (suc fuel) x pp parent h ≡ some (tt, f) =
        rw
          (
            ne→==false (h.at (of_left x)) null nl,
            test,
            lt',
            raise',
            ne→==false x null above.there,
            ne→==false x null above.there,
          )
          run' in
      (
        f,
        done,
        rw sunk whole,
        (λ e.
            round-prev false x b r bl br pp s h g poised raised f (sink key x (node b bl br)) below'
              within
            ∙ e),
        round-Within false x b r bl br pp s h g poised raised f (sink key x (node b bl br)) below'
            within,
      )

  -- No child is less than the node.
  pub loop_keep :
      (fuel : ℕ) (x s parent b : Ptr) (bl br r : Tree) (pp : Slot) (h : Heap)
      → Above key x (node b bl br) r pp s h
      → sink key x (node x (node b bl br) r) ≡ node x (node b bl br) r
      → run_loop key (suc fuel) x pp parent h
        ≡ (put_back (h.at (of_right x)) x >> put_prev (h.at (of_left x)) x >> put_prev x parent) h
      → Sunk key x (node b bl br) r pp s parent h (run_loop key (suc fuel) x pp parent h)
  loop_keep fuel x s parent b bl br r pp h above sunk same =
      let (g, run, stayed) =
        keep-Stayed x parent (h.at (of_left x)) (h.at (of_right x)) h above.there nl left_x
          right_apart in
      let (linked, prev, within) = stay key x parent s (node b bl br) r pp h g above nl stayed in
      (g, same ∙ run, rw sunk linked, (λ e. prev), within)
    where
      nl : h.at (of_left x) ≢ null
      nl e = above.left.1 (sym above.left.0 ∙ e)

      left_in : 1 ≤ count (h.at (of_left x)) (node b bl br)
      left_in = Linked-root h s (h.at (of_left x)) (node b bl br) above.left nl

      x_out : count x (node b bl br) + count x r ≡ 0
      x_out = omega (arith, above.distinct x, one_self x)

      left_x : h.at (of_left x) ≢ x
      left_x e =
          ne_of_count x (h.at (of_left x)) (node b bl br) (omega (arith, x_out)) left_in (sym e)

      right_apart :
          h.at (of_right x) ≢ null
          → (h.at (of_right x) ≢ x) × (h.at (of_right x) ≢ h.at (of_left x))
      right_apart nn =
          let right_in = Linked-root h s (h.at (of_right x)) r above.right nn in
          (
            (λ e. ne_of_count x (h.at (of_right x)) r (omega (arith, x_out)) right_in (sym e)),
            ne_of_count (h.at (of_right x)) (h.at (of_left x)) (node b bl br)
                (omega (arith, above.distinct (h.at (of_right x)), right_in)) left_in,
          )
