-- ===== src/Heap/Seat.antt =====
-- include/__ngr/__core/__intrusive_heap.hpp: a node above its children, and a round that takes the right one.
use mathlib.Core.Path.{subst}
use model_lib.Base.{
  ==_iff, ℕ, suc, ◌+◌, ◌≤◌, ◌≡◌, ◌≢◌, refl, ap, sym, ◌∙◌, Bool, true, false, not, some, Option,
  ◌==◌, ltb, arith, ==-self, ne→==false,
}
use model_lib.Store.{Ptr, null}
use model_lib.Heap.{write_prev, Heap, Slot, of_left, of_right, usable, child_slot}
use model_lib.Heap.Removal.{sink_loop}
use model_lib.Heap.Trees.{Tree, leaf, node, count, one_if}
use model_lib.Heap.Linked.{
  one_self, Linked, Distinct, Agrees, count_self, ne_of_count, Linked-rebase, outside-root,
}
use model_lib.Heap.Slots.{owned}
use model_lib.Heap.Within.{owned_child, Within}
use model_lib.Heap.Sink.{sink}
use model_lib.Heap.Raise.{Raised, raise-right, Stayed}
use model_lib.Heap.Round.{
  owned_mono, c_new, sub-Distinct, Poised, below-Linked, round-Linked, round-prev, round-Within,
}

module _ (key : Ptr → ℕ) where
  -- The outcome of sinking `x` from above `l` and `r`, whose nodes know `s` as their parent.
  abbrev pub Sunk :
      (x : Ptr)
      → (l r : Tree) → (pp : Slot) → (s parent : Ptr) → Heap
      → Option (Unit {0} × Heap)
      → Type 0
  Sunk x l r pp s parent h o =
      (g : Heap) × (o ≡ some (tt, g))
      × Linked g (g.prev (g.at pp)) (g.at pp) (sink key x (node x l r))
      × (s ≡ parent → g.prev (g.at pp) ≡ parent)
      × Within pp (node x l r) h g

  -- What sinking needs of the heap.
  pub record Above (x : Ptr) (l r : Tree) (pp : Slot) (s : Ptr) (h : Heap) : Type 0 where
    pub distinct : Distinct (node x l r)
    pub there : x ≢ null
    pub writable : usable pp ≡ true
    pub outside : owned pp (node x l r) ≡ 0
    pub top : h.at pp ≡ x
    pub left : Linked h s (h.at (of_left x)) l
    pub right : Linked h s (h.at (of_right x)) r

  -- The node stays above two children.
  pub stay :
      (x parent s : Ptr) (l r : Tree) (pp : Slot) (h g : Heap)
      → Above x l r pp s h
      → h.at (of_left x) ≢ null
      → Stayed x parent (h.at (of_left x)) (h.at (of_right x)) h g
      → Linked g (g.prev (g.at pp)) (g.at pp) (node x l r)
        × (g.prev (g.at pp) ≡ parent)
        × Within pp (node x l r) h g
  stay x parent s l r pp h g above nl stayed =
      let here : g.at pp ≡ x = stayed.at pp ∙ above.top in
      (
        (
          here,
          above.there,
          ap g.prev (sym here),
          subst (λ p. Linked g x p l) (sym (stayed.at (of_left x)))
              (Linked-rebase h g s x (h.at (of_left x)) l (λ y. omega (arith, above.distinct y))
                (λ y i. same y) (λ _. stayed.left)
                (λ y i ne.
                  stayed.prev y (not_x y (omega (arith, i))) ne
                    (no_right y (omega (arith, above.distinct y, i))))
                above.left),
          subst (λ p. Linked g x p r) (sym (stayed.at (of_right x)))
              (Linked-rebase h g s x (h.at (of_right x)) r (λ y. omega (arith, above.distinct y))
                (λ y i. same y) stayed.right
                (λ y i ne.
                  stayed.prev y (not_x y (omega (arith, i)))
                    (not_left y (omega (arith, above.distinct y, i))) (λ e. absurd (ne e)))
                above.right),
        ),
        ap g.prev here ∙ stayed.here,
        record {
          size = stayed.size;
          at = λ t ne o. stayed.at t;
          prev = λ y o.
              stayed.prev y (ne_of_count y x (node x l r) o (count_self x l r))
                (not_left y (omega (arith, o))) (no_right y (omega (arith, o)));
        },
      )
    where
      same : (y : Ptr) → Agrees h g y
      same y = record { left = stayed.at (of_left y); right = stayed.at (of_right y) }

      not_x : (y : Ptr) → 1 ≤ count y l + count y r → y ≢ x
      not_x y i e =
          absurd (omega (arith, above.distinct y, i, ap (λ z. one_if (z == x)) e, one_self x))

      not_left : (y : Ptr) → count y l ≡ 0 → y ≢ h.at (of_left x)
      not_left y o e = nl (outside-root h s (h.at (of_left x)) y l above.left o e)

      no_right : (y : Ptr) → count y r ≡ 0 → y ≡ h.at (of_right x) → h.at (of_right x) ≡ null
      no_right y o e = outside-root h s (h.at (of_right x)) y r above.right o e

  pub sink-root : (x a : Ptr) (l r : Tree) → sink key x (node a l r) ≡ sink key x (node x l r)
  unfolding sink
  sink-root x a leaf r = refl
  sink-root x a (node b bl br) leaf = refl
  sink-root x a (node b bl br) (node c cl cr) = refl

  -- The loop on its fuel, from the children of `x`.
  abbrev pub run_loop : ℕ → Ptr → Slot → Ptr → Heap → Option (Unit {0} × Heap)
  run_loop fuel x pp parent h =
      sink_loop key fuel x pp parent (h.at (of_right x)) (h.at (of_left x)) h

  -- After a round the node stands above the children of `c`.
  pub next-Above :
      (b : Bool) (x c : Ptr) (e cl cr : Tree) (pp : Slot) (s : Ptr) (h g : Heap)
      (poised : Poised b x c e cl cr pp s h)
      → Raised b x c (h.at (child_slot (not b) x)) pp h g
      → Linked h c (h.at (of_left c)) cl × Linked h c (h.at (of_right c)) cr
      → Above x cl cr (child_slot b c) c g
  next-Above b x c e cl cr pp s h g poised raised ks = record {
    distinct = sub-Distinct b x c e cl cr pp s h g poised raised;
    there = poised.there;
    writable = usable_child b;
    outside =
        owned_child b c (node x cl cr) ∙ omega (arith, c_new b x c e cl cr pp s h g poised raised);
    top = raised.on_path;
    left =
        subst (λ p. Linked g c p cl) (sym raised.left)
          (below-Linked b x c e cl cr pp s h g poised raised c (h.at (of_left c)) cl
            (λ y i. omega (arith, i)) ks.0);
    right =
        subst (λ p. Linked g c p cr) (sym raised.right)
          (below-Linked b x c e cl cr pp s h g poised raised c (h.at (of_right c)) cr
            (λ y i. omega (arith, i)) ks.1);
  }
    where
      usable_child : (b : Bool) → usable (child_slot b c) ≡ true
      usable_child true = rw (ne→==false c null poised.on_path.1)
      usable_child false = rw (ne→==false c null poised.on_path.1)

  -- There are no children.
  pub loop_empty :
      (fuel : ℕ) (x s parent : Ptr) (pp : Slot) (h : Heap)
      → Above x leaf leaf pp s h
      → Sunk x leaf leaf pp s parent h (run_loop (suc fuel) x pp parent h)
  unfolding sink_loop sink
  loop_empty fuel x s parent pp h above =
      let none_left : (h.at (of_left x) == null) ≡ true =
        (==_iff (h.at (of_left x)) null).1 above.left in
      (
        write_prev x parent h,
        rw (none_left, ne→==false x null above.there),
        (
          above.top,
          above.there,
          ap (write_prev x parent h).prev (sym above.top),
          above.left,
          above.right,
        ),
        (λ e. ap (write_prev x parent h).prev above.top ∙ rw (==-self x)),
        record {
          size = refl;
          at = λ t ne o. refl;
          prev = λ y o.
              rw (ne→==false y x (ne_of_count y x (node x leaf leaf) o (count_self x leaf leaf)));
        },
      )

  -- The right child comes up.
  pub loop_right :
      (fuel : ℕ) (x s parent : Ptr) (b c : Ptr) (bl br cl cr : Tree) (pp : Slot) (h : Heap)
      → Above x (node b bl br) (node c cl cr) pp s h
      → ltb (key c) (key b) ≡ true
      → ltb (key c) (key x) ≡ true
      → ((g : Heap)
          → Above x cl cr (of_right c) c g
          → Sunk x cl cr (of_right c) c c g (run_loop fuel x (of_right c) c g))
      → Sunk x (node b bl br) (node c cl cr) pp s parent h (run_loop (suc fuel) x pp parent h)
  unfolding sink_loop sink
  loop_right fuel x s parent b c bl br cl cr pp h above smaller lt rest =
      let nl : h.at (of_left x) ≢ null = λ e. above.left.1 (sym above.left.0 ∙ e) in
      let smaller' : ltb (key c) (key (h.at (of_left x))) ≡ true =
        subst (λ p. ltb (key c) (key p) ≡ true) (sym above.left.0) smaller in
      let apart : x ≢ c =
        λ e. absurd (omega (arith, above.distinct x, one_self x, ap (λ z. one_if (x == z)) e)) in
      let (g, raise, raised) =
        raise-right x c pp h above.there above.right.1 apart above.writable
          (owned_mono pp (node x (node b bl br) (node c cl cr)) (node x (node c leaf leaf) leaf)
            (λ y o. omega (arith, o)) above.outside)
          nl in
      let poised : Poised true x c (node b bl br) cl cr pp s h = record {
        distinct = above.distinct;
        there = above.there;
        writable = above.writable;
        outside = above.outside;
        on_path = above.right;
        beside = above.left;
      } in
      let (f, run, below, same, within) = rest g (
        next-Above true x c (node b bl br) cl cr pp s h g poised raised
          (above.right.3, above.right.4)) in
      let below' : Linked f c (f.at (of_right c)) (sink key x (node c cl cr)) =
        subst (Linked f c (f.at (of_right c))) (sym (sink-root x c cl cr)) (
          subst (λ q. Linked f q (f.at (of_right c)) (sink key x (node x cl cr))) (same refl)
            below) in
      let whole =
        round-Linked true x c (node b bl br) cl cr pp s h g poised raised f
          (sink key x (node c cl cr)) below' within in
      let done : run_loop (suc fuel) x pp parent h ≡ some (tt, f) =
        rw
          (
            ne→==false (h.at (of_left x)) null nl,
            above.right.0,
            ne→==false c null above.right.1,
            smaller',
            lt,
            raise,
            ne→==false x null above.there,
            ne→==false x null above.there,
          )
          run in
      (
        f,
        done,
        rw (smaller, lt) whole,
        (λ e.
            round-prev true x c (node b bl br) cl cr pp s h g poised raised f
              (sink key x (node c cl cr)) below' within
            ∙ e),
        round-Within true x c (node b bl br) cl cr pp s h g poised raised f
            (sink key x (node c cl cr)) below' within,
      )
