-- ===== src/Heap/Raise.antt =====
-- include/__ngr/__core/__intrusive_heap.hpp: a round of `__heap_down_sink`.
use model_lib.Base.{
  ==_iff, ◌≤◌, ◌≡◌, ◌≢◌, refl, Bool, true, false, not, some, ◌==◌, arith, ==-self, ne→==false,
  Bool-cases, inl, inr,
}
use model_lib.Store.{Ptr, null}
use model_lib.Heap.{
  Heap, Slot, of_left, of_right, same_slot, usable, child_slot, write_at, write_prev, put_prev,
  ◌>>◌,
}
use model_lib.Heap.Removal.{
  raise_right, raise_left, swap_with_right_child, swap_with_left_child, put_back,
}
use model_lib.Heap.Trees.{Tree, leaf, node, count}
use model_lib.Heap.Linked.{count_self}
use model_lib.Heap.Slots.{owned, other_left, other_right, other_way, same_slot_self}

-- `c` stands in the place of `x`, and `x` is its child; `s` is the other child.
pub record Raised (b : Bool) (x c s : Ptr) (pp : Slot) (h g : Heap) : Type 0 where
  pub size : g.size ≡ h.size
  pub top : g.at pp ≡ c
  pub on_path : g.at (child_slot b c) ≡ x
  pub beside : g.at (child_slot (not b) c) ≡ s
  pub left : g.at (of_left x) ≡ h.at (of_left c)
  pub right : g.at (of_right x) ≡ h.at (of_right c)
  pub at :
      (t : Slot)
      → same_slot t pp ≡ false
      → owned t (node x (node c leaf leaf) leaf) ≡ 0
      → g.at t ≡ h.at t
  pub back : s ≢ null → g.prev s ≡ c
  pub others : (y : Ptr) → (y ≡ s → s ≡ null) → g.prev y ≡ h.prev y

not_null : (p : Ptr) → (p == null) ≡ false → p ≢ null
not_null p h e = ground arith

module _ (x c : Ptr) (pp : Slot) (h : Heap) (nx : x ≢ null) (nc : c ≢ null) (apart : x ≢ c)
    (u : usable pp ≡ true) (own : owned pp (node x (node c leaf leaf) leaf) ≡ 0) where
  abbrev pair : Tree
  pair = node x (node c leaf leaf) leaf

  x_in : 1 ≤ count x pair
  x_in = count_self x (node c leaf leaf) leaf

  c_in : 1 ≤ count c pair
  c_in = omega (arith, count_self c leaf leaf)

  off_left : (y : Ptr) → 1 ≤ count y pair → same_slot (of_left y) pp ≡ false
  off_left y i = other_way pp (of_left y) (other_left pp y pair own i)

  off_right : (y : Ptr) → 1 ≤ count y pair → same_slot (of_right y) pp ≡ false
  off_right y i = other_way pp (of_right y) (other_right pp y pair own i)

  x-c : (x == c) ≡ false
  x-c = ne→==false x c apart

  no_x : (x == null) ≡ false
  no_x = ne→==false x null nx

  no_c : (c == null) ≡ false
  no_c = ne→==false c null nc

  abbrev raised_right : Heap
  raised_right = write_at pp c (
      write_prev (h.at (of_left x)) c (
        write_at (of_left c) (h.at (of_left x)) (
          write_at (of_left x) (h.at (of_left c))
            (write_at (of_right c) x (write_at (of_right x) (h.at (of_right c)) h)))))

  pub raise-right :
      h.at (of_left x) ≢ null
      → (g : Heap) × (raise_right x pp c (h.at (of_left x)) h ≡ some (tt, g))
        × Raised true x c (h.at (of_left x)) pp h g
  unfolding raise_right swap_with_right_child
  raise-right ns = (
    raised_right,
    rw (no_c, no_x, no_c, no_x, no_c, no_x, no_c, ne→==false (h.at (of_left x)) null ns, u),
    record {
      size = refl;
      top = rw (same_slot_self pp);
      on_path = rw (off_right c c_in, ==-self c);
      beside = rw (off_left c c_in, ==-self c);
      left = rw (off_left x x_in, x-c, ==-self x);
      right = rw (off_right x x_in, x-c, ==-self x);
      at = λ t ne o. rw (
        ne,
        other_left t c pair o c_in,
        other_left t x pair o x_in,
        other_right t c pair o c_in,
        other_right t x pair o x_in,
      );
      back = λ _. rw (==-self (h.at (of_left x)));
      others = λ y ne. rw (ne→==false y (h.at (of_left x)) (λ e. ns (ne e)));
    },
  )

  abbrev raised_left : Heap
  raised_left = write_at (of_left c) x (
      write_at (of_left x) (h.at (of_left c))
        (write_at (of_right c) (h.at (of_right x)) (write_at (of_right x) (h.at (of_right c)) h)))

  pub raise-left :
      (g : Heap) × (raise_left x pp (h.at (of_right x)) c h ≡ some (tt, g))
      × Raised false x c (h.at (of_right x)) pp h g
  unfolding raise_left swap_with_left_child
  raise-left = elim (Bool-cases (h.at (of_right x) == null)) [
    | inl z ↦ (
      write_at pp c raised_left,
      rw (no_x, no_c, no_x, no_c, no_c, no_x, no_c, z, u),
      record {
        size = refl;
        top = rw (same_slot_self pp);
        on_path = rw (off_left c c_in, ==-self c);
        beside = rw (off_right c c_in, ==-self c);
        left = rw (off_left x x_in, x-c, ==-self x);
        right = rw (off_right x x_in, x-c, ==-self x);
        at = λ t ne o. rw (
          ne,
          other_left t c pair o c_in,
          other_left t x pair o x_in,
          other_right t c pair o c_in,
          other_right t x pair o x_in,
        );
        back = λ nn. absurd (nn ((==_iff (h.at (of_right x)) null).0 z));
        others = λ y ne. refl;
      },
    )
    | inr nz ↦ (
      write_at pp c (write_prev (h.at (of_right x)) c raised_left),
      rw (no_x, no_c, no_x, no_c, no_c, no_x, no_c, nz, nz, u),
      record {
        size = refl;
        top = rw (same_slot_self pp);
        on_path = rw (off_left c c_in, ==-self c);
        beside = rw (off_right c c_in, ==-self c);
        left = rw (off_left x x_in, x-c, ==-self x);
        right = rw (off_right x x_in, x-c, ==-self x);
        at = λ t ne o. rw (
          ne,
          other_left t c pair o c_in,
          other_left t x pair o x_in,
          other_right t c pair o c_in,
          other_right t x pair o x_in,
        );
        back = λ _. rw (==-self (h.at (of_right x)));
        others = λ y ne.
            rw (ne→==false y (h.at (of_right x)) (λ e. not_null (h.at (of_right x)) nz (ne e)));
      },
    )
  ]

-- The last writes, where the node stays above its children `l` and `r`.
pub record Stayed (x parent l r : Ptr) (h g : Heap) : Type 0 where
  pub size : g.size ≡ h.size
  pub at : (t : Slot) → g.at t ≡ h.at t
  pub here : g.prev x ≡ parent
  pub left : g.prev l ≡ x
  pub right : r ≢ null → g.prev r ≡ x
  pub prev : (y : Ptr) → y ≢ x → y ≢ l → (y ≡ r → r ≡ null) → g.prev y ≡ h.prev y

pub keep-Stayed :
    (x parent l r : Ptr) (h : Heap)
    → x ≢ null
    → l ≢ null
    → l ≢ x
    → (r ≢ null → (r ≢ x) × (r ≢ l))
    → (g : Heap) × ((put_back r x >> put_prev l x >> put_prev x parent) h ≡ some (tt, g))
      × Stayed x parent l r h g
keep-Stayed x parent l r h nx nl lx rs = elim (Bool-cases (r == null)) [
  | inl z ↦ (
    write_prev x parent (write_prev l x h),
    rw (z, ne→==false l null nl, ne→==false x null nx),
    record {
      size = refl;
      at = λ t. refl;
      here = rw (==-self x);
      left = rw (ne→==false l x lx, ==-self l);
      right = λ nn. absurd (nn ((==_iff r null).0 z));
      prev = λ y nyx nyl nyr. rw (ne→==false y x nyx, ne→==false y l nyl);
    },
  )
  | inr nz ↦ (
    write_prev x parent (write_prev l x (write_prev r x h)),
    rw (nz, nz, ne→==false l null nl, ne→==false x null nx),
    record {
      size = refl;
      at = λ t. refl;
      here = rw (==-self x);
      left = rw (ne→==false l x lx, ==-self l);
      right = λ nn. rw (ne→==false r x (rs nn).0, ne→==false r l (rs nn).1, ==-self r);
      prev = λ y nyx nyl nyr.
          rw (ne→==false y x nyx, ne→==false y l nyl, ne→==false y r (λ e. not_null r nz (nyr e)));
    },
  )
]
