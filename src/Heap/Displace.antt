-- ===== src/Heap/Displace.antt =====
-- include/__ngr/__core/__intrusive_heap.hpp: the inner loop of `_M_push` shifts the nodes below the
-- new one along the path.
use model_lib.Base.{
  ℕ, ◌/◌, ◌≤◌, ◌≡◌, ◌≢◌, refl, sym, ◌∙◌, Bool, true, false, not, Bool-cases, inl, inr, some, List,
  [], ◌∷◌, ◌==◌, arith, ==-self, ne→==false,
}
use model_lib.Store.{Ptr, null}
use model_lib.Heap.{
  Heap, of_root, of_left, of_right, write_at, write_prev, displace, turns_right, child_slot,
}
use model_lib.Heap.Trees.{Tree, count}
use model_lib.Heap.Linked.{
  Linked, Distinct, Agrees, ne_of_count, Linked-root, Linked-frame, Linked-rebase,
}

-- The turns that a mask reads off `k`.
abbrev pub Turns : (mask k : ℕ) → List Bool → Type 0
Turns mask k [] = mask ≡ 0
Turns mask k (b ∷ bs) = (mask ≢ 0) × (turns_right mask k ≡ b) × Turns (mask / 2) k bs

-- `x` stands in the place of `a`, and `a` is its child on the path; `s` is the other child.
pub record Lifted (b : Bool) (x a s : Ptr) (h g : Heap) : Type 0 where
  pub size : g.size ≡ h.size
  pub root : g.at of_root ≡ h.at of_root
  pub on_path : g.at (child_slot b x) ≡ a
  pub beside : g.at (child_slot (not b) x) ≡ s
  pub links : (y : Ptr) → y ≢ x → Agrees h g y
  pub back : s ≢ null → g.prev s ≡ x
  pub others : (y : Ptr) → (y ≡ s → s ≡ null) → g.prev y ≡ h.prev y

pub displace-right :
    (x a : Ptr) (h : Heap)
    → x ≢ null
    → a ≢ null
    → h.at (of_left a) ≢ null
    → (g : Heap) × (displace true x a h ≡ some (tt, g)) × Lifted true x a (h.at (of_left a)) h g
unfolding displace
displace-right x a h nx na ns = (
  write_prev (h.at (of_left a)) x
      (write_at (of_left x) (h.at (of_left a)) (write_at (of_right x) a h)),
  rw (
    ne→==false x null nx,
    ne→==false a null na,
    ne→==false x null nx,
    ne→==false (h.at (of_left a)) null ns,
  ),
  record {
    size = refl;
    root = refl;
    on_path = rw (==-self x);
    beside = rw (==-self x);
    links = λ y ne. record { left = rw (ne→==false y x ne); right = rw (ne→==false y x ne) };
    back = λ _. rw (==-self (h.at (of_left a)));
    others = λ y ne. rw (ne→==false y (h.at (of_left a)) (λ e. ns (ne e)));
  },
)

not_null : (p : Ptr) → (p == null) ≡ false → p ≢ null
not_null p h e = ground arith

pub displace-left :
    (x a : Ptr) (h : Heap)
    → x ≢ null
    → a ≢ null
    → (g : Heap) × (displace false x a h ≡ some (tt, g)) × Lifted false x a (h.at (of_right a)) h g
unfolding displace
displace-left x a h nx na = elim (Bool-cases (h.at (of_right a) == null)) [
  | inl z ↦ (
    write_at (of_left x) a (write_at (of_right x) (h.at (of_right a)) h),
    rw (ne→==false a null na, ne→==false x null nx, ne→==false x null nx, z),
    record {
      size = refl;
      root = refl;
      on_path = rw (==-self x);
      beside = rw (==-self x);
      links = λ y ne. record { left = rw (ne→==false y x ne); right = rw (ne→==false y x ne) };
      back = λ nn. absurd (nn (ground (arith, z)));
      others = λ y ne. refl;
    },
  )
  | inr nz ↦ (
    write_prev (h.at (of_right a)) x
        (write_at (of_left x) a (write_at (of_right x) (h.at (of_right a)) h)),
    rw (ne→==false a null na, ne→==false x null nx, ne→==false x null nx, nz, nz),
    record {
      size = refl;
      root = refl;
      on_path = rw (==-self x);
      beside = rw (==-self x);
      links = λ y ne. record { left = rw (ne→==false y x ne); right = rw (ne→==false y x ne) };
      back = λ nn. rw (==-self (h.at (of_right a)));
      others = λ y ne.
          rw (ne→==false y (h.at (of_right a)) (λ e. not_null (h.at (of_right a)) nz (ne e)));
    },
  )
]

-- What the loop leaves alone, beside `x` and the nodes of `t`.
pub record Spares (x : Ptr) (t : Tree) (h g : Heap) : Type 0 where
  pub size : g.size ≡ h.size
  pub root : g.at of_root ≡ h.at of_root
  pub links : (y : Ptr) → y ≢ x → count y t ≡ 0 → Agrees h g y
  pub prev : (y : Ptr) → count y t ≡ 0 → g.prev y ≡ h.prev y

pub Agrees-trans : (h g k : Heap) (a : Ptr) → Agrees h g a → Agrees g k a → Agrees h k a
Agrees-trans h g k a p q = record { left = q.left ∙ p.left; right = q.right ∙ p.right }

-- The tree below the child on the path, after the node above it was lifted.
pub lifted-Linked :
    (b : Bool) (x a s u q : Ptr) (h g : Heap) (t : Tree)
    → Lifted b x a s h g
    → count x t ≡ 0
    → count s t ≡ 0
    → Linked h q u t
    → Linked g q u t
lifted-Linked b x a s u q h g t lift nx ns k =
    Linked-frame h g q u t (λ y i. lift.links y (λ e. ne_of_count x y t nx i (sym e)))
      (λ y i. lift.others y (λ e. absurd (ne_of_count s y t ns i (sym e)))) k

-- The tree beside the path, under its new parent, when the rest of the path is done.
pub beside-Linked :
    (b : Bool) (x a s : Ptr) (h g k : Heap) (t r : Tree)
    → Lifted b x a s h g
    → Spares a r g k
    → Distinct t
    → count x t ≡ 0
    → count a t ≡ 0
    → ((y : Ptr) → 1 ≤ count y t → count y r ≡ 0)
    → Linked h a s t
    → Linked k x s t
beside-Linked b x a s h g k t r lift spares distinct nx na apart linked =
    Linked-rebase h k a x s t distinct
      (λ y i.
        Agrees-trans h g k y (lift.links y (λ e. ne_of_count x y t nx i (sym e)))
          (spares.links y (λ e. ne_of_count a y t na i (sym e)) (apart y i)))
      (λ nn. spares.prev s (apart s (Linked-root h a s t linked nn)) ∙ lift.back nn)
      (λ y i ne. spares.prev y (apart y i) ∙ lift.others y (λ e. absurd (ne e))) linked
