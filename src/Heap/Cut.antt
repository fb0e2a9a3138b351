-- ===== src/Heap/Cut.antt =====
-- include/__ngr/__core/__intrusive_heap.hpp: taking the last leaf off a tree.
use model_lib.Base.{
  dec_lt, inr, ==_iff, inl, Bool-cases, ℕ, suc, ◌+◌, ◌*◌, ◌≤◌, ◌<◌, ◌≡◌, ◌≢◌, refl, ap, sym, ◌∙◌,
  Bool, true, false, List, [], ◌∷◌, ◌==◌, arith,
}
use model_lib.Store.{Ptr, null}
use model_lib.Heap.Trees.{
  Tree, leaf, node, count, one_if, Shape, Ordered, goes_to, goes_to-ge, apart_children,
}

-- the node at the end of the turns
unfoldable pub last : List Bool → Tree → Ptr
last bs leaf = null
last [] (node a l r) = a
last (true ∷ bs) (node a l r) = last bs r
last (false ∷ bs) (node a l r) = last bs l

-- the tree without that node
unfoldable pub cut : List Bool → Tree → Tree
cut bs leaf = leaf
cut [] (node a l r) = leaf
cut (true ∷ bs) (node a l r) = node a l (cut bs r)
cut (false ∷ bs) (node a l r) = node a (cut bs l) r

pub nothing_beyond : (w n : ℕ) (b : Ptr) (t : Tree) → n < w → Shape w n t → count b t ≡ 0
nothing_beyond w n b leaf h s = refl
nothing_beyond w n b (node a l r) h s = absurd (omega (arith, s.0))

-- A tree without the last position has a smaller bound.
Shape-without :
    (w n : ℕ) (t : Tree)
    → ((bs : List Bool) → goes_to w bs ≢ suc n)
    → Shape w (suc n) t
    → Shape w n t
Shape-without w n leaf off s = omega (arith, s)
Shape-without w n (node a l r) off s = (
  ground (arith, s.0, off []),
  Shape-without (2 * w + 0) n l (λ bs. off (false ∷ bs)) s.1,
  Shape-without (2 * w + 1) n r (λ bs. off (true ∷ bs)) s.2,
)

pub cut-Shape :
    (v n : ℕ) (bs : List Bool) (t : Tree)
    → 0 < v
    → Shape v (suc n) t
    → goes_to v bs ≡ suc n
    → Shape v n (cut bs t)
unfolding cut
cut-Shape v n bs leaf pos s g = absurd (omega (arith, goes_to-ge v bs, g))
cut-Shape v n [] (node a l r) pos s g = omega (arith, g)
cut-Shape v n (true ∷ bs) (node a l r) pos s g = (
  omega (arith, goes_to-ge (2 * v + 1) bs, g),
  Shape-without (2 * v + 0) n l (λ cs e. apart_children v cs bs pos (e ∙ sym g)) s.1,
  cut-Shape (2 * v + 1) n bs r (omega arith) s.2 g,
)
cut-Shape v n (false ∷ bs) (node a l r) pos s g = (
  omega (arith, goes_to-ge (2 * v + 0) bs, g),
  cut-Shape (2 * v + 0) n bs l (omega arith) s.1 g,
  Shape-without (2 * v + 1) n r (λ cs e. apart_children v bs cs pos (g ∙ sym e)) s.2,
)

pub count-cut :
    (v n : ℕ) (b : Ptr) (bs : List Bool) (t : Tree)
    → 0 < v
    → Shape v (suc n) t
    → goes_to v bs ≡ suc n
    → one_if (b == last bs t) + count b (cut bs t) ≡ count b t
unfolding cut last
count-cut v n b bs leaf pos s g = absurd (omega (arith, goes_to-ge v bs, g))
count-cut v n b [] (node a l r) pos s g = omega (
  arith,
  nothing_beyond (2 * v + 0) (suc n) b l (omega (arith, g)) s.1,
  nothing_beyond (2 * v + 1) (suc n) b r (omega (arith, g)) s.2,
)
count-cut v n b (true ∷ bs) (node a l r) pos s g =
    omega (arith, count-cut (2 * v + 1) n b bs r (omega arith) s.2 g)
count-cut v n b (false ∷ bs) (node a l r) pos s g =
    omega (arith, count-cut (2 * v + 0) n b bs l (omega arith) s.1 g)

module _ (key : Ptr → ℕ) where
  pub cut-Ordered : (m : ℕ) (bs : List Bool) (t : Tree) → Ordered key m t → Ordered key m (cut bs t)
  unfolding cut
  cut-Ordered m bs leaf o = tt
  cut-Ordered m [] (node a l r) o = tt
  cut-Ordered m (true ∷ bs) (node a l r) o = (o.0, o.1, cut-Ordered (key a) bs r o.2)
  cut-Ordered m (false ∷ bs) (node a l r) o = (o.0, cut-Ordered (key a) bs l o.1, o.2)

  -- No key of a tree is below its bound.
  pub member-ge : (m : ℕ) (b : Ptr) (t : Tree) → Ordered key m t → 1 ≤ count b t → m ≤ key b
  member-ge m b leaf o i = absurd (omega arith)
  member-ge m b (node a l r) o i = elim (Bool-cases (b == a)) [
    | inl e ↦ omega (arith, o.0, ap key ((==_iff b a).0 e))
    | inr ne ↦ elim (dec_lt 0 (count b l)) [
      | yes on_left ↦ omega (arith, o.0, member-ge (key a) b l o.1 on_left)
      | no off_left ↦
          omega (arith, o.0, member-ge (key a) b r o.2 (omega (arith, i, off_left, ap one_if ne)))
    ]
  ]
