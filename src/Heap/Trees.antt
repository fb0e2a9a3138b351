-- ===== src/Heap/Trees.antt =====
-- include/__ngr/__core/__intrusive_heap.hpp: the trees that heaps stand for, and pushing on them.
-- A position is a number: the root's is 1, and the children of v are 2 v and 2 v + 1.
use model_lib.Base.{
  dec_lt, ℕ, suc, ◌+◌, ◌*◌, ◌≤◌, ◌<◌, ◌≡◌, ◌≢◌, Bool, true, false, List, [], ◌∷◌, ◌==◌, ltb,
  if◌then◌else◌, arith, length, ◌^◌, sym, ◌∙◌, Bool-cases, inl, inr, ltb→lt,
}
use native.Mathlib.Nat.{pow-suc, pow-le-pow_right, mul-le-mul_left}
use native.Mathlib.Decide.{dec_lt}
use model_lib.Store.{Ptr}

pub data Tree : Type 0 where
  leaf : Tree
  node : Ptr → Tree → Tree → Tree

abbrev pub one_if : Bool → ℕ
one_if true = 1
one_if false = 0

-- how often a node stands in a tree
abbrev pub count : Ptr → Tree → ℕ
count b leaf = 0
count b (node a l r) = one_if (b == a) + count b l + count b r

-- Of the positions from `v` down, the tree has just those up to `n`.
abbrev pub Shape : ℕ → ℕ → Tree → Type 0
Shape v n leaf = n < v
Shape v n (node a l r) = (v ≤ n) × Shape (2 * v + 0) n l × Shape (2 * v + 1) n r

-- where the turns `bs` lead from position `v`
abbrev pub goes_to : ℕ → List Bool → ℕ
goes_to v [] = v
goes_to v (b ∷ bs) = goes_to (2 * v + one_if b) bs

-- Every node takes the place of the one below it along the turns.
unfoldable pub shift : List Bool → Ptr → Tree → Tree
shift bs x leaf = node x leaf leaf
shift [] x (node a l r) = node x l r
shift (true ∷ bs) x (node a l r) = node x l (shift bs a r)
shift (false ∷ bs) x (node a l r) = node x (shift bs a l) r

module _ (key : Ptr → ℕ) where
  -- No key is below that of the node above it, and none below `m`.
  abbrev pub Ordered : ℕ → Tree → Type 0
  Ordered m leaf = Unit
  Ordered m (node a l r) = (m ≤ key a) × Ordered (key a) l × Ordered (key a) r

  -- Pushing: down the turns to the first node with a greater key, and from there a shift.
  unfoldable pub insert : List Bool → Ptr → Tree → Tree
  unfolding shift
  insert bs x leaf = node x leaf leaf
  insert [] x (node a l r) = node a l r
  insert (b ∷ bs) x (node a l r) =
      let right = node a l (insert bs x r) in
      let left = node a (insert bs x l) r in
      if ltb (key x) (key a) then shift (b ∷ bs) x (node a l r) else if b then right else left

doubled_bounds :
    (v c p g : ℕ)
    → c ≤ 1
    → (2 * v + c) * p ≤ g
    → g < (2 * v + c + 1) * p
    → (v * (p * 2) ≤ g) × (g < (v + 1) * (p * 2))
doubled_bounds v c p g small lo hi = (grind arith, grind arith)

goes_to-bounds :
    (v : ℕ) (bs : List Bool)
    → (v * 2 ^ length bs ≤ goes_to v bs) × (goes_to v bs < (v + 1) * 2 ^ length bs)
goes_to-bounds v [] = omega arith
goes_to-bounds v (b ∷ bs) =
    let (lo, hi) = goes_to-bounds (2 * v + one_if b) bs in
    rw (pow-suc 2 (length bs))
      (doubled_bounds v (one_if b) (2 ^ length bs) (goes_to (2 * v + one_if b) bs) (bit b) lo hi)
  where
    bit : (b : Bool) → one_if b ≤ 1
    bit true = omega arith
    bit false = omega arith

pub goes_to-ge : (v : ℕ) (bs : List Bool) → v ≤ goes_to v bs
goes_to-ge v [] = omega arith
goes_to-ge v (true ∷ bs) = omega (arith, goes_to-ge (2 * v + 1) bs)
goes_to-ge v (false ∷ bs) = omega (arith, goes_to-ge (2 * v + 0) bs)

doubled : (i j : ℕ) → i < j → 2 * 2 ^ i ≤ 2 ^ j
doubled i j h =
    omega (arith, pow-suc 2 i, pow-le-pow_right {n = 2} (omega arith) {i = suc i} {j = j} h)

far_below : (v p q g : ℕ) → 0 < v → 2 * q ≤ p → (2 * v + 0) * p ≤ g → g < (2 * v + 1 + 1) * q → ⊥
far_below v p q g pos h lo hi = grind (
  arith,
  mul-le-mul_left {m = 2 * q} {n = p} (2 * v) h,
  mul-le-mul_left {m = 2} {n = 2 * v} q (omega arith),
)

not_before : (v p q g : ℕ) → p ≤ q → g < (2 * v + 0 + 1) * p → (2 * v + 1) * q ≤ g → ⊥
not_before v p q g h hi lo = grind (arith, mul-le-mul_left {m = p} {n = q} (2 * v + 1) h)

-- The turns to a position under one child do not lead there from the other.
pub apart_children :
    (v : ℕ) (bs cs : List Bool) → 0 < v → goes_to (2 * v + 0) bs ≢ goes_to (2 * v + 1) cs
apart_children v bs cs pos e =
    let (lo, hi) = goes_to-bounds (2 * v + 0) bs in
    let (lo', hi') = goes_to-bounds (2 * v + 1) cs in
    elim (dec_lt (length cs) (length bs)) [
      | yes longer ↦ absurd (
          far_below v (2 ^ length bs) (2 ^ length cs) (goes_to (2 * v + 0) bs) pos
            (doubled (length cs) (length bs) longer) lo (rw e hi'))
      | no shorter ↦ absurd (
          not_before v (2 ^ length bs) (2 ^ length cs) (goes_to (2 * v + 1) cs)
            (pow-le-pow_right {n = 2} (omega arith) {i = length bs} {j = length cs} (omega arith))
            (rw (← e) hi) lo')
    ]

Shape-beside :
    (w n : ℕ) (t : Tree)
    → ((bs : List Bool) → goes_to w bs ≢ suc n)
    → Shape w n t
    → Shape w (suc n) t
Shape-beside w n leaf off s = omega (arith, off [])
Shape-beside w n (node a l r) off s = (
  omega (arith, s.0),
  Shape-beside (2 * w + 0) n l (λ bs. off (false ∷ bs)) s.1,
  Shape-beside (2 * w + 1) n r (λ bs. off (true ∷ bs)) s.2,
)

pub no_turns : (v n : ℕ) → v ≤ n → v ≢ suc n
no_turns v n h e = absurd (omega arith)

pub too_far : (v n : ℕ) (b : Bool) (bs : List Bool) → n < v → goes_to v (b ∷ bs) ≢ suc n
too_far v n b bs h e = absurd (omega (arith, goes_to-ge (2 * v + one_if b) bs))

shift-Shape :
    (v n : ℕ) (bs : List Bool) (x : Ptr) (t : Tree)
    → 0 < v
    → Shape v n t
    → goes_to v bs ≡ suc n
    → Shape v (suc n) (shift bs x t)
unfolding shift
shift-Shape v n [] x leaf pos s g = (omega arith, omega arith, omega arith)
shift-Shape v n (b ∷ bs) x leaf pos s g = absurd (too_far v n b bs s g)
shift-Shape v n [] x (node a l r) pos s g = absurd (no_turns v n s.0 g)
shift-Shape v n (true ∷ bs) x (node a l r) pos s g = (
  omega (arith, s.0),
  Shape-beside (2 * v + 0) n l (λ cs e. apart_children v cs bs pos (e ∙ sym g)) s.1,
  shift-Shape (2 * v + 1) n bs a r (omega arith) s.2 g,
)
shift-Shape v n (false ∷ bs) x (node a l r) pos s g = (
  omega (arith, s.0),
  shift-Shape (2 * v + 0) n bs a l (omega arith) s.1 g,
  Shape-beside (2 * v + 1) n r (λ cs e. apart_children v bs cs pos (g ∙ sym e)) s.2,
)

count-shift :
    (v n : ℕ) (b : Ptr) (bs : List Bool) (x : Ptr) (t : Tree)
    → Shape v n t
    → goes_to v bs ≡ suc n
    → count b (shift bs x t) ≡ one_if (b == x) + count b t
unfolding shift
count-shift v n b bs x leaf s g = omega arith
count-shift v n b [] x (node a l r) s g = absurd (no_turns v n s.0 g)
count-shift v n b (true ∷ bs) x (node a l r) s g =
    omega (arith, count-shift (2 * v + 1) n b bs a r s.2 g)
count-shift v n b (false ∷ bs) x (node a l r) s g =
    omega (arith, count-shift (2 * v + 0) n b bs a l s.1 g)

module _ (key : Ptr → ℕ) where
  pub Ordered-weaken : (m k : ℕ) (t : Tree) → m ≤ k → Ordered key k t → Ordered key m t
  Ordered-weaken m k leaf h o = tt
  Ordered-weaken m k (node a l r) h o = (omega (arith, o.0), o.1, o.2)

  shift-Ordered :
      (m : ℕ) (bs : List Bool) (x : Ptr) (t : Tree)
      → m ≤ key x
      → Ordered key (key x) t
      → Ordered key m (shift bs x t)
  unfolding shift
  shift-Ordered m bs x leaf h o = (h, tt, tt)
  shift-Ordered m [] x (node a l r) h o =
      (h, Ordered-weaken (key x) (key a) l o.0 o.1, Ordered-weaken (key x) (key a) r o.0 o.2)
  shift-Ordered m (true ∷ bs) x (node a l r) h o =
      (h, Ordered-weaken (key x) (key a) l o.0 o.1, shift-Ordered (key x) bs a r o.0 o.2)
  shift-Ordered m (false ∷ bs) x (node a l r) h o =
      (h, shift-Ordered (key x) bs a l o.0 o.1, Ordered-weaken (key x) (key a) r o.0 o.2)

  before :
      (m : ℕ) (b : Bool) (bs : List Bool) (x a : Ptr) (l r : Tree)
      → m ≤ key x
      → Ordered key m (node a l r)
      → ltb (key x) (key a) ≡ true
      → Ordered key m (shift (b ∷ bs) x (node a l r))
  before m b bs x a l r h o lt =
      shift-Ordered m (b ∷ bs) x (node a l r) h (omega (arith, ltb→lt (key x) (key a) lt), o.1, o.2)

  -- Inserting keeps the order.
  pub insert-Ordered :
      (m : ℕ) (bs : List Bool) (x : Ptr) (t : Tree)
      → m ≤ key x
      → Ordered key m t
      → Ordered key m (insert key bs x t)
  unfolding insert
  insert-Ordered m bs x leaf h o = (h, tt, tt)
  insert-Ordered m [] x (node a l r) h o = o
  insert-Ordered m (true ∷ bs) x (node a l r) h o = elim (Bool-cases (ltb (key x) (key a))) [
    | inl lt ↦ rw lt (before m true bs x a l r h o lt)
    | inr ge ↦ rw ge (o.0, o.1, insert-Ordered (key a) bs x r (ground arith) o.2)
  ]
  insert-Ordered m (false ∷ bs) x (node a l r) h o = elim (Bool-cases (ltb (key x) (key a))) [
    | inl lt ↦ rw lt (before m false bs x a l r h o lt)
    | inr ge ↦ rw ge (o.0, insert-Ordered (key a) bs x l (ground arith) o.1, o.2)
  ]

  -- Inserting at the first free position keeps the shape.
  pub insert-Shape :
      (v n : ℕ) (bs : List Bool) (x : Ptr) (t : Tree)
      → 0 < v
      → Shape v n t
      → goes_to v bs ≡ suc n
      → Shape v (suc n) (insert key bs x t)
  unfolding insert shift
  insert-Shape v n [] x leaf pos s g = (omega arith, omega arith, omega arith)
  insert-Shape v n (b ∷ bs) x leaf pos s g = absurd (too_far v n b bs s g)
  insert-Shape v n [] x (node a l r) pos s g = absurd (no_turns v n s.0 g)
  insert-Shape v n (true ∷ bs) x (node a l r) pos s g = elim (Bool-cases (ltb (key x) (key a))) [
    | inl lt ↦ rw lt (shift-Shape v n (true ∷ bs) x (node a l r) pos s g)
    | inr ge ↦ rw ge (
      omega (arith, s.0),
      Shape-beside (2 * v + 0) n l (λ cs e. apart_children v cs bs pos (e ∙ sym g)) s.1,
      insert-Shape (2 * v + 1) n bs x r (omega arith) s.2 g,
    )
  ]
  insert-Shape v n (false ∷ bs) x (node a l r) pos s g = elim (Bool-cases (ltb (key x) (key a))) [
    | inl lt ↦ rw lt (shift-Shape v n (false ∷ bs) x (node a l r) pos s g)
    | inr ge ↦ rw ge (
      omega (arith, s.0),
      insert-Shape (2 * v + 0) n bs x l (omega arith) s.1 g,
      Shape-beside (2 * v + 1) n r (λ cs e. apart_children v bs cs pos (g ∙ sym e)) s.2,
    )
  ]

  -- Inserting adds the node, and nothing else.
  pub count-insert :
      (v n : ℕ) (b : Ptr) (bs : List Bool) (x : Ptr) (t : Tree)
      → Shape v n t
      → goes_to v bs ≡ suc n
      → count b (insert key bs x t) ≡ one_if (b == x) + count b t
  unfolding insert
  count-insert v n b bs x leaf s g = omega arith
  count-insert v n b [] x (node a l r) s g = absurd (no_turns v n s.0 g)
  count-insert v n b (true ∷ bs) x (node a l r) s g = elim (Bool-cases (ltb (key x) (key a))) [
    | inl lt ↦ rw lt (count-shift v n b (true ∷ bs) x (node a l r) s g)
    | inr ge ↦ rw ge (omega (arith, count-insert (2 * v + 1) n b bs x r s.2 g))
  ]
  count-insert v n b (false ∷ bs) x (node a l r) s g = elim (Bool-cases (ltb (key x) (key a))) [
    | inl lt ↦ rw lt (count-shift v n b (false ∷ bs) x (node a l r) s g)
    | inr ge ↦ rw ge (omega (arith, count-insert (2 * v + 0) n b bs x l s.1 g))
  ]
