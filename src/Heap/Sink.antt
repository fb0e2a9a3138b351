-- ===== src/Heap/Sink.antt =====
-- include/__ngr/__core/__intrusive_heap.hpp: a node sinks to its place in a tree.
use model_lib.Base.{◌==◌, ℕ, ◌+◌, ◌*◌, ◌≤◌, ◌≡◌, ltb, if◌then◌else◌, arith, Bool-cases, inl, inr}
use model_lib.Store.{Ptr}
use model_lib.Heap.Trees.{Tree, leaf, node, count, one_if, Shape, Ordered}

module _ (key : Ptr → ℕ) where
  -- `x` in the place of the root, and then of the child with the least key, while that is below it.
  unfoldable pub sink : Ptr → Tree → Tree
  sink x leaf = leaf
  sink x (node a leaf r) = node x leaf r
  sink x (node a (node b bl br) leaf) =
      let left = sink x (node b bl br) in
      if ltb (key b) (key x) then node b left leaf else node x (node b bl br) leaf
  sink x (node a (node b bl br) (node c cl cr)) =
      let left = sink x (node b bl br) in
      let right = sink x (node c cl cr) in
      if ltb (key c) (key b)
      then if ltb (key c) (key x)
        then node c (node b bl br) right
        else node x (node b bl br) (node c cl cr)
      else if ltb (key b) (key x)
      then node b left (node c cl cr)
      else node x (node b bl br) (node c cl cr)

  pub sink-Shape : (v n : ℕ) (x : Ptr) (t : Tree) → Shape v n t → Shape v n (sink x t)
  unfolding sink
  sink-Shape v n x leaf s = s
  sink-Shape v n x (node a leaf r) s = s
  sink-Shape v n x (node a (node b bl br) leaf) s = elim (Bool-cases (ltb (key b) (key x))) [
    | inl lt ↦ rw lt (s.0, sink-Shape (2 * v + 0) n x (node b bl br) s.1, s.2)
    | inr ge ↦ rw ge s
  ]
  sink-Shape v n x (node a (node b bl br) (node c cl cr)) s =
      elim (Bool-cases (ltb (key c) (key b))) [
        | inl smaller ↦ elim (Bool-cases (ltb (key c) (key x))) [
          | inl lt ↦ rw (smaller, lt) (s.0, s.1, sink-Shape (2 * v + 1) n x (node c cl cr) s.2)
          | inr ge ↦ rw (smaller, ge) s
        ]
        | inr greater ↦ elim (Bool-cases (ltb (key b) (key x))) [
          | inl lt ↦ rw (greater, lt) (s.0, sink-Shape (2 * v + 0) n x (node b bl br) s.1, s.2)
          | inr ge ↦ rw (greater, ge) s
        ]
      ]

  abbrev Counted : (y x : Ptr) → Tree → Type 0
  Counted y x leaf = Unit
  Counted y x (node a l r) =
      one_if (y == a) + count y (sink x (node a l r)) ≡ one_if (y == x) + count y (node a l r)

  -- The sinking node replaces the root in the contents.
  pub count-sink : (y x : Ptr) (t : Tree) → Counted y x t
  unfolding sink
  count-sink y x leaf = tt
  count-sink y x (node a leaf r) = omega arith
  count-sink y x (node a (node b bl br) leaf) = elim (Bool-cases (ltb (key b) (key x))) [
    | inl lt ↦ rw lt (omega (arith, count-sink y x (node b bl br)))
    | inr ge ↦ rw ge (omega arith)
  ]
  count-sink y x (node a (node b bl br) (node c cl cr)) = elim (Bool-cases (ltb (key c) (key b))) [
    | inl smaller ↦ elim (Bool-cases (ltb (key c) (key x))) [
      | inl lt ↦ rw (smaller, lt) (omega (arith, count-sink y x (node c cl cr)))
      | inr ge ↦ rw (smaller, ge) (omega arith)
    ]
    | inr greater ↦ elim (Bool-cases (ltb (key b) (key x))) [
      | inl lt ↦ rw (greater, lt) (omega (arith, count-sink y x (node b bl br)))
      | inr ge ↦ rw (greater, ge) (omega arith)
    ]
  ]

  -- both trees below the root are ordered
  abbrev pub Below : ℕ → Tree → Type 0
  Below m leaf = Unit
  Below m (node a l r) = Ordered key m l × Ordered key m r

  -- A node above two ordered trees sinks to an ordered tree.
  pub sink-Ordered :
      (m v n : ℕ) (x : Ptr) (t : Tree)
      → m ≤ key x
      → Shape v n t
      → Below m t
      → Ordered key m (sink x t)
  unfolding sink
  sink-Ordered m v n x leaf h s o = tt
  sink-Ordered m v n x (node a leaf leaf) h s o = (h, tt, tt)
  sink-Ordered m v n x (node a leaf (node c cl cr)) h s o = absurd (omega (arith, s.1, s.2.0))
  sink-Ordered m v n x (node a (node b bl br) leaf) h s o =
      elim (Bool-cases (ltb (key b) (key x))) [
        | inl lt ↦ rw lt (
          o.0.0,
          sink-Ordered (key b) (2 * v + 0) n x (node b bl br) (ground (arith, lt)) s.1
              (o.0.1, o.0.2),
          tt,
        )
        | inr ge ↦ rw ge (h, (ground (arith, ge), o.0.1, o.0.2), tt)
      ]
  sink-Ordered m v n x (node a (node b bl br) (node c cl cr)) h s o =
      elim (Bool-cases (ltb (key c) (key b))) [
        | inl smaller ↦ elim (Bool-cases (ltb (key c) (key x))) [
          | inl lt ↦
              rw (smaller, lt)
                (
                  o.1.0,
                  (ground (arith, smaller), o.0.1, o.0.2),
                  sink-Ordered (key c) (2 * v + 1) n x (node c cl cr) (ground (arith, lt)) s.2
                      (o.1.1, o.1.2),
                )
          | inr ge ↦
              rw (smaller, ge)
                (h, (ground (arith, smaller, ge), o.0.1, o.0.2), (ground (arith, ge), o.1.1, o.1.2))
        ]
        | inr greater ↦ elim (Bool-cases (ltb (key b) (key x))) [
          | inl lt ↦
              rw (greater, lt)
                (
                  o.0.0,
                  sink-Ordered (key b) (2 * v + 0) n x (node b bl br) (ground (arith, lt)) s.1
                      (o.0.1, o.0.2),
                  (ground (arith, greater), o.1.1, o.1.2),
                )
          | inr ge ↦
              rw (greater, ge)
                (h, (ground (arith, ge), o.0.1, o.0.2), (ground (arith, greater, ge), o.1.1, o.1.2))
        ]
      ]
