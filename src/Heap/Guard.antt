-- ===== src/Heap/Guard.antt =====
-- include/__ngr/__core/__intrusive_heap.hpp: the test with which `_M_remove` begins.
use model_lib.Base.{
  dec_lt, ℕ, ◌≤◌, ◌≡◌, ◌≢◌, refl, ap, sym, ◌∙◌, Bool, true, false, ◌&&◌, not, some, ◌==◌, arith,
  ne→==false, ==_iff, Bool-cases, inl, inr,
}
use model_lib.Store.{Ptr, null}
use model_lib.Heap.{Heap, of_root, of_left, of_right}
use model_lib.Heap.Trees.{Tree, leaf, node, count, one_if}
use model_lib.Heap.Linked.{Linked, outside-root}
use model_lib.Heap.Push.{IsHeap}
use model_lib.Heap.Erase.{remove, remove_member}

-- The parent of a child.
child_parent :
    (h : Heap) (a u b : Ptr) (t : Tree)
    → Linked h a u t
    → 1 ≤ count b t
    → a ≢ null
    → (b ≢ u → h.prev b ≢ null)
    → h.prev b ≢ null
child_parent h a u b leaf k i na deeper = absurd (omega arith)
child_parent h a u b (node c l r) k i na deeper = elim (Bool-cases (b == u)) [
  | inl e ↦ λ z. na (sym k.2 ∙ ap h.prev (sym ((==_iff b u).0 e ∙ k.0)) ∙ z)
  | inr off ↦ deeper (not_same b u off)
]
  where
    not_same : (b u : ℕ) → (b == u) ≡ false → b ≢ u
    not_same b u off e = ground arith

-- A node below the root has a parent.
has_parent :
    (h : Heap) (q p b : Ptr) (t : Tree) → Linked h q p t → 1 ≤ count b t → b ≢ p → h.prev b ≢ null
has_parent h q p b leaf k i ne = absurd (omega arith)
has_parent h q p b (node a l r) k i ne = elim (Bool-cases (b == a)) [
  | inl e ↦ absurd (ne ((==_iff b a).0 e ∙ sym k.0))
  | inr off ↦ elim (dec_lt 0 (count b l)) [
    | yes on_left ↦
        child_parent h a (h.at (of_left a)) b l k.3 on_left k.1
          (has_parent h a (h.at (of_left a)) b l k.3 on_left)
    | no off_left ↦
        let on_right : 1 ≤ count b r = omega (arith, i, off_left, ap one_if off) in
        child_parent h a (h.at (of_right a)) b r k.4 on_right k.1
          (has_parent h a (h.at (of_right a)) b r k.4 on_right)
  ]
]

by_root : (b : Bool) → (b && false) ≡ false
by_root true = refl
by_root false = refl

module _ (key : Ptr → ℕ) where
  enters :
      (h : Heap) (x : Ptr)
      → x ≢ null
      → ((h.prev x == null) && not (x == h.at of_root)) ≡ false
      → remove key x h ≡ remove_member key x (h.at of_root) h
  unfolding remove
  enters h x nx test = rw (ne→==false x null nx, test) refl

  refuses :
      (h : Heap) (x : Ptr)
      → x ≢ null
      → h.prev x ≡ null
      → x ≢ h.at of_root
      → remove key x h ≡ some (false, h)
  unfolding remove
  refuses h x nx back off = rw (ne→==false x null nx, back, ne→==false x (h.at of_root) off) refl

  -- On a heap, the test of `_M_remove` lets every node of the heap through; a node that is not null and
  -- not in the heap, and whose `_Prev` is null, is refused: the result is false, and the heap is as it was.
  pub remove-guard :
      (h : Heap) (n : ℕ) (t : Tree) (x : Ptr)
      → IsHeap key h n t
      → x ≢ null
      → (1 ≤ count x t → remove key x h ≡ remove_member key x (h.at of_root) h)
        × (count x t ≡ 0 → h.prev x ≡ null → remove key x h ≡ some (false, h))
  remove-guard h n t x heap nx = (member, outsider)
    where
      member : 1 ≤ count x t → remove key x h ≡ remove_member key x (h.at of_root) h
      member i = enters h x nx (elim (Bool-cases (x == h.at of_root)) [
        | inl e ↦ rw e (by_root (h.prev x == null))
        | inr off ↦
            rw
              (ne→==false (h.prev x) null (
                has_parent h null (h.at of_root) x t heap.linked i
                  (λ e. absurd (ground (arith, off)))))
              refl
      ])

      outsider : count x t ≡ 0 → h.prev x ≡ null → remove key x h ≡ some (false, h)
      outsider o back =
          refuses h x nx back (λ e. nx (e ∙ outside-root h null (h.at of_root) x t heap.linked o e))
