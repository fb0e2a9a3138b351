-- ===== src/Heap/Root.antt =====
-- include/__ngr/__core/__intrusive_heap.hpp: `_M_remove` of the root.
use mathlib.Core.Path.{subst}
use model_lib.Base.{
  ℕ, zero, suc, ◌+◌, ◌^◌, ◌<◌, ◌≡◌, ◌≢◌, refl, ap, sym, ◌∙◌, Bool, true, Option, some, [], ◌==◌,
  arith, ne→==false, ==-self,
}
use model_lib.Base.Words.{sub64}
use model_lib.Store.{Ptr, null}
use model_lib.Heap.{Heap, of_root, of_left, of_right, write_at, write_prev}
use model_lib.Heap.Trees.{Tree, leaf, node, count, one_if}
use model_lib.Heap.Linked.{Linked, one_self, Linked-frame, count_self, ne_of_count}
use model_lib.Base.Log.{log2, log2_fuel}
use model_lib.Heap.Path.{way}
use model_lib.Heap.Cut.{last, cut, nothing_beyond}
use model_lib.Heap.Detach.{remove_least_leaf-Detached}
use model_lib.Heap.Removal.{remove_least_leaf, heap_down_sink}
use model_lib.Heap.Erase.{remove, remove_member, replace, sink_in}
use model_lib.Heap.Push.{IsHeap}
use model_lib.Heap.Pop.{refill}
use model_lib.Heap.Guard.{remove-guard}

way_first : way 1 ≡ []
unfolding log2 log2_fuel
way_first = refl

last_only : (a : Ptr) (l r : Tree) → last (way 1) (node a l r) ≡ a
unfolding last
last_only a l r = ap (λ bs. last bs (node a l r)) way_first

cut_only : (a : Ptr) (l r : Tree) → cut (way 1) (node a l r) ≡ leaf
unfolding cut
cut_only a l r = ap (λ bs. cut bs (node a l r)) way_first

module _ (key : Ptr → ℕ) where
  -- A removal that returns true: the heap without `a`, which is marked as removed.
  abbrev pub Removed : Ptr → Tree → ℕ → Option (Bool × Heap) → Type 0
  Removed a t m o =
      (g : Heap) × (t' : Tree) × (o ≡ some (true, g))
      × IsHeap key g m t'
      × (g.prev a ≡ null)
      × ((y : Ptr) → one_if (y == a) + count y t' ≡ count y t)

  -- Marking a node outside changes nothing.
  mark-IsHeap :
      (h : Heap) (m : ℕ) (t : Tree) (a : Ptr)
      → IsHeap key h m t
      → count a t ≡ 0
      → IsHeap key (write_prev a null h) m t
  mark-IsHeap h m t a heap out = record {
    linked =
        Linked-frame h (write_prev a null h) null (h.at of_root) t
          (λ y i. record { left = refl; right = refl })
          (λ y i. rw (ne→==false y a (λ e. ne_of_count a y t out i (sym e)))) heap.linked;
    shape = heap.shape;
    order = heap.order;
    distinct = heap.distinct;
    size = heap.size;
  }

  replaced :
      (h g f : Heap) (m : ℕ) (a p : Ptr)
      → h.size ≢ 0
      → remove_least_leaf of_root h.size h ≡ some (p, g)
      → g.prev a ≡ null
      → a ≢ null
      → p ≢ null
      → p ≢ a
      → sub64 h.size 1 ≡ m
      → heap_down_sink key p of_root null
          (record (write_at of_root p (
            write_at
              (of_left p)
              (g.at (of_left a))
              (write_at (of_right p) (g.at (of_right a)) g))) { size = m })
        ≡ some (tt, f)
      → f.at of_root ≢ null
      → remove_member key a a h ≡ some (true, write_prev a null (write_prev (f.at of_root) null f))
  unfolding remove_member replace sink_in
  replaced h g f m a p some_left took back na np apart fewer sank there =
      let a_there = ne→==false a null na in
      let p_there = ne→==false p null np in
      rw
        (
          a_there,
          ne→==false h.size 0 some_left,
          took,
          fewer,
          ne→==false p a apart,
          a_there,
          p_there,
          a_there,
          p_there,
          a_there,
          back,
          sank,
          ne→==false (f.at of_root) null there,
          a_there,
        )
        refl

  -- The root is the last leaf too.
  only :
      (h g : Heap) (m : ℕ) (a : Ptr)
      → h.size ≢ 0
      → remove_least_leaf of_root h.size h ≡ some (a, g)
      → a ≢ null
      → sub64 h.size 1 ≡ m
      → remove_member key a a h ≡ some (true, write_prev a null (record g { size = m }))
  unfolding remove_member
  only h g m a some_left took na fewer =
      rw
        (
          ne→==false a null na,
          ne→==false h.size 0 some_left,
          took,
          fewer,
          ==-self a,
          ne→==false a null na,
        )
        refl

  at_root :
      (h : Heap) (m : ℕ) (a : Ptr) (l r : Tree)
      → IsHeap key h (suc m) (node a l r)
      → m + 2 < 2 ^ 64
      → Removed a (node a l r) m (remove_member key a a h)
  at_root h zero a l r heap room =
      let (g, took, linked, within, prevs) =
        remove_least_leaf-Detached h 0 (node a l r) (omega arith) heap.shape heap.distinct
          heap.linked in
      let took' =
        subst (λ n. remove_least_leaf of_root n h ≡ some (a, g)) (sym heap.size)
          (subst (λ p. remove_least_leaf of_root 1 h ≡ some (p, g)) (last_only a l r) took) in
      let fewer : sub64 h.size 1 ≡ 0 = ap (λ n. sub64 n 1) heap.size in
      (
        write_prev a null (record g { size = 0 }),
        leaf,
        only h g 0 a (λ e. absurd (omega (arith, e, heap.size))) took' heap.linked.1 fewer,
        record {
          linked = subst (Linked g null (g.at of_root)) (cut_only a l r) linked;
          shape = omega arith;
          order = tt;
          distinct = λ y. omega arith;
          size = refl;
        },
        rw (==-self a),
        (λ y. omega (
          arith,
          nothing_beyond 2 1 y l (omega arith) heap.shape.1,
          nothing_beyond 3 1 y r (omega arith) heap.shape.2,
        )),
      )
  at_root h (suc m) a l r heap room =
      let (g, p, f, t', took, top, back, np, apart, sank, there, done, total) =
        refill key h (suc m) a l r heap (omega arith) room in
      let took' = subst (λ n. remove_least_leaf of_root n h ≡ some (p, g)) (sym heap.size) took in
      let fewer : sub64 h.size 1 ≡ suc m = ap (λ n. sub64 n 1) heap.size ∙ omega arith in
      (
        write_prev a null (write_prev (f.at of_root) null f),
        t',
        replaced h g f (suc m) a p (λ e. absurd (omega (arith, e, heap.size))) took' back
            heap.linked.1 np apart fewer sank there,
        mark-IsHeap (write_prev (f.at of_root) null f) (suc m) t' a done
            (omega (arith, total a, one_self a, heap.distinct a)),
        rw (==-self a),
        total,
      )

  -- On a heap of m + 1 nodes, with m + 2 < 2 ^ 64, `_M_remove` of the root does not fault and returns
  -- true; what is left is a heap of m nodes, the same but for the root, whose `_Prev` is null.
  pub remove-root :
      (h : Heap) (m : ℕ) (a : Ptr) (l r : Tree)
      → IsHeap key h (suc m) (node a l r)
      → m + 2 < 2 ^ 64
      → Removed a (node a l r) m (remove key a h)
  remove-root h m a l r heap room =
      let enter =
        (remove-guard key h (suc m) (node a l r) a heap heap.linked.1).0 (count_self a l r) in
      let whole = enter ∙ ap (λ p. remove_member key a p h) heap.linked.0 in
      subst (Removed a (node a l r) m) (sym whole) (at_root h m a l r heap room)
