-- ===== src/Heap/Pop.antt =====
-- include/__ngr/__core/__intrusive_heap.hpp: `_M_pop` takes the root.
use mathlib.Core.Path.{subst}
use model_lib.Base.{
  ℕ, zero, suc, ◌+◌, ◌^◌, ◌≤◌, ◌<◌, ◌≡◌, ◌≢◌, refl, ap, sym, ◌∙◌, Bool, true, false, some, Option,
  List, [], ◌∷◌, ◌==◌, leb, arith, ==-self, ne→==false,
}
use model_lib.Base.Words.{sub64}
use model_lib.Store.{Ptr, null}
use model_lib.Heap.{Heap, of_root, of_left, of_right, write_at, write_prev}
use model_lib.Heap.Removal.{pop, replace_root, heap_down_sink, remove_least_leaf}
use model_lib.Heap.Trees.{Tree, leaf, node, count, one_if, Shape, Ordered, Ordered-weaken, goes_to}
use model_lib.Heap.Linked.{
  count_self, one_self, Linked, Distinct, Linked-frame, Linked-rebase, null_outside, ne_of_count,
}
use model_lib.Heap.Descend.{within-ne}
use model_lib.Heap.Cut.{member-ge, last, cut, cut-Shape, count-cut, cut-Ordered, nothing_beyond}
use model_lib.Heap.Within.{Within}
use model_lib.Heap.Detach.{remove_least_leaf-Detached}
use model_lib.Heap.Sink.{sink, sink-Shape, count-sink, sink-Ordered}
use model_lib.Heap.Seat.{Sunk, Above}
use model_lib.Heap.Sinking.{sink_loop-Sunk}
use model_lib.Heap.Path.{way, goes_to-way}
use model_lib.Heap.Push.{IsHeap}

-- A cut past the root leaves the root.
cut_root :
    (bs : List Bool) (a : Ptr) (l r : Tree)
    → goes_to 1 bs ≢ 1
    → (l' : Tree) × (r' : Tree) × (cut bs (node a l r) ≡ node a l' r')
unfolding cut
cut_root [] a l r ne = absurd (ne refl)
cut_root (true ∷ bs) a l r ne = (l, cut bs r, refl)
cut_root (false ∷ bs) a l r ne = (cut bs l, r, refl)

module _ (key : Ptr → ℕ) where
  heap_down_sink-Sunk :
      (n : ℕ) (x : Ptr) (l r : Tree) (s parent : Ptr) (h : Heap)
      → n < 2 ^ 65
      → Shape 1 n (node x l r)
      → Above key x l r of_root s h
      → Sunk key x l r of_root s parent h (heap_down_sink key x of_root parent h)
  unfolding heap_down_sink
  heap_down_sink-Sunk n x l r s parent h deep shape above =
      rw (ne→==false x null above.there, ne→==false x null above.there)
        (sink_loop-Sunk key 65 1 n x l r of_root s parent h (omega (arith, deep)) shape above)

  -- The last leaf `p` moves to the root.
  module _ (h g : Heap) (m : ℕ) (a p : Ptr) (l r l' r' : Tree) (distinct : Distinct (node a l r))
      (linked : Linked g null (g.at of_root) (node a l' r')) (shape : Shape 1 m (node a l' r'))
      (counts : (y : Ptr) → one_if (y == p) + count y (node a l' r') ≡ count y (node a l r))
      (p_there : p ≢ null) where
    abbrev pub moved : Heap
    moved =
        record (write_at of_root p
          (write_at (of_left p) (g.at (of_left a)) (write_at (of_right p) (g.at (of_right a)) g))) {
            size = m;
          }

    p_out : count p l' + count p r' ≡ 0
    p_out = omega (arith, counts p, distinct p, one_self p)

    moved-Linked : (q u : Ptr) (t : Tree) → count p t ≡ 0 → Linked g q u t → Linked moved q u t
    moved-Linked q u t o k =
        Linked-frame g moved q u t
          (λ y i.
            let ne = ne→==false y p (λ e. ne_of_count p y t o i (sym e)) in
            record { left = rw ne; right = rw ne })
          (λ y i. refl) k

    moved-Above : Above key p l' r' of_root a moved
    moved-Above = record {
      distinct = λ y. omega (arith, counts y, distinct y);
      there = p_there;
      writable = refl;
      outside = refl;
      top = refl;
      left = rw (==-self p) (moved-Linked a (g.at (of_left a)) l' (omega (arith, p_out)) linked.3);
      right =
          rw (==-self p) (moved-Linked a (g.at (of_right a)) r' (omega (arith, p_out)) linked.4);
    }

    pub moved-heap :
        (f : Heap)
        → 1 ≤ m
        → Ordered key 0 (node a l' r')
        → Linked f (f.prev (f.at of_root)) (f.at of_root) (sink key p (node p l' r'))
        → Within of_root (node p l' r') moved f
        → (f.at of_root ≢ null)
          × IsHeap key (write_prev (f.at of_root) null f) m (sink key p (node p l' r'))
          × ((y : Ptr)
              → one_if (y == a) + count y (sink key p (node p l' r')) ≡ count y (node a l r))
    moved-heap f many order final within =
        let whole = sink-Shape key 1 m p (node p l' r') shape in
        let total : (y : Ptr)
            → one_if (y == a) + count y (sink key p (node p l' r')) ≡ count y (node a l r) =
          λ y. omega (arith, counts y, count-sink key y p (node p l' r')) in
        let once : Distinct (sink key p (node p l' r')) = λ y. omega (arith, total y, distinct y) in
        let there =
          within-ne f (f.prev (f.at of_root)) (f.at of_root) 1 m (sink key p (node p l' r')) many
            whole final in
        (
          there,
          record {
            linked =
                Linked-rebase f (write_prev (f.at of_root) null f) (f.prev (f.at of_root)) null
                  (f.at of_root) (sink key p (node p l' r')) once
                  (λ y i. record { left = refl; right = refl }) (λ _. rw (==-self (f.at of_root)))
                  (λ y i ne. rw (ne→==false y (f.at of_root) ne)) final;
            shape = whole;
            order = sink-Ordered key 0 1 m p (node p l' r') (omega arith) shape (
              Ordered-weaken key 0 (key a) l' (omega arith) order.1,
              Ordered-weaken key 0 (key a) r' (omega arith) order.2,
            );
            distinct = once;
            size = within.size;
          },
          total,
        )

  -- What popping gives.
  abbrev pub Popped : Ptr → Tree → ℕ → Option (Unit {0} × Heap) → Type 0
  Popped a t m o =
      (g : Heap) × (t' : Tree) × (o ≡ some (tt, g))
      × IsHeap key g m t'
      × ((y : Ptr) → one_if (y == a) + count y t' ≡ count y t)

  replace_run :
      (h g f : Heap) (n m : ℕ) (a p : Ptr)
      → h.at of_root ≢ null
      → remove_least_leaf of_root n h ≡ some (p, g)
      → g.at of_root ≡ a
      → a ≢ null
      → p ≢ null
      → sub64 n 1 ≡ m
      → heap_down_sink key p of_root null
          (record (write_at of_root p (
            write_at
              (of_left p)
              (g.at (of_left a))
              (write_at (of_right p) (g.at (of_right a)) g))) { size = m })
        ≡ some (tt, f)
      → f.at of_root ≢ null
      → replace_root key n h ≡ some (tt, write_prev (f.at of_root) null f)
  unfolding replace_root
  replace_run h g f n m a p nr took top na np fewer sank there =
      let a_there = ne→==false a null na in
      let p_there = ne→==false p null np in
      rw
        (
          ne→==false (h.at of_root) null nr,
          took,
          top,
          a_there,
          p_there,
          a_there,
          p_there,
          fewer,
          sank,
          ne→==false (f.at of_root) null there,
        )
        refl

  -- The last leaf taken off, put in the place of the root, and sunk.
  abbrev pub Refilled : Heap → ℕ → Ptr → Tree → Type 0
  Refilled h m a t =
      (g : Heap) × (p : Ptr) × (f : Heap) × (t' : Tree) × (remove_least_leaf of_root (suc m) h
        ≡ some (p, g))
      × (g.at of_root ≡ a)
      × (g.prev a ≡ null)
      × (p ≢ null)
      × (p ≢ a)
      × (heap_down_sink key p of_root null
            (record (write_at of_root p (
              write_at (of_left p) (g.at (of_left a))
                (write_at (of_right p) (g.at (of_right a)) g))) { size = m })
          ≡ some (tt, f))
      × (f.at of_root ≢ null)
      × IsHeap key (write_prev (f.at of_root) null f) m t'
      × ((y : Ptr) → one_if (y == a) + count y t' ≡ count y t)

  pub refill :
      (h : Heap) (m : ℕ) (a : Ptr) (l r : Tree)
      → IsHeap key h (suc m) (node a l r)
      → 1 ≤ m
      → m + 2 < 2 ^ 64
      → Refilled h m a (node a l r)
  refill h m a l r heap many room =
      let bs = way (suc m) in
      let leads : goes_to 1 bs ≡ suc m = goes_to-way (suc m) (omega arith) (omega arith) in
      let (g, took, cut_linked, cut_within, prevs) =
        remove_least_leaf-Detached h m (node a l r) (omega arith) heap.shape heap.distinct
          heap.linked in
      let (l', r', shorter) = cut_root bs a l r (λ e. absurd (omega (arith, leads, e))) in
      let p = last bs (node a l r) in
      let counts : (y : Ptr) → one_if (y == p) + count y (node a l' r') ≡ count y (node a l r) =
        λ y.
          subst (λ t. one_if (y == p) + count y t ≡ count y (node a l r)) shorter
            (count-cut 1 m y bs (node a l r) (omega arith) heap.shape leads) in
      let linked = subst (Linked g null (g.at of_root)) shorter cut_linked in
      let shape =
        subst (Shape 1 m) shorter (cut-Shape 1 m bs (node a l r) (omega arith) heap.shape leads) in
      let order = subst (Ordered key 0) shorter (cut-Ordered key 0 bs (node a l r) heap.order) in
      let p_there : p ≢ null = λ e. absurd (
        omega (
          arith,
          counts p,
          one_self p,
          null_outside h null (h.at of_root) (node a l r) heap.linked,
          ap (λ z. count z (node a l r)) e,
        )) in
      let above = moved-Above h g m a p l r l' r' heap.distinct linked shape counts p_there in
      let (f, sank, final, same, within) =
        heap_down_sink-Sunk m p l' r' a null
          (moved h g m a p l r l' r' heap.distinct linked shape counts p_there) (omega arith) shape
          above in
      let (there, done, total) =
        moved-heap h g m a p l r l' r' heap.distinct linked shape counts p_there f many order final
          within in
      let p-a : p ≢ a = λ e. absurd (
        omega (
          arith,
          counts p,
          heap.distinct p,
          count_self a l' r',
          one_self p,
          ap (λ z. count z (node a l' r')) e,
        )) in
      (
        g,
        p,
        f,
        sink key p (node p l' r'),
        took,
        linked.0,
        linked.2,
        p_there,
        p-a,
        sank,
        there,
        done,
        total,
      )

  replace_root-Popped :
      (h : Heap) (m : ℕ) (a : Ptr) (l r : Tree)
      → IsHeap key h (suc m) (node a l r)
      → 1 ≤ m
      → m + 2 < 2 ^ 64
      → Popped a (node a l r) m (replace_root key (suc m) h)
  replace_root-Popped h m a l r heap many room =
      let (g, p, f, t', took, top, back, p_there, p-a, sank, there, done, total) =
        refill h m a l r heap many room in
      let run : replace_root key (suc m) h ≡ some (tt, write_prev (f.at of_root) null f) =
        replace_run h g f (suc m) m a p (λ e. heap.linked.1 (sym heap.linked.0 ∙ e)) took top
          heap.linked.1 p_there (omega arith) sank there in
      (write_prev (f.at of_root) null f, t', run, done, total)

  -- One node is left: it goes, and the heap is empty.
  pop_one :
      (h : Heap) (a : Ptr) (l r : Tree)
      → IsHeap key h 1 (node a l r)
      → Popped a (node a l r) 0 (pop key h)
  unfolding pop
  pop_one h a l r heap = (
    record (write_at of_root null h) { size = 0 },
    leaf,
    rw heap.size refl,
    record {
      linked = refl;
      shape = omega arith;
      order = tt;
      distinct = λ y. omega arith;
      size = refl;
    },
    λ y. omega (
      arith,
      nothing_beyond 2 1 y l (omega arith) heap.shape.1,
      nothing_beyond 3 1 y r (omega arith) heap.shape.2,
    ),
  )

  pop_more : (h : Heap) (m : ℕ) → h.size ≡ suc m → 1 ≤ m → pop key h ≡ replace_root key (suc m) h
  unfolding pop
  pop_more h m size many = let more : leb (suc m) 1 ≡ false = ground arith in rw (size, more) refl

  pop-Popped :
      (h : Heap) (m : ℕ) (a : Ptr) (l r : Tree)
      → IsHeap key h (suc m) (node a l r)
      → m + 2 < 2 ^ 64
      → Popped a (node a l r) m (pop key h)
  pop-Popped h zero a l r heap room = pop_one h a l r heap
  pop-Popped h (suc m) a l r heap room =
      subst (Popped a (node a l r) (suc m)) (sym (pop_more h (suc m) heap.size (omega arith)))
        (replace_root-Popped h (suc m) a l r heap (omega arith) room)

  -- On a heap of m + 1 nodes, with m + 2 < 2 ^ 64 and the root `a`, `_M_pop` does not fault; no key of
  -- the heap is below the key of `a`; what is left is a heap of m nodes, the same but for `a`.
  pub pop-removes :
      (h : Heap) (m : ℕ) (a : Ptr) (l r : Tree)
      → IsHeap key h (suc m) (node a l r)
      → m + 2 < 2 ^ 64
      → (h.at of_root ≡ a)
        × ((y : Ptr) → 1 ≤ count y (node a l r) → key a ≤ key y)
        × Popped a (node a l r) m (pop key h)
  pop-removes h m a l r heap room = (
    heap.linked.0,
    (λ y i. member-ge key (key a) y (node a l r) (omega arith, heap.order.1, heap.order.2) i),
    pop-Popped h m a l r heap room,
  )
