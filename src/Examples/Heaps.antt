-- ===== src/Examples/Heaps.antt =====
-- include/__ngr/__core/__intrusive_heap.hpp: heaps of a few timers.
use model_lib.Base.{ℕ, ◌+◌, ◌==◌, ◌≤◌, ◌≡◌, refl, some, arith, if◌then◌else◌}
use model_lib.Store.{Ptr, null}
use model_lib.Heap.{Heap, Slot, of_root, of_left, of_right, push}
use model_lib.Heap.Trees.{Tree, leaf, node, count, one_if, insert}
use model_lib.Heap.Linked.{Distinct}
use model_lib.Heap.Path.{way}
use model_lib.Heap.Removal.{pop}
use model_lib.Heap.Push.{IsHeap, push-insert}
use model_lib.Heap.Pop.{Popped, pop-removes}

abbrev pub by_address : Ptr → ℕ
by_address p = p

-- 2 above 5
abbrev two_links : Slot → Ptr
two_links of_root = 2
two_links (of_left a) = if a == 2 then 5 else null
two_links (of_right a) = null

abbrev pub two_timers : Heap
two_timers = record { at = two_links; prev = λ a. if a == 5 then 2 else null; size = 2 }

abbrev pub two_tree : Tree
two_tree = node 2 (node 5 leaf leaf) leaf

two_apart : Distinct two_tree
two_apart b = ground arith

pub two_timers-IsHeap : IsHeap by_address two_timers 2 two_tree
two_timers-IsHeap = record {
  linked = (
    refl,
    (λ e. absurd (omega (arith, e))),
    refl,
    (refl, (λ e. absurd (omega (arith, e))), refl, refl, refl),
    refl,
  );
  shape = (omega arith, (omega arith, omega arith, omega arith), omega arith);
  order = (omega arith, (omega arith, tt, tt), tt);
  distinct = two_apart;
  size = refl;
}

push-insert_example :
    (g : Heap) × (push by_address 1 two_timers ≡ some (tt, g))
    × IsHeap by_address g 3 (insert by_address (way 3) 1 two_tree)
    × ((b : Ptr)
        → count b (insert by_address (way 3) 1 two_tree) ≡ one_if (b == 1) + count b two_tree)
push-insert_example =
    push-insert by_address two_timers 2 two_tree 1 two_timers-IsHeap (omega arith)
      (λ e. absurd (omega (arith, e))) refl

pop-removes_example :
    (two_timers.at of_root ≡ 2)
    × ((y : Ptr) → 1 ≤ count y two_tree → 2 ≤ y)
    × Popped by_address 2 two_tree 1 (pop by_address two_timers)
pop-removes_example =
    pop-removes by_address two_timers 1 2 (node 5 leaf leaf) leaf two_timers-IsHeap (omega arith)
