-- ===== src/Heap/Erase.antt =====
-- include/__ngr/__core/__intrusive_heap.hpp: `_M_remove` and what it calls.
use model_lib.Base.{ℕ, zero, suc, Bool, true, false, ◌&&◌, not, ◌==◌, ltb, if◌then◌else◌}
use model_lib.Base.Words.{sub64}
use model_lib.Store.{Ptr, null}
use model_lib.Heap.{
  Slot, of_root, of_left, of_right, Cmd, pure, fault, ◌>>=◌, ◌>>◌, get, put, get_prev, put_prev,
  get_size, put_size, assert,
}
use model_lib.Heap.Removal.{
  put_back, swap_with_right_child, swap_with_left_child, remove_least_leaf, heap_down_sink,
}

-- The rest of the rounds of `__heap_up_percolate`, past the first write.
module _ (key : Ptr → ℕ) where
  unfoldable pub percolate_loop : ℕ → (p parent grand px : Ptr) → Cmd (Unit {0})
  percolate_loop zero p parent grand px = fault
  percolate_loop (suc fuel) p parent grand px = do
    put_back px parent
    right ← get (of_right parent)
    beside ← get (if right == p then of_left parent else of_right parent)
    assert (not (beside == null))
    if right == p then swap_with_right_child parent p else swap_with_left_child parent p
    above ← get (of_right grand)
    put (if above == parent then of_right grand else of_left grand) p
    up ← get_prev grand
    let rest = percolate_loop fuel p grand up beside
    if ltb (key p) (key grand)
        then rest
        else put_back beside p >> put_prev parent p >> put_prev p grand

  -- `__heap_up_percolate`
  unfoldable pub heap_up_percolate : (p parent : Ptr) → Cmd (Unit {0})
  heap_up_percolate p parent = do
    left ← get (of_left p)
    right ← get (of_right p)
    put_back right parent
    grand ← get_prev parent
    percolate_loop 65 p parent grand left

  -- `_M_remove` where `p` sinks from the place of `node`
  unfoldable pub sink_in : (node p : Ptr) → (pp : Slot) → (parent : Ptr) → Cmd Bool
  sink_in node p pp parent = do
    heap_down_sink key p pp parent
    here ← get pp
    put_prev here parent
    put_prev node null
    pure true

  -- `_M_remove` where `p` takes the place of `node` under `parent`
  unfoldable pub replace_below : (node p parent : Ptr) → Cmd Bool
  replace_below node p parent = do
    right ← get (of_right parent)
    let pp = if right == node then of_right parent else of_left parent
    put pp p
    if ltb (key p) (key parent)
        then heap_up_percolate p parent >> put_prev node null >> pure true
        else sink_in node p pp parent

  -- `_M_remove` where `p`, which was the last leaf, takes the place of `node`
  unfoldable pub replace : (node p : Ptr) → Cmd Bool
  replace node p = do
    right ← get (of_right node)
    put (of_right p) right
    left ← get (of_left node)
    put (of_left p) left
    parent ← get_prev node
    if parent == null
        then put of_root p >> sink_in node p of_root parent
        else replace_below node p parent

  -- `_M_remove` of a node that may be in the heap
  unfoldable pub remove_member : (node root : Ptr) → Cmd Bool
  remove_member node root = do
    n ← get_size
    assert (not (root == null))
    assert (not (n == 0))
    p ← remove_least_leaf of_root n
    put_size (sub64 n 1)
    if p == node then put_prev node null >> pure true else replace node p

  -- `_M_remove`
  unfoldable pub remove : Ptr → Cmd Bool
  remove node = do
    back ← get_prev node
    root ← get of_root
    if (back == null) && not (node == root) then pure false else remove_member node root
