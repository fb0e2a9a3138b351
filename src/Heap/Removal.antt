-- ===== src/Heap/Removal.antt =====
-- include/__ngr/__core/__intrusive_heap.hpp: `_M_pop` and what it calls.
use model_lib.Base.{ℕ, zero, suc, ◌/◌, ◌&&◌, not, ◌==◌, ltb, leb, if◌then◌else◌}
use model_lib.Base.Words.{sub64}
use model_lib.Store.{Ptr, null}
use model_lib.Heap.{
  Slot, of_root, of_left, of_right, Cmd, pure, fault, ◌>>=◌, ◌>>◌, get, put, put_prev, get_size,
  put_size, assert, when, path_bit_mask, turns_right, child_slot,
}

-- `__swap_with_right_child`
unfoldable pub swap_with_right_child : (parent child : Ptr) → Cmd (Unit {0})
swap_with_right_child parent child = do
  right ← get (of_right child)
  put (of_right parent) right
  put (of_right child) parent
  tmp ← get (of_left parent)
  left ← get (of_left child)
  put (of_left parent) left
  put (of_left child) tmp

-- `__swap_with_left_child`
unfoldable pub swap_with_left_child : (parent child : Ptr) → Cmd (Unit {0})
swap_with_left_child parent child = do
  tmp ← get (of_right parent)
  right ← get (of_right child)
  put (of_right parent) right
  put (of_right child) tmp
  left ← get (of_left child)
  put (of_left parent) left
  put (of_left child) parent

-- a write through a pointer to a node's `_Prev`, or to the sentinel where there is no node
abbrev pub put_back : Ptr → Ptr → Cmd (Unit {0})
put_back p v = when (not (p == null)) (put_prev p v)

-- The loop of `__remove_least_leaf`: down the turns, and the last slot is cleared.
unfoldable pub leaf_loop : ℕ → (mask path : ℕ) → (p : Ptr) → (pp : Slot) → Cmd Ptr
leaf_loop zero mask path p pp = fault
leaf_loop (suc fuel) mask path p pp =
    let down = do
      next ← get (child_slot (turns_right mask path) p)
      leaf_loop fuel (mask / 2) path next (child_slot (turns_right mask path) p)
    in let here = (put pp null >> pure p) in if mask == 0 then here else down

unfoldable pub remove_least_leaf : (pp : Slot) → (path : ℕ) → Cmd Ptr
remove_least_leaf pp path = do p ← get pp; leaf_loop 65 (path_bit_mask path) path p pp

-- A round of the loop: the right child comes up.
unfoldable pub raise_right : (p : Ptr) → (pp : Slot) → (r l : Ptr) → Cmd (Unit {0})
raise_right p pp r l = do swap_with_right_child p r; put_prev l r; put pp r

unfoldable pub raise_left : (p : Ptr) → (pp : Slot) → (r l : Ptr) → Cmd (Unit {0})
raise_left p pp r l = do swap_with_left_child p l; put_back r l; put pp l

module _ (key : Ptr → ℕ) where
  -- The rounds of `__heap_down_sink`, from the children of `p`.
  unfoldable pub sink_loop : ℕ → (p : Ptr) → (pp : Slot) → (parent r l : Ptr) → Cmd (Unit {0})
  sink_loop zero p pp parent r l = fault
  sink_loop (suc fuel) p pp parent r l =
      let right = do
        raise_right p pp r l
        l' ← get (of_left p)
        r' ← get (of_right p)
        sink_loop fuel p (of_right r) r r' l'
      in let left = do
        raise_left p pp r l
        l' ← get (of_left p)
        r' ← get (of_right p)
        sink_loop fuel p (of_left l) l r' l'
        in let both = (put_prev r p >> put_prev l p >> put_prev p parent) in
          let keep = (put_back r p >> put_prev l p >> put_prev p parent) in
          if l == null
          then put_prev p parent
          else if not (r == null) && ltb (key r) (key l)
          then if ltb (key r) (key p) then right else both
          else if ltb (key l) (key p)
          then left
          else keep

  -- `__heap_down_sink`
  unfoldable pub heap_down_sink : (p : Ptr) → (pp : Slot) → (parent : Ptr) → Cmd (Unit {0})
  heap_down_sink p pp parent = do
    r ← get (of_right p)
    l ← get (of_left p)
    sink_loop 65 p pp parent r l

  -- `_M_pop` where there is more than one node
  unfoldable pub replace_root : ℕ → Cmd (Unit {0})
  replace_root n = do
    root ← get of_root
    assert (not (root == null))
    p ← remove_least_leaf of_root n
    top ← get of_root
    right ← get (of_right top)
    put (of_right p) right
    left ← get (of_left top)
    put (of_left p) left
    put of_root p
    put_size (sub64 n 1)
    heap_down_sink p of_root null
    first ← get of_root
    put_prev first null

  -- `_M_pop`
  unfoldable pub pop : Cmd (Unit {0})
  pop = do n ← get_size; if leb n 1 then put of_root null >> put_size 0 else replace_root n
