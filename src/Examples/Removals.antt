-- ===== src/Examples/Removals.antt =====
-- include/__ngr/__core/__intrusive_heap.hpp: a removal below the root, run.
use model_lib.Base.{Bool, List, [], ◌∷◌, Option, none, some, ◌≡◌, refl}
use model_lib.Base.Log.{bit_ceil, log2, log2_fuel}
use model_lib.Store.{Ptr, null}
use model_lib.Heap.{
  Heap, Cmd, pure, ◌>>◌, of_root, of_left, of_right, push, push_loop, displace_loop, displace,
  settle, attach, path_bit_mask,
}
use model_lib.Heap.Removal.{
  remove_least_leaf, leaf_loop, swap_with_left_child, swap_with_right_child, heap_down_sink,
  sink_loop, raise_left, raise_right,
}
use model_lib.Heap.Erase.{
  remove, remove_member, replace, replace_below, sink_in, heap_up_percolate, percolate_loop,
}
use model_lib.Examples.Heaps.{by_address}

abbrev blank : Heap
blank = record { at = λ s. null; prev = λ p. null; size = 0 }

abbrev push_all : List Ptr → Cmd (Unit {0})
push_all [] = pure tt
push_all (p ∷ ps) = push by_address p >> push_all ps

-- the root, and the children of 1, 4 and 2
abbrev links_of : Option (Bool × Heap) → List Ptr
links_of none = []
links_of (some (b, h)) =
    h.at of_root
    ∷ h.at (of_left 1)
    ∷ h.at (of_right 1)
    ∷ h.at (of_left 4)
    ∷ h.at (of_right 4)
    ∷ h.at (of_left 2)
    ∷ h.at (of_right 2)
    ∷ []

-- the parents of 4, 10, 12, 11, 2 and 3
abbrev parents_of : Option (Bool × Heap) → List Ptr
parents_of none = []
parents_of (some (b, h)) = h.prev 4 ∷ h.prev 10 ∷ h.prev 12 ∷ h.prev 11 ∷ h.prev 2 ∷ h.prev 3 ∷ []

abbrev taken_out : Option (Bool × Heap)
taken_out = (push_all (1 ∷ 10 ∷ 2 ∷ 11 ∷ 12 ∷ 3 ∷ 4 ∷ []) >> remove by_address 11) blank

-- The last leaf, 4, takes the place of 11 below 10, and comes up above 10.
links_after : links_of taken_out ≡ 1 ∷ 4 ∷ 2 ∷ 10 ∷ 12 ∷ 3 ∷ null ∷ []
unfolding remove remove_member replace replace_below sink_in heap_up_percolate percolate_loop push
    push_loop displace_loop displace settle attach path_bit_mask bit_ceil log2 log2_fuel
    remove_least_leaf leaf_loop swap_with_left_child swap_with_right_child heap_down_sink sink_loop
    raise_left raise_right
links_after = refl

parents_after : parents_of taken_out ≡ 1 ∷ 4 ∷ 4 ∷ null ∷ 1 ∷ 2 ∷ []
unfolding remove remove_member replace replace_below sink_in heap_up_percolate percolate_loop push
    push_loop displace_loop displace settle attach path_bit_mask bit_ceil log2 log2_fuel
    remove_least_leaf leaf_loop swap_with_left_child swap_with_right_child heap_down_sink sink_loop
    raise_left raise_right
parents_after = refl
