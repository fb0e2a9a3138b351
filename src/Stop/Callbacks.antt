-- ===== src/Stop/Callbacks.antt =====
-- include/__ngr/__core/__stop_inplace.hpp: the callbacks of a stop source, a list linked both ways
-- in which a callback points back at the pointer that points at it. What is modelled here runs with
-- the lock held.
pub mod Order
pub mod Removal
use model_lib.Base.{
  ℕ, zero, suc, Bool, true, false, not, Option, none, some, List, [], ◌∷◌, ◌==◌, if◌then◌else◌,
}
use model_lib.Store.{Ptr, null}

-- The pointer `__callback_` of the source, or the pointer `__next_` of a callback.
pub data Slot : Type 0 where
  of_source : Slot
  of_callback : Ptr → Slot

pub record Callbacks : Type 0 where
  pub first : Ptr
  pub next : Ptr → Ptr
  pub prev : Ptr → Option Slot

-- no callback, and no callback object linked
abbrev pub no_callbacks : Callbacks
no_callbacks = record { first = null; next = λ p. null; prev = λ p. none }

abbrev pub set_prev : Ptr → Option Slot → Callbacks → Callbacks
set_prev p s c = record c { prev = λ a. if a == p then s else c.prev a }

-- a write through a pointer to a pointer
abbrev pub set_slot : Slot → Ptr → Callbacks → Callbacks
set_slot of_source v c = record c { first = v }
set_slot (of_callback p) v c = record c { next = λ a. if a == p then v else c.next a }

abbrev pub set_prev_if : Ptr → Option Slot → Callbacks → Callbacks
set_prev_if p s c = if p == null then c else set_prev p s c

-- The critical section of `_M_try_push_front_callback`.
unfoldable pub push_callback : Ptr → Callbacks → Callbacks
push_callback cb c =
    let linked = set_prev cb (some of_source) (set_slot (of_callback cb) c.first c) in
    set_slot of_source cb (set_prev_if linked.first (some (of_callback cb)) linked)

-- The critical section of `_M_remove_callback`: whether the callback was linked, and the list.
unfoldable pub remove_at : Option Slot → Ptr → Callbacks → Bool × Callbacks
remove_at none cb c = (false, c)
remove_at (some s) cb c =
    let c' = set_slot s (c.next cb) c in (true, set_prev_if (c'.next cb) (c'.prev cb) c')

unfoldable pub remove_callback : Ptr → Callbacks → Bool × Callbacks
unfolding remove_at
remove_callback cb c = remove_at (c.prev cb) cb c

-- The unlinking of the first callback in the loop of `_M_request_stop`.
unfoldable pub take_callback : Callbacks → Callbacks
take_callback c =
    let cleared = set_prev c.first none c in
    let advanced = set_slot of_source (cleared.next c.first) cleared in
    set_prev_if advanced.first (some of_source) advanced

-- The loop of `_M_request_stop` on fuel, if no other thread comes in between: the callbacks that it
-- executes, in order, and what is left; `none` is fuel that ran out.
abbrev pub executed : Ptr → Option (List Ptr × Callbacks) → Option (List Ptr × Callbacks)
executed cb none = none
executed cb (some (cbs, c)) = some (cb ∷ cbs, c)

unfoldable pub stop_loop : ℕ → Callbacks → Option (List Ptr × Callbacks)
unfolding take_callback
stop_loop zero c = none
stop_loop (suc k) c =
    let rest = stop_loop k (take_callback c) in
    if c.first == null then some ([], c) else executed c.first rest
