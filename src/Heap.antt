-- ===== src/Heap.antt =====
-- include/__ngr/__core/__intrusive_heap.hpp: the binary heap of intrusive nodes. A node is its
-- address; `_Left`, `_Right` and `_Prev` select its links, and `key` is its key, a number: the
-- timers' keys, a deadline and then a sequence number, are ordered like such numbers. A pointer to a
-- pointer is a slot.
pub mod Trees
pub mod Linked
pub mod Displace
pub mod Shift
pub mod Descend
pub mod Slots
pub mod Insert
pub mod Path
pub mod Push
pub mod Removal
pub mod Erase
pub mod Cut
pub mod Within
pub mod Detach
pub mod Sink
pub mod Raise
pub mod Round
pub mod Seat
pub mod Settled
pub mod Sinking
pub mod Pop
pub mod Guard
pub mod Root
use Prim.Native.Nat.{bit_and}
use model_lib.Base.{
  ℕ, zero, suc, ◌+◌, ◌-◌, ◌/◌, ◌^◌, Bool, true, false, ◌&&◌, ◌||◌, not, Option, none, some, ◌==◌,
  ltb, leb, if◌then◌else◌,
}
use model_lib.Base.Words.{add64, sub64}
use model_lib.Base.Log.{bit_ceil}
use model_lib.Store.{Ptr, null}

pub data Slot : Type 0 where
  of_root : Slot
  of_left of_right : Ptr → Slot

abbrev pub same_slot : Slot → Slot → Bool
same_slot of_root of_root = true
same_slot (of_left a) (of_left b) = a == b
same_slot (of_right a) (of_right b) = a == b
same_slot of_root (of_left b) = false
same_slot of_root (of_right b) = false
same_slot (of_left a) of_root = false
same_slot (of_left a) (of_right b) = false
same_slot (of_right a) of_root = false
same_slot (of_right a) (of_left b) = false

-- the node whose link the slot is; the root's slot is always there
abbrev pub usable : Slot → Bool
usable of_root = true
usable (of_left a) = not (a == null)
usable (of_right a) = not (a == null)

pub record Heap : Type 0 where
  pub at : Slot → Ptr
  pub prev : Ptr → Ptr
  pub size : ℕ

-- A command returns a value and the new heap, or faults.
abbrev pub Cmd : Type 0 → Type 0
Cmd A = Heap → Option (A × Heap)

abbrev pub pure : {A : Type 0} → A → Cmd A
pure a h = some (a, h)

abbrev pub fault : {A : Type 0} → Cmd A
fault h = none

module _ {A B : Type 0} where
  abbrev pub then_run : Option (A × Heap) → (A → Cmd B) → Option (B × Heap)
  then_run none k = none
  then_run (some (a, h)) k = k a h

  infixl 5 ◌>>=◌ ◌>>◌
  abbrev pub ◌>>=◌ : Cmd A → (A → Cmd B) → Cmd B
  m >>= k = λ h. then_run (m h) k

  abbrev pub ◌>>◌ : Cmd A → Cmd B → Cmd B
  m >> k = m >>= λ _. k

abbrev pub write_at : Slot → Ptr → Heap → Heap
write_at s v h = record h { at = λ t. if same_slot t s then v else h.at t }

abbrev pub write_prev : Ptr → Ptr → Heap → Heap
write_prev p v h = record h { prev = λ a. if a == p then v else h.prev a }

-- Reads and writes of a link fault at a null node.
abbrev pub get : Slot → Cmd Ptr
get s h = if usable s then some (h.at s, h) else none

abbrev pub put : Slot → Ptr → Cmd (Unit {0})
put s v h = if usable s then some (tt, write_at s v h) else none

abbrev pub get_prev : Ptr → Cmd Ptr
get_prev p h = if p == null then none else some (h.prev p, h)

abbrev pub put_prev : Ptr → Ptr → Cmd (Unit {0})
put_prev p v h = if p == null then none else some (tt, write_prev p v h)

abbrev pub put_size : ℕ → Cmd (Unit {0})
put_size n h = some (tt, record h { size = n })

abbrev pub get_size : Cmd ℕ
get_size h = some (h.size, h)

abbrev pub assert : Bool → Cmd (Unit {0})
assert true = pure tt
assert false = fault

abbrev pub when : Bool → Cmd (Unit {0}) → Cmd (Unit {0})
when true c = c
when false c = pure tt

-- `__path_bit_mask`
unfoldable pub path_bit_mask : ℕ → ℕ
path_bit_mask n = bit_ceil (add64 n 1) / 4

-- the test of `__mask & __k`
abbrev pub turns_right : ℕ → ℕ → Bool
turns_right mask k = not (bit_and mask k == 0)

-- the slot of a child
abbrev pub child_slot : Bool → Ptr → Slot
child_slot true p = of_right p
child_slot false p = of_left p

-- One round of the inner loop of `_M_push`: `node` takes the place of `p`.
unfoldable pub displace : Bool → (node p : Ptr) → Cmd (Unit {0})
displace true node p = do
  put (of_right node) p
  left ← get (of_left p)
  put (of_left node) left
  put_prev left node
displace false node p = do
  right ← get (of_right p)
  put (of_right node) right
  put (of_left node) p
  when (not (right == null)) (put_prev right node)

-- What stands behind the inner loop.
unfoldable pub settle : Ptr → Cmd (Unit {0})
settle node = do right ← get (of_right node); assert (right == null); put (of_left node) null

-- The inner loop, on fuel as the others. It is entered with a mask that is not zero, so that its test,
-- which the source has at the end, may stand at the front.
unfoldable pub displace_loop : ℕ → (mask k : ℕ) → (node p : Ptr) → Cmd (Unit {0})
displace_loop zero mask k node p = fault
displace_loop (suc fuel) mask k node p =
    let rest = do
      displace (turns_right mask k) node p
      next ← get (child_slot (turns_right mask k) p)
      displace_loop fuel (mask / 2) k p next
    in if mask == 0 then settle node else rest

-- What stands behind the outer loop.
unfoldable pub attach : (node : Ptr) → (pp : Slot) → (q : Ptr) → Cmd (Unit {0})
attach node pp q = do
  put pp node
  put_prev node q
  put (of_right node) null
  put (of_left node) null

module _ (key : Ptr → ℕ) where
  unfoldable pub push_loop :
      ℕ → (mask k : ℕ) → (node : Ptr) → (pp : Slot) → (p q : Ptr) → Cmd (Unit {0})
  push_loop zero mask k node pp p q = fault
  push_loop (suc fuel) mask k node pp p q =
      let shift = do put_prev node q; put_prev p node; put pp node; displace_loop fuel mask k node p
      in let down = do
        next ← get (child_slot (turns_right mask k) p)
        push_loop fuel (mask / 2) k node (child_slot (turns_right mask k) p) next p
        in if mask == 0 then attach node pp q else if ltb (key node) (key p) then shift else down

  -- 64-bit masks are zero after 64 rounds, so the fuel is enough.
  unfoldable pub push : Ptr → Cmd (Unit {0})
  push node = do
    n ← get_size
    put_size (add64 n 1)
    root ← get of_root
    push_loop 130 (path_bit_mask (add64 n 1)) (add64 n 1) node of_root root null
