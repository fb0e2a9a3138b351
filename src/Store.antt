-- ===== src/Store.antt =====
-- The `next` links of intrusive nodes: a store of links, commands over it, and list segments.
-- A node is its address; the member pointer `_Next` selects its link. Reading or writing through
-- a null pointer, and a failed `assert`, are faults: the command returns `none`.
pub mod Seg
pub mod Split
pub mod Steps
pub mod Yields
use model_lib.Base.{ℕ, ◌≡◌, Bool, true, false, Option, none, some, ◌==◌, not, if◌then◌else◌}

abbrev pub Ptr : Type 0
Ptr = ℕ

abbrev pub null : Ptr
null = 0

-- the link of every node
abbrev pub Links : Type 0
Links = Ptr → Ptr

abbrev pub write : Links → Ptr → Ptr → Links
write h p v a = if a == p then v else h a

-- A command returns a value and the new links, or faults.
abbrev pub Cmd : Type 0 → Type 0
Cmd A = Links → Option (A × Links)

abbrev pub pure : {A : Type 0} → A → Cmd A
pure a h = some (a, h)

abbrev pub fault : {A : Type 0} → Cmd A
fault h = none

module _ {A B : Type 0} where
  abbrev pub then_run : Option (A × Links) → (A → Cmd B) → Option (B × Links)
  then_run none k = none
  then_run (some (a, h)) k = k a h

  infixl 5 ◌>>=◌ ◌>>◌
  abbrev pub ◌>>=◌ : Cmd A → (A → Cmd B) → Cmd B
  m >>= k = λ h. then_run (m h) k

  abbrev pub ◌>>◌ : Cmd A → Cmd B → Cmd B
  m >> k = m >>= λ _. k

-- `p->*_Next`
abbrev pub load : Ptr → Cmd Ptr
load p h = if p == null then none else some (h p, h)

-- `p->*_Next = v`
abbrev pub store : Ptr → Ptr → Cmd (Unit {0})
store p v h = if p == null then none else some (tt, write h p v)

abbrev pub assert : Bool → Cmd (Unit {0})
assert true = pure tt
assert false = fault
