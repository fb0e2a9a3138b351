-- ===== src/Arena/Accounts.antt =====
-- include/__ngr/__core/__memory_resource.hpp: every use of a block is accounted for, and free blocks have
-- none. The shared source is what it promises.
use model_lib.Base.{
  ℕ, ◌+◌, ◌≤◌, ◌≡◌, ◌≢◌, ◌⊎◌, List, [], ◌∷◌, ◌==◌, if◌then◌else◌, length, arith, ne→==false,
  ==-self,
}
use model_lib.Store.{Ptr, null}
use model_lib.Arena.{Subrange}
use model_lib.Arena.Outcome.{Returns}
use model_lib.Arena.Local.{Local, Shared}

abbrev pub is : Ptr → Ptr → ℕ
is x y = if y == x then 1 else 0

-- how often a block stands in a list
abbrev pub occurs : Ptr → List Ptr → ℕ
occurs y [] = 0
occurs y (x ∷ xs) = is x y + occurs y xs

-- how many ranges lie in a block
abbrev pub ranges : Ptr → List Subrange → ℕ
ranges y [] = 0
ranges y (x ∷ xs) = is x.source y + ranges y xs

-- What the shared source promises: a block pushed to it is kept, and it hands out 16 of those it has.
pub record Keeps {R : Type 0} (s : Shared R) : Type 1 where
  pub held : R → Ptr → ℕ
  pub Room : R → Type 0
  pub Stock : R → Type 0
  pub push_law :
      (x : Ptr) (q : R)
      → Room q
      → Returns (λ q'. (y : Ptr) → held q' y ≡ is x y + held q y) (s.push x q)
  pub pop_law :
      (q : R)
      → Stock q
      → Returns
          (λ p. (length p.0 ≡ 16) × ((y : Ptr) → occurs y p.0 + held p.1 y ≡ held q y))
          (s.pop q)

-- Two ranges of one block do not overlap.
abbrev pub Apart : Subrange → Subrange → Type 0
Apart a b = a.source ≡ b.source → (a.offset + a.len ≤ b.offset) ⊎ (b.offset + b.len ≤ a.offset)

abbrev pub ApartFrom : Subrange → List Subrange → Type 0
ApartFrom x [] = Unit
ApartFrom x (y ∷ ys) = Apart x y × ApartFrom x ys

abbrev pub AllApart : List Subrange → Type 0
AllApart [] = Unit
AllApart (x ∷ xs) = ApartFrom x xs × AllApart xs

-- A range ends inside the data of its block, and before what is still to be cut from it.
abbrev pub Inside : Ptr → ℕ → Subrange → Type 0
Inside user bump x =
    (x.source ≢ null) × (x.offset + x.len ≤ 4096) × (x.source ≡ user → x.offset + x.len ≤ bump)

abbrev pub AllInside : Ptr → ℕ → List Subrange → Type 0
AllInside user bump [] = Unit
AllInside user bump (x ∷ xs) = Inside user bump x × AllInside user bump xs

module _ {R : Type 0} {s : Shared R} (k : Keeps s) where
  -- how often a block is free
  abbrev pub free : Local R → Ptr → ℕ
  free w y = occurs y w.queue + k.held w.shared y

  -- `user` is the block that is being cut, `extra` one more use of a block, `out` the ranges in use.
  pub record Accounts (w : Local R) (user extra : Ptr) (out : List Subrange) : Type 0 where
    pub use_counts : (y : Ptr) → y ≢ null → w.uses y ≡ ranges y out + is user y + is extra y
    pub once : (y : Ptr) → free w y ≤ 1
    pub idle : (y : Ptr) → 1 ≤ free w y → (y ≢ null) × (w.uses y ≡ 0)
    pub counted : w.count ≡ length w.queue
    pub few : w.count ≤ 16
    pub inside : AllInside user w.bump out
    pub apart : AllApart out

  -- Between two calls the block being cut is counted, and no more than its 4096 bytes are handed out.
  pub record Sound (w : Local R) (out : List Subrange) : Type 0 where
    pub accounts : Accounts w w.consume null out
    pub bump_le : w.bump ≤ 4096
    pub start : w.consume ≡ null → w.bump ≡ 4096

pub is_self : (x : Ptr) → is x x ≡ 1
is_self x = rw (==-self x)

pub is_same : (x y : Ptr) → y ≡ x → is x y ≡ 1
is_same x y e = rw e (is_self x)

pub is-other : (x y : Ptr) → y ≢ x → is x y ≡ 0
is-other x y ne = rw (ne→==false y x ne)

pub is-le : (x y : Ptr) → is x y ≤ 1
is-le x y = ground arith

pub ranges-le : (y : Ptr) (out : List Subrange) → ranges y out ≤ length out
ranges-le y [] = omega arith
ranges-le y (x ∷ xs) = omega (arith, ranges-le y xs, is-le x.source y)
