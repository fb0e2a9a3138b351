-- ===== src/Arena/Disjoint.antt =====
-- include/__ngr/__core/__memory_resource.hpp: ranges inside their block, when another block is cut and
-- when more is cut.
use model_lib.Base.{ℕ, ◌≤◌, ◌≡◌, sym, ap, inr, List, [], ◌∷◌, arith}
use model_lib.Store.{Ptr, null}
use model_lib.Arena.{Subrange}
use model_lib.Arena.Accounts.{is, ranges, ApartFrom, AllInside, is_self}

-- A block in which no range lies can be cut from its start.
pub AllInside-fresh :
    (user b : Ptr) (bump : ℕ) (out : List Subrange)
    → ranges b out ≡ 0
    → AllInside user bump out
    → AllInside b 0 out
AllInside-fresh user b bump [] e i = tt
AllInside-fresh user b bump (x ∷ xs) e i = (
  (i.0.0, i.0.1, λ same. absurd (omega (arith, e, is_self b, same_is b x.source same))),
  AllInside-fresh user b bump xs (omega (arith, e)) i.1,
)
  where
    same_is : (b c : Ptr) → c ≡ b → is c b ≡ is b b
    same_is b c e = ap (λ t. is t b) e

pub AllInside-none :
    (user : Ptr) (bump bump' : ℕ) (out : List Subrange)
    → AllInside user bump out
    → AllInside null bump' out
AllInside-none user bump bump' [] i = tt
AllInside-none user bump bump' (x ∷ xs) i =
    ((i.0.0, i.0.1, λ e. absurd (i.0.0 e)), AllInside-none user bump bump' xs i.1)

pub AllInside-grows :
    (user : Ptr) (bump bump' : ℕ) (out : List Subrange)
    → bump ≤ bump'
    → AllInside user bump out
    → AllInside user bump' out
AllInside-grows user bump bump' [] le i = tt
AllInside-grows user bump bump' (x ∷ xs) le i =
    ((i.0.0, i.0.1, λ e. omega (arith, i.0.2 e)), AllInside-grows user bump bump' xs le i.1)

-- A range that starts where the cut block is used up to overlaps no other.
pub cut-ApartFrom :
    (x : Subrange) (out : List Subrange) → AllInside x.source x.offset out → ApartFrom x out
cut-ApartFrom x [] i = tt
cut-ApartFrom x (y ∷ ys) i = ((λ e. inr (i.0.2 (sym e))), cut-ApartFrom x ys i.1)
