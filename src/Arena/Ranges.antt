-- ===== src/Arena/Ranges.antt =====
-- include/__ngr/__core/__memory_resource.hpp: giving back a range, and how the ranges in use change.
use mathlib.Core.Path.{subst}
use model_lib.Base.{ℕ, ◌+◌, ◌^◌, ◌≤◌, ◌<◌, ◌≡◌, refl, sym, ◌∙◌, List, [], ◌∷◌, ◌++◌, length, arith}
use model_lib.Store.{Ptr, null}
use model_lib.Arena.{Subrange}
use model_lib.Arena.Outcome.{Returns, weaken}
use model_lib.Arena.Local.{Local, Shared, release}
use model_lib.Arena.Accounts.{
  is, ranges, Keeps, Accounts, Sound, AllApart, ApartFrom, AllInside, Inside, is-other,
}
use model_lib.Arena.Uses.{Kept, unuse-Kept}

pub ranges-remove :
    (y : Ptr) (xs : List Subrange) (x : Subrange) (ys : List Subrange)
    → ranges y (xs ++ x ∷ ys) ≡ is x.source y + ranges y (xs ++ ys)
ranges-remove y [] x ys = refl
ranges-remove y (z ∷ xs) x ys = omega (arith, ranges-remove y xs x ys)

AllInside-remove :
    (user : Ptr) (bump : ℕ) (xs : List Subrange) (x : Subrange) (ys : List Subrange)
    → AllInside user bump (xs ++ x ∷ ys)
    → Inside user bump x × AllInside user bump (xs ++ ys)
AllInside-remove user bump [] x ys a = a
AllInside-remove user bump (z ∷ xs) x ys a =
    let (i, rest) = AllInside-remove user bump xs x ys a.1 in (i, (a.0, rest))

ApartFrom-remove :
    (z : Subrange) (xs : List Subrange) (x : Subrange) (ys : List Subrange)
    → ApartFrom z (xs ++ x ∷ ys)
    → ApartFrom z (xs ++ ys)
ApartFrom-remove z [] x ys a = a.1
ApartFrom-remove z (w ∷ xs) x ys a = (a.0, ApartFrom-remove z xs x ys a.1)

AllApart-remove :
    (xs : List Subrange) (x : Subrange) (ys : List Subrange)
    → AllApart (xs ++ x ∷ ys)
    → AllApart (xs ++ ys)
AllApart-remove [] x ys a = a.1
AllApart-remove (z ∷ xs) x ys a = (ApartFrom-remove z xs x ys a.0, AllApart-remove xs x ys a.1)

-- Giving back a range that is in use keeps the accounts of the others. The call returns unless the
-- thread has 16 free blocks and the shared source has no room.
pub release-Sound :
    {R : Type 0} {s : Shared R} (k : Keeps s) (w : Local R) (xs : List Subrange) (x : Subrange)
    (ys : List Subrange)
    → Sound k w (xs ++ x ∷ ys)
    → length (xs ++ ys) + 2 < 2 ^ 64
    → (w.count ≡ 16 → k.Room w.shared)
    → Returns (λ w'. Sound k w' (xs ++ ys)) (release s x w)
unfolding release
release-Sound k w xs x ys sound small room =
    let a = sound.accounts in
    let (i, inside) = AllInside-remove w.consume w.bump xs x ys a.inside in
    let less : Accounts k w w.consume x.source (xs ++ ys) = record {
      use_counts =
          λ y ne. omega (arith, a.use_counts y ne, ranges-remove y xs x ys, is-other null y ne);
      once = a.once;
      idle = a.idle;
      counted = a.counted;
      few = a.few;
      inside = inside;
      apart = AllApart-remove xs x ys a.apart;
    } in
    weaken (unuse-Kept k x.source i.0 w w.consume (xs ++ ys) less small room)
      (λ w' q. settled k w w' (xs ++ ys) q sound.bump_le sound.start)
  where
    settled :
        {R : Type 0} {s : Shared R} (k : Keeps s) (w w' : Local R) (out : List Subrange)
        → Kept k w w' w.consume out
        → w.bump ≤ 4096
        → (w.consume ≡ null → w.bump ≡ 4096)
        → Sound k w' out
    settled k w w' out q le start = record {
      accounts = subst (λ t. Accounts k w' t null out) (sym q.consume_kept) q.accounts;
      bump_le = omega (arith, q.bump_kept, le);
      start = λ e. q.bump_kept ∙ start (sym q.consume_kept ∙ e);
    }
