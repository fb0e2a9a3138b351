-- ===== src/Store/Split.antt =====
-- A segment through `xs ++ ys` is a segment through `xs` and one through `ys`, which share no node.
use model_lib.Base.{◌≡◌, refl, false, List, [], ◌∷◌, ◌++◌, arith, ◌==◌, Bool-cases, inl, inr}
use model_lib.Store.{Ptr, Links}
use model_lib.Store.Seg.{has, Seg, Apart, has-append}

pub record Split (h : Links) (p : Ptr) (xs ys : List Ptr) (r : Ptr) : Type 0 where
  pub mid : Ptr
  pub front : Seg h p xs mid
  pub back : Seg h mid ys r
  pub apart : Apart xs ys

not_in_right :
    (a : Ptr) (xs ys : List Ptr)
    → has a (xs ++ ys) ≡ false
    → (has a xs ≡ false) × (has a ys ≡ false)
not_in_right a xs ys out = ground (arith, has-append a xs ys)

Apart-cons : (x : Ptr) (xs ys : List Ptr) → has x ys ≡ false → Apart xs ys → Apart (x ∷ xs) ys
Apart-cons x xs ys out apart a i = elim (Bool-cases (a == x)) [
  | inl same ↦ ground arith
  | inr other ↦ apart a (ground arith)
]

pub Seg-Split :
    (h : Links) (p : Ptr) (xs ys : List Ptr) (r : Ptr) → Seg h p (xs ++ ys) r → Split h p xs ys r
Seg-Split h p [] ys r s = record { mid = p; front = refl; back = s; apart = λ a i. absurd (cc) }
Seg-Split h p (x ∷ xs) ys r (e, nn, out, s) =
    let rest = Seg-Split h (h x) xs ys r s in
    let outs = not_in_right x xs ys out in
    record {
      mid = rest.mid;
      front = (e, nn, outs.0, rest.front);
      back = rest.back;
      apart = Apart-cons x xs ys outs.1 rest.apart;
    }
