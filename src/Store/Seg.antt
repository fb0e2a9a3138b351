-- ===== src/Store/Seg.antt =====
-- Segments of linked nodes: `Seg h p xs q` when from `p` the links lead through the distinct,
-- non-null nodes `xs` to `q`.
use model_lib.Base.{
  inr, inl, Bool-cases, ◌≡◌, ◌≢◌, refl, Bool, true, false, ◌||◌, List, [], ◌∷◌, ◌++◌, arith, ◌==◌,
  ◌↔◌,
}
use model_lib.Store.{Ptr, null, Links, write}

abbrev pub has : Ptr → List Ptr → Bool
has a [] = false
has a (x ∷ xs) = (a == x) || has a xs

abbrev pub Seg : Links → Ptr → List Ptr → Ptr → Type 0
Seg h p [] q = p ≡ q
Seg h p (x ∷ xs) q = (p ≡ x) × (x ≢ null) × (has x xs ≡ false) × Seg h (h x) xs q

-- `g` and `h` agree at every node but those of `ws`.
abbrev pub SameBut : List Ptr → Links → Links → Type 0
SameBut ws h g = (a : Ptr) → has a ws ≡ false → g a ≡ h a

abbrev pub Apart : List Ptr → List Ptr → Type 0
Apart xs ys = (a : Ptr) → has a xs ≡ true → has a ys ≡ false

-- the last node of `xs`, or `d`
abbrev pub last_or : Ptr → List Ptr → Ptr
last_or d [] = d
last_or d (x ∷ xs) = last_or x xs

pub has-append : (a : Ptr) (xs ys : List Ptr) → has a (xs ++ ys) ≡ (has a xs || has a ys)
has-append a [] ys = refl
has-append a (x ∷ xs) ys = ground (arith, has-append a xs ys)

pub has-last : (x : Ptr) (xs : List Ptr) → has (last_or x xs) (x ∷ xs) ≡ true
has-last x [] = ground arith
has-last x (y ∷ xs) = ground (arith, has-last y xs)

pub last_or-append : (d x : Ptr) (xs ys : List Ptr) → last_or d (xs ++ x ∷ ys) ≡ last_or x ys
last_or-append d x [] ys = refl
last_or-append d x (z ∷ xs) ys = last_or-append z x xs ys

-- A segment survives any change that spares its nodes.
pub Seg-frame :
    {h g : Links} (p : Ptr) (xs : List Ptr) (q : Ptr)
    → ((a : Ptr) → has a xs ≡ true → g a ≡ h a)
    → Seg h p xs q
    → Seg g p xs q
Seg-frame p [] q same s = s
Seg-frame {h} {g} p (x ∷ xs) q same (e, nn, out, s) =
    let here : g x ≡ h x = same x (ground arith) in
    (e, nn, out, rw here (Seg-frame (h x) xs q (λ a i. same a (ground arith)) s))

pub Seg-write :
    (h : Links) (w v p : Ptr) (xs : List Ptr) (q : Ptr)
    → has w xs ≡ false
    → Seg h p xs q
    → Seg (write h w v) p xs q
Seg-write h w v p xs q out = Seg-frame p xs q (λ a i. ground arith)

pub Seg-append :
    (h : Links) (p : Ptr) (xs : List Ptr) (q : Ptr) (ys : List Ptr) (r : Ptr)
    → Seg h p xs q
    → Seg h q ys r
    → Apart xs ys
    → Seg h p (xs ++ ys) r
Seg-append h p [] q ys r s t apart = rw s t
Seg-append h p (x ∷ xs) q ys r (e, nn, out, s) t apart = (
  e,
  nn,
  rw (has-append x xs ys, out) (apart x (ground arith)),
  Seg-append h (h x) xs q ys r s t (λ a i. apart a (ground arith)),
)

-- The end of a non-empty segment may be redirected by a write to its last node.
pub Seg-redirect :
    (h : Links) (v p x : Ptr) (xs : List Ptr) (q : Ptr)
    → Seg h p (x ∷ xs) q
    → Seg (write h (last_or x xs) v) p (x ∷ xs) v
Seg-redirect h v p x [] q (e, nn, out, s) = (e, nn, refl, ground arith)
Seg-redirect h v p x (y ∷ ys) q (e, nn, out, s) =
    let apart : (x == last_or y ys) ≡ false = ground (arith, has-last y ys) in
    (e, nn, out, rw apart (Seg-redirect h v (h x) y ys q s))

-- A segment that ends at null is empty exactly when it starts there.
pub Seg-null : (h : Links) (p : Ptr) (xs : List Ptr) → Seg h p xs null → (p ≡ null) ↔ (xs ≡ [])
Seg-null h p [] s = (λ _. refl, λ _. s)
Seg-null h p (x ∷ xs) (e, nn, _, _) = (λ z. absurd (ground arith), λ z. cc)

-- Every node of a segment is an object.
pub ne-null_of_has :
    (h : Links) (a p : Ptr) (xs : List Ptr) (q : Ptr) → Seg h p xs q → has a xs ≡ true → a ≢ null
ne-null_of_has h a p [] q s i = absurd (cc)
ne-null_of_has h a p (x ∷ xs) q (e, nn, out, s) i = elim (Bool-cases (a == x)) [
  | inl same ↦ ground arith
  | inr other ↦ ne-null_of_has h a (h x) xs q s (ground arith)
]

pub last-ne-null :
    (h : Links) (p x : Ptr) (xs : List Ptr) (q : Ptr) → Seg h p (x ∷ xs) q → last_or x xs ≢ null
last-ne-null h p x xs q s = ne-null_of_has h (last_or x xs) p (x ∷ xs) q s (has-last x xs)

pub write_self : (h : Links) (p v : Ptr) → write h p v p ≡ v
write_self h p v = ground arith

pub not-last : (a x : Ptr) (xs : List Ptr) → has a (x ∷ xs) ≡ false → (a == last_or x xs) ≡ false
not-last a x [] out = ground arith
not-last a x (y ∷ ys) out = not-last a y ys (ground arith)

-- Two addresses of which one is among `xs` and the other is not.
pub has-apart : (a x : Ptr) (xs : List Ptr) → has x xs ≡ false → has a xs ≡ true → (a == x) ≡ false
has-apart a x [] out i = cc
has-apart a x (y ∷ ys) out i = elim (Bool-cases (a == y)) [
  | inl same ↦ ground arith
  | inr other ↦ has-apart a x ys (ground arith) (ground arith)
]
