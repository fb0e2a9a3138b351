-- ===== src/Stop/Callbacks/Removal.antt =====
-- include/__ngr/__core/__stop_inplace.hpp: `_M_remove_callback` takes a registered callback out of the
-- list, wherever it stands.
use mathlib.Core.Path.{subst}
use model_lib.Base.{
  ap, sym, ◌∙◌, ◌≡◌, ◌≢◌, refl, true, false, some, List, [], ◌∷◌, ◌++◌, arith, ne→==false, ==-self,
  Bool,
}
use model_lib.Store.{Ptr, null}
use model_lib.Store.Seg.{has, has-append, has-apart}
use model_lib.Stop.Callbacks.{
  set_prev_if, set_slot, Slot, of_source, of_callback, Callbacks, remove_callback, remove_at,
}
use model_lib.Stop.Callbacks.Order.{
  apart_self, Chain, Registered, Chain-rebase, set_prev_if-next, set_prev_if-first,
  set_prev_if-here, set_prev_if-there,
}

-- the slot that points at what follows `xs`
abbrev slot_before : Slot → List Ptr → Slot
slot_before s [] = s
slot_before s (x ∷ xs) = slot_before (of_callback x) xs

-- what a chain from `p` begins with when what follows `xs` is replaced by `n`
abbrev start : List Ptr → Ptr → Ptr → Ptr
start [] p n = n
start (x ∷ xs) p n = p

owner_of : Slot → Ptr
owner_of of_source = null
owner_of (of_callback p) = p

abbrev is_source : Slot → Bool
is_source of_source = true
is_source (of_callback p) = false

source_differs : true ≢ false
source_differs e = absurd (cc)

other_callback : (x y : Ptr) → y ≢ x → of_callback y ≢ of_callback x
unfolding owner_of
other_callback x y ne e = ne (ap owner_of e)

-- The slot that points at what follows a callback is not that of a callback before it.
not_owner :
    (a y : Ptr) (xs : List Ptr)
    → has a (y ∷ xs) ≡ false
    → slot_before (of_callback y) xs ≢ of_callback a
not_owner a y [] out = other_callback a y (λ e. apart_self a y (ground arith) (sym e))
not_owner a y (z ∷ xs) out = not_owner a z xs (ground arith)

set_slot-prev : (t : Slot) (v : Ptr) (c : Callbacks) → (set_slot t v c).prev ≡ c.prev
set_slot-prev of_source v c = refl
set_slot-prev (of_callback z) v c = refl

set_slot-other :
    (t : Slot) (v : Ptr) (c : Callbacks) (a : Ptr)
    → t ≢ of_callback a
    → (set_slot t v c).next a ≡ c.next a
set_slot-other of_source v c a ne = refl
set_slot-other (of_callback z) v c a ne = rw (ne→==false a z (λ e. ne (ap of_callback (sym e))))

set_slot-here : (z v : Ptr) (c : Callbacks) → (set_slot (of_callback z) v c).next z ≡ v
set_slot-here z v c = rw (==-self z)

-- The list once the slot `t` points at `n`, and `n` back at `t`.
abbrev bridged : Slot → Ptr → Callbacks → Callbacks
bridged t n c = set_prev_if n (some t) (set_slot t n c)

first_apart :
    (c : Callbacks) (s : Slot) (p : Ptr) (ys : List Ptr) (x : Ptr)
    → x ≢ null
    → has x ys ≡ false
    → Chain c s p ys
    → x ≢ p
first_apart c s p [] x nn out ch e = nn (e ∙ ch)
first_apart c s p (y ∷ ys) x nn out ch e = apart_self x y (ground arith) (e ∙ ch.0)

tail_of :
    (c : Callbacks) (s : Slot) (p : Ptr) (xs : List Ptr) (cb : Ptr) (ys : List Ptr)
    → Chain c s p (xs ++ cb ∷ ys)
    → Chain c (of_callback cb) (c.next cb) ys
tail_of c s p [] cb ys ch = ch.4
tail_of c s p (x ∷ xs) cb ys ch = tail_of c (of_callback x) (c.next x) xs cb ys ch.4

others_out :
    (x cb : Ptr) (xs ys : List Ptr)
    → has x (xs ++ cb ∷ ys) ≡ false
    → (has x (xs ++ ys) ≡ false) × (has x ys ≡ false) × (has x xs ≡ false)
others_out x cb xs ys out = (
  ground (arith, has-append x xs (cb ∷ ys), has-append x xs ys),
  ground (arith, has-append x xs (cb ∷ ys)),
  ground (arith, has-append x xs (cb ∷ ys)),
)

module _ (c : Callbacks) (cb : Ptr) (ys : List Ptr) where
  bridged-next :
      (t : Slot) (a : Ptr) → t ≢ of_callback a → (bridged t (c.next cb) c).next a ≡ c.next a
  bridged-next t a ne =
      (λ i. set_prev_if-next (c.next cb) (some t) (set_slot t (c.next cb) c) i a)
      ∙ set_slot-other t (c.next cb) c a ne

  bridged-prev : (t : Slot) (a : Ptr) → a ≢ c.next cb → (bridged t (c.next cb) c).prev a ≡ c.prev a
  bridged-prev t a ne =
      set_prev_if-there (c.next cb) (some t) (set_slot t (c.next cb) c) a ne
      ∙ (λ i. set_slot-prev t (c.next cb) c i a)

  -- What follows the callback hangs on the slot that pointed at it.
  tail-Chain :
      (s : Slot) (p : Ptr)
      → Chain c s p (cb ∷ ys)
      → ((a : Ptr) → has a (cb ∷ ys) ≡ true → s ≢ of_callback a)
      → Chain (bridged s (c.next cb) c) s (c.next cb) ys
  tail-Chain s p (e, nn, back, out, rest) free =
      Chain-rebase c (bridged s (c.next cb) c) (of_callback cb) s (c.next cb) ys
        (set_prev_if-here (c.next cb) (some s) (set_slot s (c.next cb) c))
        (λ a i. bridged-next s a (free a (ground arith))) (λ a i ne. bridged-prev s a ne) rest

  followed :
      (x : Ptr) (xs : List Ptr)
      → has x xs ≡ false
      → (bridged (slot_before (of_callback x) xs) (c.next cb) c).next x
        ≡ start xs (c.next x) (c.next cb)
  followed x [] out =
      (λ i.
        set_prev_if-next (c.next cb) (some (of_callback x)) (set_slot (of_callback x) (c.next cb) c)
          i x)
      ∙ set_slot-here x (c.next cb) c
  followed x (z ∷ xs) out = bridged-next (slot_before (of_callback z) xs) x (not_owner x z xs out)

  remove-Chain :
      (s : Slot) (p : Ptr) (xs : List Ptr)
      → Chain c s p (xs ++ cb ∷ ys)
      → ((a : Ptr) → has a (xs ++ cb ∷ ys) ≡ true → s ≢ of_callback a)
      → Chain (bridged (slot_before s xs) (c.next cb) c) s (start xs p (c.next cb)) (xs ++ ys)
  remove-Chain s p [] ch free = tail-Chain s p ch free
  remove-Chain s p (x ∷ xs) (e, nn, back, out, rest) free =
      let t = slot_before (of_callback x) xs in
      let outside : (has x (xs ++ ys) ≡ false) × (has x ys ≡ false) × (has x xs ≡ false) =
        others_out x cb xs ys out in
      let apart =
        first_apart c (of_callback cb) (c.next cb) ys x nn outside.1
          (tail_of c (of_callback x) (c.next x) xs cb ys rest) in
      (
        e,
        nn,
        bridged-prev t x apart ∙ back,
        outside.0,
        subst (λ q. Chain (bridged t (c.next cb) c) (of_callback x) q (xs ++ ys))
            (sym (followed x xs outside.2))
            (remove-Chain (of_callback x) (c.next x) xs rest (λ a i.
              other_callback a x
                (λ same. apart_self a x (has-apart a x (xs ++ cb ∷ ys) out i) (sym same)))),
      )

pointed_at :
    (c : Callbacks) (s : Slot) (p : Ptr) (xs : List Ptr) (cb : Ptr) (ys : List Ptr)
    → Chain c s p (xs ++ cb ∷ ys)
    → c.prev cb ≡ some (slot_before s xs)
pointed_at c s p [] cb ys ch = ch.2
pointed_at c s p (x ∷ xs) cb ys ch = pointed_at c (of_callback x) (c.next x) xs cb ys ch.4

first_kept :
    (c : Callbacks) (n y : Ptr) (xs : List Ptr)
    → (set_slot (slot_before (of_callback y) xs) n c).first ≡ c.first
first_kept c n y [] = refl
first_kept c n y (z ∷ xs) = first_kept c n z xs

first_is :
    (c : Callbacks) (n : Ptr) (xs : List Ptr)
    → (bridged (slot_before of_source xs) n c).first ≡ start xs c.first n
first_is c n [] = set_prev_if-first n (some of_source) (set_slot of_source n c)
first_is c n (x ∷ xs) =
    set_prev_if-first n (some (slot_before (of_callback x) xs))
      (set_slot (slot_before (of_callback x) xs) n c)
    ∙ first_kept c n x xs

before_other :
    (c : Callbacks) (s : Slot) (p x : Ptr) (xs : List Ptr) (cb : Ptr) (ys : List Ptr)
    → Chain c s p (x ∷ xs ++ cb ∷ ys)
    → slot_before (of_callback x) xs ≢ of_callback cb
before_other c s p x [] cb ys ch = other_callback cb x (apart_self x cb (ground (arith, ch.3)))
before_other c s p x (z ∷ xs) cb ys ch = before_other c (of_callback x) (c.next x) z xs cb ys ch.4

removed_at :
    (c : Callbacks) (cb : Ptr) (t : Slot)
    → t ≢ of_callback cb
    → c.prev cb ≡ some t
    → remove_callback cb c ≡ (true, bridged t (c.next cb) c)
unfolding remove_callback remove_at
removed_at c cb t ne e =
    let next_same : (set_slot t (c.next cb) c).next cb ≡ c.next cb =
      set_slot-other t (c.next cb) c cb ne in
    let prev_same : (set_slot t (c.next cb) c).prev cb ≡ some t =
      (λ i. set_slot-prev t (c.next cb) c i cb) ∙ e in
    ap (λ o. remove_at o cb c) e ∙ rw (next_same, prev_same)

-- Removing a registered callback takes it out and leaves the others registered in their order.
pub remove_callback-Registered :
    (c : Callbacks) (xs : List Ptr) (cb : Ptr) (ys : List Ptr)
    → Registered c (xs ++ cb ∷ ys)
    → ((remove_callback cb c).0 ≡ true) × Registered (remove_callback cb c).1 (xs ++ ys)
unfolding remove_callback
remove_callback-Registered c xs cb ys ch =
    let t = slot_before of_source xs in
    let run = removed_at c cb t (own xs ch) (pointed_at c of_source c.first xs cb ys ch) in
    let linked : Registered (bridged t (c.next cb) c) (xs ++ ys) =
      subst (λ q. Chain (bridged t (c.next cb) c) of_source q (xs ++ ys))
        (sym (first_is c (c.next cb) xs))
        (remove-Chain c cb ys of_source c.first xs ch (λ a i. not_source a)) in
    (ap (λ r. r.0) run, subst (λ r. Registered r.1 (xs ++ ys)) (sym run) linked)
  where
    not_source : (a : Ptr) → of_source ≢ of_callback a
    not_source a e = absurd (source_differs (ap is_source e))

    own : (xs : List Ptr) → Registered c (xs ++ cb ∷ ys) → slot_before of_source xs ≢ of_callback cb
    own [] ch = not_source cb
    own (x ∷ xs) ch = before_other c of_source c.first x xs cb ys ch
