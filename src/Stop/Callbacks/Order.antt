-- ===== src/Stop/Callbacks/Order.antt =====
-- include/__ngr/__core/__stop_inplace.hpp: the list of callbacks stays linked both ways, and a stop
-- executes each callback once.
use mathlib.Core.Path.{subst}
use model_lib.Base.{
  ap, sym, ◌∙◌, Bool-cases, inl, inr, ◌==◌, ℕ, zero, suc, ◌<◌, ◌≡◌, ◌≢◌, refl, true, false, Option,
  none, some, List, [], ◌∷◌, length, arith, ne→==false, ==-self,
}
use model_lib.Store.{Ptr, null}
use model_lib.Store.Seg.{has, has-apart}
use model_lib.Stop.Callbacks.{
  set_prev, set_prev_if, set_slot, Slot, of_source, of_callback, Callbacks, push_callback,
  take_callback, stop_loop, executed,
}

-- From `p`, pointed at by slot `s`, the callbacks are `xs`, each linked back.
abbrev pub Chain : Callbacks → Slot → Ptr → List Ptr → Type 0
Chain c s p [] = p ≡ null
Chain c s p (x ∷ xs) =
    (p ≡ x)
    × (x ≢ null)
    × (c.prev x ≡ some s)
    × (has x xs ≡ false)
    × Chain c (of_callback x) (c.next x) xs

abbrev pub Registered : Callbacks → List Ptr → Type 0
Registered c xs = Chain c of_source c.first xs

pub apart_self : (a x : Ptr) → (a == x) ≡ false → a ≢ x
apart_self a x h e = ground arith

module _ (p : Ptr) (s : Option Slot) (c : Callbacks) where
  pub set_prev_if-next : (set_prev_if p s c).next ≡ c.next
  set_prev_if-next = elim (Bool-cases (p == null)) [ inl e ↦ rw e | inr e ↦ rw e ]

  pub set_prev_if-first : (set_prev_if p s c).first ≡ c.first
  set_prev_if-first = elim (Bool-cases (p == null)) [ inl e ↦ rw e | inr e ↦ rw e ]

  pub set_prev_if-here : p ≢ null → (set_prev_if p s c).prev p ≡ s
  set_prev_if-here nn = rw (ne→==false p null nn, ==-self p)

  pub set_prev_if-there : (a : Ptr) → a ≢ p → (set_prev_if p s c).prev a ≡ c.prev a
  set_prev_if-there a ne = elim (Bool-cases (p == null)) [
    | inl e ↦ rw e
    | inr e ↦ rw (e, ne→==false a p ne)
  ]

Chain-frame :
    (c d : Callbacks) (s : Slot) (p : Ptr) (xs : List Ptr)
    → ((a : Ptr) → has a xs ≡ true → (d.next a ≡ c.next a) × (d.prev a ≡ c.prev a))
    → Chain c s p xs
    → Chain d s p xs
Chain-frame c d s p [] same ch = ch
Chain-frame c d s p (x ∷ xs) same (e, nn, back, out, rest) =
    let here = same x (ground arith) in
    (
      e,
      nn,
      here.1 ∙ back,
      out,
      subst (λ q. Chain d (of_callback x) q xs) (sym here.0)
          (Chain-frame c d (of_callback x) (c.next x) xs (λ a i. same a (ground arith)) rest),
    )

-- The first callback of a chain is linked back to another slot.
pub Chain-rebase :
    (c d : Callbacks) (s t : Slot) (p : Ptr) (xs : List Ptr)
    → (p ≢ null → d.prev p ≡ some t)
    → ((a : Ptr) → has a xs ≡ true → d.next a ≡ c.next a)
    → ((a : Ptr) → has a xs ≡ true → a ≢ p → d.prev a ≡ c.prev a)
    → Chain c s p xs
    → Chain d t p xs
Chain-rebase c d s t p [] back nexts prevs ch = ch
Chain-rebase c d s t p (x ∷ xs) back nexts prevs (e, nn, b, out, rest) = (
  e,
  nn,
  ap d.prev (sym e) ∙ back (λ z. nn (sym e ∙ z)),
  out,
  subst (λ q. Chain d (of_callback x) q xs) (sym (nexts x (ground arith)))
      (Chain-frame c d (of_callback x) (c.next x) xs
        (λ a i. (
          nexts a (ground arith),
          prevs a (ground arith) (λ q. apart_self a x (has-apart a x xs out i) (q ∙ e)),
        ))
        rest),
)

not_first :
    (cb : Ptr) (c : Callbacks) (xs : List Ptr)
    → Registered c xs
    → cb ≢ null
    → has cb xs ≡ false
    → cb ≢ c.first
not_first cb c [] ch nn out e = nn (e ∙ ch)
not_first cb c (x ∷ xs) ch nn out e = apart_self cb x (ground arith) (e ∙ ch.0)

-- Registering a callback that is not registered puts it before the others.
pub push_callback-Registered :
    (cb : Ptr) (c : Callbacks) (xs : List Ptr)
    → Registered c xs
    → cb ≢ null
    → has cb xs ≡ false
    → Registered (push_callback cb c) (cb ∷ xs)
unfolding push_callback
push_callback-Registered cb c xs ch nn out = (
  refl,
  nn,
  set_prev_if-there c.first (some (of_callback cb)) l cb (not_first cb c xs ch nn out)
      ∙ rw (==-self cb),
  out,
  subst (λ q. Chain (push_callback cb c) (of_callback cb) q xs) (sym (next_at cb ∙ rw (==-self cb)))
      (Chain-rebase c (push_callback cb c) of_source (of_callback cb) c.first xs
        (set_prev_if-here c.first (some (of_callback cb)) l) (λ a i. next_at a ∙ rw (others a i))
        (λ a i ne. set_prev_if-there c.first (some (of_callback cb)) l a ne ∙ rw (others a i)) ch),
)
  where
    l : Callbacks
    l = set_prev cb (some of_source) (set_slot (of_callback cb) c.first c)

    next_at : (a : Ptr) → (push_callback cb c).next a ≡ l.next a
    next_at a = λ i. set_prev_if-next c.first (some (of_callback cb)) l i a

    others : (a : Ptr) → has a xs ≡ true → (a == cb) ≡ false
    others a i = ground (arith, Bool-cases (a == cb))

-- Taking the first callback leaves the others registered.
pub take_callback-Registered :
    (c : Callbacks) (x : Ptr) (xs : List Ptr)
    → Registered c (x ∷ xs)
    → Registered (take_callback c) xs
unfolding take_callback
take_callback-Registered c x xs (e, nn, back, out, rest) =
    subst (λ q. Chain (take_callback c) of_source q xs)
      (sym (set_prev_if-first (c.next c.first) (some of_source) l ∙ ap c.next e))
      (Chain-rebase c (take_callback c) (of_callback x) of_source (c.next x) xs
        (λ z.
          ap (λ q. (take_callback c).prev q) (sym (ap c.next e))
          ∙ set_prev_if-here (c.next c.first) (some of_source) l (λ y. z (sym (ap c.next e) ∙ y)))
        (λ a i. (λ j. set_prev_if-next (c.next c.first) (some of_source) l j a))
        (λ a i ne.
          set_prev_if-there (c.next c.first) (some of_source) l a (λ q. ne (q ∙ ap c.next e))
          ∙ rw (e, has-apart a x xs out i))
        rest)
  where
    l : Callbacks
    l = set_slot of_source (c.next c.first) (set_prev c.first none c)

-- On more rounds than there are callbacks, a stop executes each registered callback once, the last
-- registered first, and leaves none registered.
pub stop_loop-executes :
    (k : ℕ) (c : Callbacks) (xs : List Ptr)
    → Registered c xs
    → length xs < k
    → (c' : Callbacks) × (stop_loop k c ≡ some (xs, c')) × Registered c' []
unfolding stop_loop
stop_loop-executes zero c xs ch fuel = absurd (omega arith)
stop_loop-executes (suc k) c [] ch fuel = (c, rw ch, ch)
stop_loop-executes (suc k) c (x ∷ xs) ch fuel =
    let (c', e, nothing) =
      stop_loop-executes k (take_callback c) xs (take_callback-Registered c x xs ch)
        (omega arith) in
    let ne = ne→==false c.first null (λ z. ch.1 (sym ch.0 ∙ z)) in
    (c', rw ne (ap (executed c.first) e ∙ ap (λ p. some (p ∷ xs, c')) ch.0), nothing)
