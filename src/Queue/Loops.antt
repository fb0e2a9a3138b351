-- ===== src/Queue/Loops.antt =====
-- include/__ngr/__core/__intrusive_queue.hpp: `__create` and `__create_reversed` build a queue from
-- a chain; one round more than there are nodes is enough fuel.
use model_lib.Base.{
  ℕ, zero, suc, ◌<◌, ◌≡◌, refl, sym, ◌∙◌, true, false, some, List, [], ◌∷◌, arith, ne→==false,
  length, reverse, reverse_aux,
}
use model_lib.Store.{Ptr, null, Links, write}
use model_lib.Store.Seg.{has, Seg, SameBut, Apart, last_or, Seg-write, write_self, has-apart}
use model_lib.Store.Steps.{load-some, store-some}
use model_lib.Store.Yields.{Yields, yields, after, weaken}
use model_lib.Queue.Defs.{queue, reversed_loop, tail_loop, create, create_reversed}
use model_lib.Queue.Laws.{IsQueue}

reversed_loop-Seg :
    (k : ℕ) (h : Links) (new_head list : Ptr) (xs ys : List Ptr)
    → Seg h list xs null
    → Seg h new_head ys null
    → Apart xs ys
    → length xs < k
    → Yields
        (λ p g. Seg g p (reverse_aux xs ys) null × SameBut xs h g)
        (reversed_loop k new_head list h)
unfolding reversed_loop
reversed_loop-Seg zero h new_head list xs ys s t apart fuel = absurd (omega arith)
reversed_loop-Seg (suc k) h new_head list [] ys s t apart fuel =
    let e : reversed_loop (suc k) new_head list h ≡ some (new_head, h) = rw s in
    rw e (yields (t, λ a o. refl))
reversed_loop-Seg (suc k) h new_head list (x ∷ xs) ys (p, nn, out, s) t apart fuel =
    let g : Links = write h x new_head in
    let new : has x ys ≡ false = apart x (ground arith) in
    let e : reversed_loop (suc k) new_head list h ≡ reversed_loop k x (h x) g =
      rw (p, ne→==false x null nn, load-some x nn h, store-some x nn new_head h) in
    rw e (
      weaken
        (reversed_loop-Seg k g x (h x) xs (x ∷ ys) (Seg-write h x new_head (h x) xs null out s)
          (
            refl,
            nn,
            new,
            rw (write_self h x new_head) (Seg-write h x new_head new_head ys null new t),
          )
          (λ a i. rw (has-apart a x xs out i) (apart a (in_tail a i))) (omega arith))
        (λ r f (chain, same). (chain, λ a o. same a (not_tail a o) ∙ not_here a o)))
  where
    in_tail : (a : Ptr) → has a xs ≡ true → has a (x ∷ xs) ≡ true
    in_tail a i = ground arith

    not_tail : (a : Ptr) → has a (x ∷ xs) ≡ false → has a xs ≡ false
    not_tail a o = ground arith

    not_here : (a : Ptr) → has a (x ∷ xs) ≡ false → write h x new_head a ≡ h a
    not_here a o = ground arith

last_or-reverse_aux :
    (d : Ptr) (xs : List Ptr) (y : Ptr) (ys : List Ptr)
    → last_or d (reverse_aux xs (y ∷ ys)) ≡ last_or y ys
last_or-reverse_aux d [] y ys = refl
last_or-reverse_aux d (x ∷ xs) y ys = last_or-reverse_aux d xs x (y ∷ ys)

tail_loop-last :
    (k : ℕ) (h : Links) (p x : Ptr) (xs : List Ptr)
    → Seg h p (x ∷ xs) null
    → length xs < k
    → tail_loop k p h ≡ some (last_or x xs, h)
unfolding tail_loop
tail_loop-last zero h p x xs s fuel = absurd (omega arith)
tail_loop-last (suc k) h p x [] (e, nn, out, s) fuel = rw (e, load-some x nn h, s)
tail_loop-last (suc k) h p x (y ∷ ys) (e, nn, out, s) fuel =
    rw (e, load-some x nn h, s.0, ne→==false y null s.1)
      (tail_loop-last k h y y ys (refl, s.1, s.2, s.3) (omega arith))

-- From a chain of nodes `create` makes the queue of those nodes, and writes nothing.
pub create-IsQueue :
    (fuel : ℕ) (h : Links) (list : Ptr) (xs : List Ptr)
    → Seg h list xs null
    → length xs < fuel
    → Yields (λ q g. IsQueue g q xs × (g ≡ h)) (create fuel list h)
unfolding create
create-IsQueue fuel h list [] s m =
    let e : create fuel list h ≡ some (queue list list, h) = rw s in
    rw e (yields (record { chain = s; ends = s }, refl))
create-IsQueue fuel h list (x ∷ xs) s m =
    let e : create fuel list h ≡ some (queue list (last_or x xs), h) =
      rw (ne→==false list null (rw s.0 s.1), tail_loop-last fuel h list x xs s (omega arith)) in
    rw e (yields (record { chain = s; ends = refl }, refl))

-- From a chain of nodes `create_reversed` makes the queue of those nodes in reverse order, and
-- writes no link but theirs.
pub create_reversed-IsQueue :
    (fuel : ℕ) (h : Links) (list : Ptr) (xs : List Ptr)
    → Seg h list xs null
    → length xs < fuel
    → Yields (λ q g. IsQueue g q (reverse xs) × SameBut xs h g) (create_reversed fuel list h)
unfolding create_reversed
create_reversed-IsQueue fuel h list xs s m =
    after (reversed_loop-Seg fuel h null list xs [] s refl (λ a i. refl) m)
      (λ p g (chain, same). yields (record { chain = chain; ends = first-last xs s }, same))
  where
    first-last : (xs : List Ptr) → Seg h list xs null → list ≡ last_or null (reverse xs)
    first-last [] s = s
    first-last (x ∷ xs) s = s.0 ∙ sym (last_or-reverse_aux null xs x [])
