-- ===== src/Mailbox/Fifo.antt =====
-- include/__ngr/__core/__intrusive_mpsc_queue.hpp: what is popped is what was pushed first.
use model_lib.Base.{
  arith, ◌≡◌, ◌≢◌, refl, sym, ap, ◌∙◌, List, [], ◌∷◌, ◌++◌, ◌==◌, false, some, ne→==false, ==-self,
}
use model_lib.Store.{Ptr, null, Links, write}
use model_lib.Store.Seg.{has, has-append}
use model_lib.Store.Yields.{Yields, yields, weaken}
use model_lib.Store.Steps.{store-some, load-some, assert-some}
use model_lib.Queue.{queue}
use model_lib.Queue.Laws.{IsQueue}
use model_lib.Mailbox.Push.{mailbox_push}
use model_lib.Mailbox.{Mailbox, mailbox, push_back, pop_front, pop_from, pop_last, pop_by}

-- The nodes `xs`, first in first: the consumer's end is at the stub before them, or at the first of
-- them, with the stub outside.
pub data HoldsMail (stub : Ptr) (h : Links) (m : Mailbox) : List Ptr → Type 0 where
  at_stub : {xs : List Ptr} → IsQueue h (queue m.tail m.head) (stub ∷ xs) → HoldsMail stub h m xs
  at_first :
      {x : Ptr} {xs : List Ptr}
      → has stub (x ∷ xs) ≡ false
      → IsQueue h (queue m.tail m.head) (x ∷ xs)
      → HoldsMail stub h m (x ∷ xs)

module _ (stub : Ptr) (real : stub ≢ null) where
  still_out :
      (node : Ptr) (xs : List Ptr)
      → has stub xs ≡ false
      → (node == stub) ≡ false
      → has stub (xs ++ node ∷ []) ≡ false
  still_out node xs clear ne = ground (arith, has-append stub xs (node ∷ []))

  not_the : (x : Ptr) (xs : List Ptr) → has stub (x ∷ xs) ≡ false → stub ≢ x
  not_the x xs out e = ground arith

  -- The last node is popped once the stub is behind it.
  last_popped :
      (x t : Ptr) (h : Links)
      → x ≢ null
      → stub ≢ x
      → pop_from stub x null (mailbox x t) h
        ≡ some ((x, mailbox stub stub), write (write h stub null) x stub)
  unfolding pop_from pop_last push_back
  last_popped x t h nn ne = rw (
    ==-self x,
    store-some stub real null h,
    store-some x nn stub (write h stub null),
    load-some x nn (write (write h stub null) x stub),
    ==-self x,
    ne→==false stub null real,
  )

  only_stub :
      (x : Ptr) (h : Links)
      → stub ≢ x
      → HoldsMail stub (write (write h stub null) x stub) (mailbox stub stub) []
  only_stub x h ne =
      at_stub
        record { chain = (refl, real, refl, rw (ne→==false stub x ne, ==-self stub)); ends = refl }

  -- A node with another behind it is popped.
  inner_popped :
      (x y : Ptr) (m : Mailbox) (h : Links)
      → y ≢ null
      → pop_from stub x y m h ≡ some ((x, mailbox m.head y), h)
  unfolding pop_from
  inner_popped x y m h nn = rw (ne→==false y null nn)

  -- The first of some nodes that are not the stub is popped.
  front_popped :
      (x : Ptr) (xs : List Ptr) (t hd : Ptr) (h : Links)
      → IsQueue h (queue x hd) (x ∷ xs)
      → has stub (x ∷ xs) ≡ false
      → Yields (λ r g. (r.0 ≡ x) × HoldsMail stub g r.1 xs) (pop_from stub x (h x) (mailbox hd t) h)
  front_popped x [] t hd h is out =
      let (e, nn, apart, none_behind) = is.chain in
      let ne : stub ≢ x = not_the x [] out in
      let run : pop_from stub x (h x) (mailbox hd t) h
          ≡ some ((x, mailbox stub stub), write (write h stub null) x stub) =
        ap (λ n. pop_from stub x n (mailbox hd t) h) none_behind
        ∙ ap (λ z. pop_from stub x null (mailbox z t) h) is.ends
        ∙ last_popped x t h nn ne in
      rw run (yields (refl, only_stub x h ne))
  front_popped x (y ∷ ys) t hd h is out =
      let (e, nn, apart, tail) = is.chain in
      let (behind, nn', apart', rest) = tail in
      let run : pop_from stub x (h x) (mailbox hd t) h ≡ some ((x, mailbox hd y), h) =
        ap (λ n. pop_from stub x n (mailbox hd t) h) behind
        ∙ inner_popped x y (mailbox hd t) h nn' in
      rw run (
        yields (
          refl,
          at_first (ground arith) record { chain = (refl, nn', apart', rest); ends = is.ends },
        ))

  from_stub :
      (hd x : Ptr) (h : Links)
      → h stub ≡ x
      → x ≢ null
      → pop_front stub (mailbox hd stub) h ≡ pop_from stub x (h x) (mailbox hd x) h
  unfolding pop_front pop_by
  from_stub hd x h e nn = rw (
    assert-some stub real h,
    load-some stub real h,
    ==-self stub,
    e,
    ne→==false x null nn,
    load-some x nn h,
  )

  from_empty :
      (hd : Ptr) (h : Links)
      → h stub ≡ null
      → pop_front stub (mailbox hd stub) h ≡ some ((null, mailbox hd stub), h)
  unfolding pop_front pop_by
  from_empty hd h e = rw (assert-some stub real h, load-some stub real h, ==-self stub, e)

  from_first :
      (hd x : Ptr) (h : Links)
      → x ≢ null
      → stub ≢ x
      → pop_front stub (mailbox hd x) h ≡ pop_from stub x (h x) (mailbox hd x) h
  unfolding pop_front pop_by
  from_first hd x h nn ne = rw (assert-some x nn h, load-some x nn h, ne→==false stub x ne)

  -- Popping gives the node that was pushed first and leaves the others in their order, whether the
  -- stub stands before them or has been passed.
  pub mailbox_pop :
      (h : Links) (m : Mailbox) (x : Ptr) (xs : List Ptr)
      → HoldsMail stub h m (x ∷ xs)
      → Yields (λ r g. (r.0 ≡ x) × HoldsMail stub g r.1 xs) (pop_front stub m h)
  mailbox_pop h m x xs (at_stub is) =
      let (e, nn, apart, rest) = is.chain in
      let (behind, nn', apart', chain) = rest in
      rw (ap (λ t. pop_front stub (mailbox m.head t) h) e ∙ from_stub m.head x h behind nn') (
        front_popped x xs x m.head h record { chain = (refl, nn', apart', chain); ends = is.ends }
          apart)
  mailbox_pop h m x xs (at_first out is) =
      let (e, nn, apart, chain) = is.chain in
      rw
        (ap (λ t. pop_front stub (mailbox m.head t) h) e
          ∙ from_first m.head x h nn (not_the x xs out))
        (front_popped x xs x m.head h record { chain = (refl, nn, apart, chain); ends = is.ends }
          out)

  -- Of no node nothing is popped.
  pub mailbox_empty :
      (h : Links) (m : Mailbox) → HoldsMail stub h m [] → pop_front stub m h ≡ some ((null, m), h)
  mailbox_empty h m (at_stub is) =
      ap (λ t. pop_front stub (mailbox m.head t) h) is.chain.0
      ∙ from_empty m.head h is.chain.3
      ∙ ap (λ t. some ((null, mailbox m.head t), h)) (sym is.chain.0)

  -- Pushing a node that is neither the stub nor among the others puts it behind them.
  pub push-HoldsMail :
      (h : Links) (m : Mailbox) (node : Ptr) (xs : List Ptr)
      → HoldsMail stub h m xs
      → node ≢ null
      → (node == stub) ≡ false
      → has node xs ≡ false
      → Yields (λ r g. HoldsMail stub g r.1 (xs ++ node ∷ [])) (push_back stub node m h)
  push-HoldsMail h m node xs (at_stub is) nn ne out =
      weaken (mailbox_push stub h m node stub xs is nn (ground arith)) (λ r g q. at_stub q.2)
  push-HoldsMail h m node (x ∷ xs) (at_first clear is) nn ne out =
      weaken (mailbox_push stub h m node x xs is nn out)
        (λ r g q. at_first (still_out node (x ∷ xs) clear ne) q.2)
