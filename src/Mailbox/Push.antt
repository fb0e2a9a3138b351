-- ===== src/Mailbox/Push.antt =====
-- include/__ngr/__core/__intrusive_mpsc_queue.hpp: pushing links the node behind the others.
use model_lib.Base.{◌≡◌, ◌≢◌, refl, List, [], ◌∷◌, ◌++◌, ◌==◌, false, some, ne→==false}
use model_lib.Store.{Ptr, null, Links, write}
use model_lib.Store.Seg.{has, SameBut}
use model_lib.Store.Yields.{Yields, yields}
use model_lib.Queue
use model_lib.Queue.{queue}
use mathlib.Core.Path.{subst}
use model_lib.Store.Steps.{store-some, assert-some}
use model_lib.Store.Seg.{last-ne-null}
use model_lib.Queue.Laws.{IsQueue, push_back-append}
use model_lib.Mailbox.{Mailbox, mailbox, push_back}

outcome : {A : Type 0} {P : A → Links → Type 0} {a : A} {h : Links} → Yields P (some (a, h)) → P a h
outcome (yields p) = p

-- With at least one node between `tail` and `head`, the stub counted, pushing a node that is not
-- among them links it behind them, tells whether the last one was the stub, keeps the consumer's
-- end, and writes no link but those two.
pub mailbox_push :
    (stub : Ptr) (h : Links) (m : Mailbox) (node x : Ptr) (xs : List Ptr)
    → IsQueue h (queue m.tail m.head) (x ∷ xs)
    → node ≢ null
    → has node (x ∷ xs) ≡ false
    → Yields
        (λ r g.
          (r.0 ≡ (m.head == stub))
          × (r.1.tail ≡ m.tail)
          × IsQueue g (queue r.1.tail r.1.head) ((x ∷ xs) ++ node ∷ [])
          × SameBut (node ∷ m.head ∷ []) h g)
        (push_back stub node m h)
unfolding push_back Queue.push_back
mailbox_push stub h m node x xs is nn out =
    let linked : Links = write (write h node null) m.head node in
    let last : m.head ≢ null = rw is.ends (last-ne-null h m.tail x xs null is.chain) in
    let e : push_back stub node m h ≡ some ((m.head == stub, mailbox node m.tail), linked) =
      rw (store-some node nn null h, store-some m.head last node (write h node null)) in
    let as_queue : Queue.push_back node (queue m.tail m.head) h ≡ some (queue m.tail node, linked) =
      rw (
        assert-some node nn h,
        store-some node nn null h,
        ne→==false m.head null last,
        store-some m.head last node (write h node null),
      ) in
    let (is', same) = outcome (
      subst (Yields _) as_queue
        (push_back-append h (queue m.tail m.head) node (x ∷ xs) is nn out)) in
    rw e (yields (refl, refl, is', same))
