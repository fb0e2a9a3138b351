-- ===== src/Examples/Queues.antt =====
-- include/__ngr/__core/__intrusive_queue.hpp: queues of the nodes 1 and 2, and of the nodes 3 and 4.
use model_lib.Base.{false, ◌≡◌, refl, [], ◌∷◌, if◌then◌else◌, ◌==◌, arith}
use model_lib.Store.{null, Links}
use model_lib.Store.Seg.{has, Seg, SameBut}
use model_lib.Store.Yields.{Yields}
use model_lib.Queue.{Queue, queue, iterator, end, pop_front, push_back, splice}
use model_lib.Mailbox
use model_lib.Mailbox.{mailbox}
use model_lib.Mailbox.Fifo.{HoldsMail, at_stub, mailbox_pop}
use model_lib.Queue.Laws.{IsQueue, pop_front-cons, push_back-append}
use model_lib.Queue.Splice.{splice-suffix_stale}

abbrev links : Links
links p = if p == 1 then 2 else if p == 3 then 4 else 0

abbrev ones : Queue
ones = queue 1 2

abbrev threes : Queue
threes = queue 3 4

ones-IsQueue : IsQueue links ones (1 ∷ 2 ∷ [])
ones-IsQueue = record {
  chain = (refl, omega arith, refl, (refl, omega arith, refl, refl));
  ends = refl;
}

pop_front-cons_example :
    Yields (λ r g. (r.0 ≡ 1) × IsQueue g r.1 (2 ∷ []) × (g ≡ links)) (pop_front ones links)
pop_front-cons_example = pop_front-cons links ones 1 (2 ∷ []) ones-IsQueue

push_back-append_example :
    Yields
      (λ r g. IsQueue g r (1 ∷ 2 ∷ 5 ∷ []) × SameBut (5 ∷ 2 ∷ []) links g)
      (push_back 5 ones links)
push_back-append_example =
    push_back-append links ones 5 (1 ∷ 2 ∷ []) ones-IsQueue (omega arith) refl

splice-suffix_stale_example :
    Yields
      (λ r g.
        Seg g r.1.head (1 ∷ []) null
        × (g 4 ≡ 2)
        × Seg g 2 (2 ∷ []) null
        × (r.1.tail ≡ 2)
        × (has r.1.tail (1 ∷ []) ≡ false))
      (splice threes (end threes) ones (iterator 1 2) (end ones) links)
splice-suffix_stale_example =
    splice-suffix_stale links threes (end threes) ones 1 2 [] [] ones-IsQueue (omega arith)
      (omega arith) refl refl

-- The stub is node 1, and node 2 was pushed.
mailbox_pop_example :
    Yields (λ r g. (r.0 ≡ 2) × HoldsMail 1 g r.1 []) (Mailbox.pop_front 1 (mailbox 2 1) links)
mailbox_pop_example =
    mailbox_pop 1 (omega arith) links (mailbox 2 1) 2 []
      (at_stub (record { chain = ones-IsQueue.chain; ends = ones-IsQueue.ends }))
