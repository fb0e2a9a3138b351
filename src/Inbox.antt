-- ===== src/Inbox.antt =====
-- include/__ngr/__core/__atomic_intrusive_queue.hpp: the queue that many threads push to, as its head.
-- An operation is modelled with no other thread in between, so its compare-exchange succeeds at once.
pub mod Order
use model_lib.Base.{ℕ, Bool, ◌==◌}
use model_lib.Store.{Ptr, null, Cmd, pure, ◌>>=◌, ◌>>◌, store}
use model_lib.Queue.{Queue, front, back, clear, create, create_reversed}

abbrev pub empty : Ptr → Bool
empty head = head == null

-- Whether the queue was empty, and the new head.
unfoldable pub push_front : Ptr → Ptr → Cmd (Bool × Ptr)
push_front p head = do store p head; pure (head == null, p)

-- The new head, and what is left of the argument.
unfoldable pub prepend : Queue → Ptr → Cmd (Ptr × Queue)
prepend q head = do store (back q) head; pure (front q, clear q)

-- The old head, and the new one.
unfoldable pub reset : Ptr → Ptr × Ptr
reset head = (head, null)

-- The queue of all nodes, and the new head.
unfoldable pub pop_swap : ℕ → Ptr → Cmd (Queue × Ptr)
unfolding reset
pop_swap fuel head = do q ← create fuel (reset head).0; pure (q, (reset head).1)

unfoldable pub pop_swap_reversed : ℕ → Ptr → Cmd (Queue × Ptr)
unfolding reset
pop_swap_reversed fuel head = do q ← create_reversed fuel (reset head).0; pure (q, (reset head).1)
