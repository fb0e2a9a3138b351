-- ===== src/Mailbox.antt =====
-- include/__ngr/__core/__intrusive_mpsc_queue.hpp: the queue of many producers and one consumer, with
-- no other thread in between. The stub is a node of the queue, known by its address.
pub mod Push
pub mod Fifo
use model_lib.Base.{ℕ, Bool, true, false, ◌==◌, not, if◌then◌else◌}
use model_lib.Store.{Ptr, null, Cmd, pure, ◌>>=◌, ◌>>◌, load, store, assert}

-- Producers exchange `head`, the consumer moves `tail`.
pub record Mailbox : Type 0 where
  pub head : Ptr
  pub tail : Ptr

abbrev pub mailbox : Ptr → Ptr → Mailbox
mailbox head tail = record { head = head; tail = tail }

module _ (stub : Ptr) where
  -- The constructor.
  unfoldable pub create : Cmd Mailbox
  create = do store stub null; pure (mailbox stub stub)

  -- Whether the node before is the stub, and the mailbox.
  unfoldable pub push_back : Ptr → Mailbox → Cmd (Bool × Mailbox)
  push_back node m = do
    store node null
    store m.head node
    pure (m.head == stub, mailbox node m.tail)

  -- The last part of `_M_pop_front`: no node stands behind `tail`.
  unfoldable pub pop_last : Ptr → Mailbox → Cmd (Ptr × Mailbox)
  unfolding push_back
  pop_last tail m = if not (tail == m.head) then pure (null, m) else do
    pushed ← push_back stub m
    next ← load tail
    if next == null then pure (null, pushed.1) else pure (tail, mailbox pushed.1.head next)

  -- The part behind the test for the stub, with `tail` and the node behind it.
  unfoldable pub pop_from : (tail next : Ptr) → Mailbox → Cmd (Ptr × Mailbox)
  unfolding pop_last
  pop_from tail next m =
      if not (next == null) then pure (tail, mailbox m.head next) else pop_last tail m

  -- What follows the test for the stub, by its outcome.
  unfoldable pub pop_by : Mailbox → (next : Ptr) → Bool → Cmd (Ptr × Mailbox)
  unfolding pop_from
  pop_by m next false = pop_from m.tail next m
  pop_by m next true =
      if next == null
      then pure (null, m)
      else do second ← load next; pop_from next second (mailbox m.head next)

  unfoldable pub pop_front : Mailbox → Cmd (Ptr × Mailbox)
  unfolding pop_by
  pop_front m = do assert (not (m.tail == null)); next ← load m.tail; pop_by m next (stub == m.tail)
