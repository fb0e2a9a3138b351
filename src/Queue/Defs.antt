-- ===== src/Queue/Defs.antt =====
-- include/__ngr/__core/__intrusive_queue.hpp: `__intrusive_queue` over the links of its nodes.
-- A member function takes the queue and returns the new one; an argument passed by value or by
-- reference and changed is returned as well.
use model_lib.Base.{ℕ, zero, suc, Bool, ◌&&◌, not, ◌==◌, if◌then◌else◌}
use model_lib.Store.{Ptr, null, Cmd, pure, fault, ◌>>=◌, ◌>>◌, load, store, assert}

pub record Queue : Type 0 where
  pub head : Ptr
  pub tail : Ptr

abbrev pub queue : Ptr → Ptr → Queue
queue p q = record { head = p; tail = q }

-- the default constructor, and what a moved-from queue holds
abbrev pub empty_queue : Queue
empty_queue = queue null null

pub record Iterator : Type 0 where
  pub predecessor : Ptr
  pub item : Ptr

abbrev pub iterator : Ptr → Ptr → Iterator
iterator p q = record { predecessor = p; item = q }

abbrev pub empty : Queue → Bool
empty q = q.head == null

-- The destructor's assertion.
unfoldable pub destroy : Queue → Cmd (Unit {0})
destroy q = assert (empty q)

unfoldable pub clear : Queue → Queue
clear q = record q { head = null; tail = null }

-- Moving from `q` leaves it empty.
unfoldable pub move : Queue → Queue × Queue
move q = (queue q.head q.tail, queue null null)

-- `operator=` by copy and swap: the first result is the assigned queue, the second the argument.
unfoldable pub assign : Queue → Queue → Queue × Queue
assign q other = (queue other.head other.tail, queue q.head q.tail)

unfoldable pub pop_front : Queue → Cmd (Ptr × Queue)
pop_front q = if empty q then pure (null, q) else do
  second ← load q.head
  rest ← load q.head
  pure (q.head, queue second (if rest == null then null else q.tail))

unfoldable pub push_front : Ptr → Queue → Cmd Queue
push_front item q = do
  assert (not (item == null))
  store item q.head
  pure (queue item (if q.tail == null then item else q.tail))

unfoldable pub push_back : Ptr → Queue → Cmd Queue
push_back item q = do
  assert (not (item == null))
  store item null
  if q.tail == null then pure (queue item item) else do store q.tail item; pure (queue q.head item)

-- Both return the queue and what is left of the argument.
unfoldable pub append : Queue → Queue → Cmd (Queue × Queue)
append q other =
    if empty other
    then pure (q, other)
    else if empty q
    then pure (queue other.head other.tail, queue null null)
    else do store q.tail other.head; pure (queue q.head other.tail, queue null null)

unfoldable pub prepend : Queue → Queue → Cmd (Queue × Queue)
prepend q other = if empty other then pure (q, other) else do
  store other.tail q.head
  pure (queue other.head (if q.tail == null then other.tail else q.tail), queue null null)

unfoldable pub reversed_loop : ℕ → (new_head list : Ptr) → Cmd Ptr
reversed_loop zero new_head list = fault
reversed_loop (suc k) new_head list =
    if list == null
    then pure new_head
    else do next ← load list; store list new_head; reversed_loop k list next

-- The loops run on fuel; `none` also stands for fuel that ran out.
unfoldable pub create_reversed : ℕ → Ptr → Cmd Queue
unfolding reversed_loop
create_reversed fuel list = do new_head ← reversed_loop fuel null list; pure (queue new_head list)

unfoldable pub tail_loop : ℕ → Ptr → Cmd Ptr
tail_loop zero tail = fault
tail_loop (suc k) tail = do next ← load tail; if next == null then pure tail else tail_loop k next

unfoldable pub create : ℕ → Ptr → Cmd Queue
unfolding tail_loop
create fuel list =
    if list == null
    then pure (queue list list)
    else do tail ← tail_loop fuel list; pure (queue list tail)

abbrev pub begin : Queue → Iterator
begin q = iterator null q.head

abbrev pub end : Queue → Iterator
end q = iterator q.tail null

-- `operator*`
unfoldable pub item_of : Iterator → Cmd Ptr
item_of it = do assert (not (it.item == null)); pure it.item

-- `operator++`
unfoldable pub advance : Iterator → Cmd Iterator
advance it =
    if it.item == null
    then pure (iterator it.item it.item)
    else do next ← load it.item; pure (iterator it.item next)

abbrev pub same_iterator : Iterator → Iterator → Bool
same_iterator a b = (a.predecessor == b.predecessor) && (a.item == b.item)

-- The part of `_M_splice` that takes the range out of `other`.
unfoldable pub splice_out : Iterator → Queue → (first last : Iterator) → Cmd Queue
splice_out pos other first last =
    if other.head == first.item
    then pure (queue last.item (if last.item == null then null else other.tail))
    else do
      assert (not (first.predecessor == null))
      store first.predecessor last.item
      store last.predecessor pos.item
      pure other

-- The part that puts it into `q`.
unfoldable pub splice_in : Queue → (pos first last : Iterator) → Cmd Queue
splice_in q pos first last = if empty q then pure (queue first.item last.predecessor) else do
  store pos.predecessor first.item
  pure (queue q.head (if pos.item == null then last.predecessor else q.tail))

unfoldable pub splice : Queue → Iterator → Queue → (first last : Iterator) → Cmd (Queue × Queue)
unfolding splice_out splice_in
splice q pos other first last = if same_iterator first last then pure (q, other) else do
  assert (not (first.item == null))
  assert (not (last.predecessor == null))
  other' ← splice_out pos other first last
  q' ← splice_in q pos first last
  pure (q', other')

abbrev pub front : Queue → Ptr
front q = q.head

abbrev pub back : Queue → Ptr
back q = q.tail
