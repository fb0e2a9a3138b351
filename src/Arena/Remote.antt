-- ===== src/Arena/Remote.antt =====
-- include/__ngr/__core/__memory_resource.hpp, `__remote_source`: a ring of batches of free blocks that
-- threads share. A call is modelled with no other thread in between: its compare-exchange succeeds.
use Prim.Native.Nat.{bit_and}
use model_lib.Base.{
  ℕ, zero, suc, ◌+◌, ◌-◌, ◌/◌, ◌^◌, Option, none, some, List, [], ◌∷◌, ◌++◌, ◌==◌, ltb,
  if◌then◌else◌, take, drop, reverse,
}
use model_lib.Base.Words.{u32, add32, sub32, add64}
use model_lib.Store.{Ptr}
use model_lib.Arena.{batch, mappings, per_mapping, slots, mapping_blocks}
use model_lib.Arena.Outcome.{Outcome, done, spins, fault, ◌>>=◌}

-- `__atomic_block_queue`: the chain from its head, and how many blocks it is said to hold
pub record Slot : Type 0 where
  pub chain : List Ptr
  pub n : ℕ

-- `state` is the head below 2 ^ 32 and the tail above it; `n` mappings were made.
pub record Remote : Type 0 where
  pub n : ℕ
  pub mmap : ℕ → ℕ
  pub ring : ℕ → Slot
  pub state : ℕ

abbrev pub slot : List Ptr → ℕ → Slot
slot c n = record { chain = c; n = n }

abbrev pub empty_slot : Slot
empty_slot = slot [] 0

abbrev pub put_slot : (ℕ → Slot) → ℕ → Slot → ℕ → Slot
put_slot f i s j = if j == i then s else f j

abbrev pub head_stride : ℕ
head_stride = 1

abbrev pub tail_stride : ℕ
tail_stride = 2 ^ 32

-- `__descriptor`
pub record Ends : Type 0 where
  pub head : ℕ
  pub tail : ℕ

unfoldable pub convert : ℕ → Ends
convert m = record { head = u32 m; tail = u32 (m / 2 ^ 32) }

-- What `_M_pop_swap_reversed` takes from the chain of a slot is its reversal.
unfoldable pub try_pop_swap_reversed : Remote → List Ptr × Remote
unfolding convert
try_pop_swap_reversed r =
    let x = convert r.state in
    let i = bit_and x.tail (slots - 1) in
    if x.head == x.tail then ([], r) else (
      reverse (r.ring i).chain,
      record r { state = add64 r.state tail_stride; ring = put_slot r.ring i empty_slot },
    )

-- `_M_push`; it spins while the slot at the head is full.
unfoldable pub push : Ptr → Remote → Outcome Remote
unfolding convert
push blk r =
    let i = bit_and (convert r.state).head (slots - 1) in
    let n = (r.ring i).n in
    let state' = if n + 1 == batch then add64 r.state head_stride else r.state in
    let slot' = slot (blk ∷ (r.ring i).chain) (add64 n 1) in
    if n == batch then spins else done (record r { ring = put_slot r.ring i slot'; state = state' })

-- The loop of `_M_prepend`, on fuel: `blk` is what is left of the blocks, which `ptr` lists. A round
-- fills the slot at the head with the blocks up to `ptr[k + m - 1]`, a read that may be out of
-- bounds. It spins while the slot is full, and also stands for no fuel left.
unfoldable pub fill_slot : (i m : ℕ) → List Ptr → Remote → Remote
fill_slot i m blk r = record r {
  ring = put_slot r.ring i (slot (take m blk ++ (r.ring i).chain) batch);
  state = add64 r.state head_stride;
}

unfoldable pub prepend : ℕ → (blk : List Ptr) → (k : ℕ) → Remote → Outcome Remote
unfolding convert fill_slot
prepend fuel [] k r = done r
prepend zero (b ∷ bs) k r = spins
prepend (suc fuel) (b ∷ bs) k r =
    let i = bit_and (convert r.state).head (slots - 1) in
    let n = (r.ring i).n in
    let m = sub32 batch n in
    let rest = prepend fuel (drop m (b ∷ bs)) (add32 k m) (fill_slot i m (b ∷ bs) r) in
    if n == batch then spins else if ltb (sub32 (add32 k m) 1) per_mapping then rest else fault

-- `os n` is what the call of `mmap` returns that is made with `n` mappings made before; none is
-- `MAP_FAILED`.
abbrev pub map_at : Option ℕ → Remote → Outcome Remote
map_at none r = fault
map_at (some p) r =
    if ltb r.n mappings
    then prepend (suc per_mapping) (mapping_blocks p) 0
        (record r { n = add32 r.n 1; mmap = λ i. if i == r.n then p else r.mmap i })
    else fault

unfoldable pub allocate : (ℕ → Option ℕ) → Remote → Outcome Remote
allocate os r = map_at (os r.n) r

abbrev pub spin_threshold : ℕ
spin_threshold = 16

-- A batch that is not empty ends the loop.
abbrev pub taken_or :
    List Ptr → Remote → (Remote → Outcome (List Ptr × Remote)) → Outcome (List Ptr × Remote)
taken_or [] r again = again r
taken_or (b ∷ bs) r again = done (b ∷ bs, r)

-- The loop of `_M_pop_swap_reversed`, on fuel.
unfoldable pub pop_loop : (ℕ → Option ℕ) → ℕ → (spin : ℕ) → Remote → Outcome (List Ptr × Remote)
pop_loop os zero spin r = spins
pop_loop os (suc fuel) spin r =
    let (bs, r') = try_pop_swap_reversed r in
    let spin_more = λ (q : Remote). pop_loop os fuel (spin + 1) q in
    let grow = λ (q : Remote). allocate os q >>= pop_loop os fuel 0 in
    taken_or bs r' (λ q. if ltb spin spin_threshold then spin_more q else grow q)

-- Enough rounds to spin up to the threshold, to allocate, and to pop.
unfoldable pub pop_swap_reversed : (ℕ → Option ℕ) → Remote → Outcome (List Ptr × Remote)
pop_swap_reversed os r = pop_loop os (spin_threshold + 2) 0 r

-- The destructor: the mappings that it gives to `munmap`, in order.
unfoldable pub unmap_from : (rounds i : ℕ) → Remote → List ℕ
unmap_from zero i r = []
unmap_from (suc rounds) i r = r.mmap i ∷ unmap_from rounds (i + 1) r

unfoldable pub unmap_all : Remote → List ℕ
unfolding unmap_from
unmap_all r = unmap_from r.n 0 r
