-- ===== src/Frames.antt =====
-- include/__ngr/__core/__allocator.hpp: the stack allocator of coroutine frames. A chunk is known by
-- its place in the list that starts at `__chunk_`; `new_at` is where the global `operator new` puts
-- the next chunk, given how many there are and how many bytes are asked for.
pub mod Fresh
pub mod Fits
use model_lib.Base.{
  ℕ, zero, suc, ◌+◌, ◌-◌, ◌*◌, ◌%◌, ◌^◌, Option, none, some, List, [], ◌∷◌, ◌++◌, Bool, ltb, leb,
  ◌==◌, if◌then◌else◌, length, get_elem?, take,
}
use model_lib.Base.Words.{add64, u64}
use model_lib.RoundUp.{round_up}

-- A chunk's prefix stands at `base`, its frames between `base + 16` and `limit`.
pub record Chunk : Type 0 where
  pub base : ℕ
  pub limit : ℕ

-- `sizeof` of both prefixes, and the default alignment of `operator new`
abbrev pub prefix_size : ℕ
prefix_size = 16

abbrev pub chunk_start : Chunk → ℕ
chunk_start c = c.base + prefix_size

-- The frame prefix: the chunk and the bump pointer to go back to.
pub record Saved : Type 0 where
  pub chunk : ℕ
  pub bump : ℕ

-- `cur` is the current chunk, if there is one; `prefixes` is the memory at the frame prefixes.
pub record Allocator : Type 0 where
  pub chunks : List Chunk
  pub cur : Option ℕ
  pub bump : ℕ
  pub next_cap : ℕ
  pub prefixes : ℕ → Saved

abbrev pub min_capacity : ℕ
min_capacity = 1024

abbrev pub growth_factor : ℕ
growth_factor = 2

abbrev pub fresh_allocator : (ℕ → Saved) → Allocator
fresh_allocator memory = record {
  chunks = [];
  cur = none;
  bump = 0;
  next_cap = min_capacity;
  prefixes = memory;
}

abbrev pub put_prefix : (ℕ → Saved) → ℕ → Saved → ℕ → Saved
put_prefix f p v a = if a == p then v else f a

-- The chunks up to the current one, behind which a new chunk is linked.
abbrev pub linked : Option ℕ → List Chunk → List Chunk
linked none chunks = []
linked (some i) chunks = take (suc i) chunks

-- How a round of the loop ends: with a frame, with another chunk to try, or at no chunk.
pub data Round : Type 0 where
  placed : ℕ → Allocator → Round
  move : ℕ → Allocator → Round
  broken : Round

-- The bytes of a frame of `sz` bytes with its prefix.
abbrev pub frame_bytes : ℕ → ℕ
frame_bytes sz = round_up (add64 prefix_size sz) prefix_size

-- What follows a round: the result, or the rest of the loop.
abbrev pub go_on : Round → (ℕ → Allocator → Option (ℕ × Allocator)) → Option (ℕ × Allocator)
go_on (placed r a) rest = some (r, a)
go_on (move j a) rest = rest j a
go_on broken rest = none

module _ (new_at : ℕ → ℕ → ℕ) where
  -- `_M_allocate_chunk`: the allocator with the new chunk linked, and the chunk.
  unfoldable pub allocate_chunk : ℕ → Allocator → Chunk × Allocator
  allocate_chunk hint a =
      let cap = if ltb a.next_cap hint then hint else a.next_cap in
      let n = add64 prefix_size cap in
      let vptr = new_at (length a.chunks) n in
      let chunk : Chunk = record { base = vptr; limit = vptr + n } in
      (
        chunk,
        record a {
          chunks = linked a.cur a.chunks ++ chunk ∷ [];
          next_cap = u64 (cap * growth_factor);
        },
      )

  -- A new chunk becomes the current one.
  unfoldable pub grow : ℕ → Allocator → Allocator
  unfolding allocate_chunk
  grow hint a =
      let (chunk, a') = allocate_chunk hint a in
      record a' { cur = some (length (linked a.cur a.chunks)); bump = chunk_start chunk }

  -- The end of a round that found no room: the next chunk if there is one, or a new chunk.
  unfoldable pub move_on : Option Chunk → ℕ → (n : ℕ) → Allocator → Round
  move_on (some c) i n a = move (suc i) (record a { cur = some (suc i); bump = chunk_start c })
  move_on none i n a = move (length (linked a.cur a.chunks)) (grow n a)

  -- One round of the loop of `_M_push_stack_frame` with chunk `i` current.
  unfoldable pub round_at : Option Chunk → ℕ → Saved → (n : ℕ) → Allocator → Round
  unfolding move_on
  round_at none i saved n a = broken
  round_at (some c) i saved n a =
      if leb (a.bump + prefix_size + n) c.limit
      then placed (a.bump + prefix_size)
          (record a { bump = a.bump + n; prefixes = put_prefix a.prefixes a.bump saved })
      else move_on (get_elem? a.chunks (suc i)) i n a

  -- The loop, on fuel; `none` also stands for a current chunk that is not there.
  unfoldable pub push_loop : ℕ → ℕ → Saved → (n : ℕ) → Allocator → Option (ℕ × Allocator)
  unfolding round_at
  push_loop zero i saved n a = none
  push_loop (suc k) i saved n a =
      go_on (round_at (get_elem? a.chunks i) i saved n a) (λ j a'. push_loop k j saved n a')

  unfoldable pub push_at : ℕ → ℕ → Allocator → Option ℕ → Option (ℕ × Allocator)
  push_at fuel n a none = none
  push_at fuel n a (some i) = push_loop fuel i (record { chunk = i; bump = a.bump }) n a

  -- The first chunk is made when there is none.
  unfoldable pub ready : ℕ → Allocator → Option ℕ → Allocator
  ready n a none = grow n a
  ready n a (some i) = a

  -- `_M_push_stack_frame`: where the frame stands, and the new allocator.
  unfoldable pub push_stack_frame : ℕ → ℕ → Allocator → Option (ℕ × Allocator)
  unfolding push_at ready
  push_stack_frame fuel sz a =
      let a' = ready (frame_bytes sz) a a.cur in push_at fuel (frame_bytes sz) a' a'.cur

-- `_M_pop_stack_frame`
unfoldable pub pop_stack_frame : ℕ → Allocator → Allocator
pop_stack_frame frame a =
    let saved = a.prefixes (frame - prefix_size) in
    record a { cur = some saved.chunk; bump = saved.bump }
