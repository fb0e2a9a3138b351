-- ===== src/Arena.antt =====
-- include/__ngr/__core/__memory_resource.hpp: blocks of 4096 bytes with a use count, and the ranges
-- cut from them. A free block waits in the source of its thread or in the one all threads share.
pub mod Outcome
pub mod Layout
pub mod Remote
pub mod Ring
pub mod Batches
pub mod Growth
pub mod Supply
pub mod Local
pub mod Accounts
pub mod Contents
pub mod Promise
pub mod Uses
pub mod Ranges
pub mod Disjoint
pub mod Cuts
use model_lib.Base.{ℕ, zero, suc, ◌+◌, ◌-◌, ◌*◌, ◌/◌, ◌%◌, ◌==◌, if◌then◌else◌, List, [], ◌∷◌}
use model_lib.Base.Words.{u32, add32, add64}
use model_lib.RoundUp.{round_up}
use model_lib.Store.{Ptr}

-- blocks in a batch, mappings, blocks in a mapping, batches in the ring
abbrev pub batch : ℕ
batch = 16

abbrev pub mappings : ℕ
mappings = 16

abbrev pub per_mapping : ℕ
per_mapping = 64

abbrev pub slots : ℕ
slots = mappings * per_mapping / batch

-- bytes of a mapping
unfoldable pub mapping_size : ℕ
unfolding round_up
mapping_size = u32 (round_up (4096 + 4160 * per_mapping) 4096)

-- the loop of `_M_allocate` that places blocks from `addr` on
unfoldable pub place_blocks : ℕ → ℕ → List Ptr
place_blocks zero addr = []
place_blocks (suc j) addr = addr ∷ place_blocks j (addr + 4160)

unfoldable pub mapping_blocks : ℕ → List Ptr
unfolding place_blocks
mapping_blocks p = place_blocks per_mapping (p + 4096)

-- `__shared_block_subrange`
pub record Subrange : Type 0 where
  pub source : Ptr
  pub offset : ℕ
  pub len : ℕ

-- the use count of every block
abbrev pub Uses : Type 0
Uses = Ptr → ℕ

abbrev pub put_use : Uses → Ptr → ℕ → Uses
put_use f p n q = if q == p then n else f q

-- The prefix, and what the range has become.
unfoldable pub splice_prefix : ℕ → Subrange → Uses → (Subrange × Subrange) × Uses
splice_prefix n x f = (
  (
    record { source = x.source; offset = x.offset; len = n },
    record x { offset = add32 x.offset n },
  ),
  put_use f x.source (add64 (f x.source) 1),
)

-- The data of a block start 64 bytes into it.
unfoldable pub base : Subrange → ℕ
base x = x.source + 64 + x.offset

unfoldable pub iovec : Subrange → ℕ × ℕ
unfolding base
iovec x = (base x, x.len)
