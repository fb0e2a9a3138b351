-- ===== src/Blocks.antt =====
-- include/__ngr/__protocal/__memory_resource.hpp: the size classes of I/O blocks, the choice of a
-- class, and the layout of a block's buffers and descriptors in its mapping.
pub mod Bounds
use model_lib.Base.{
  ℕ, zero, suc, ◌+◌, ◌-◌, ◌*◌, ◌%◌, ◌^◌, Bool, true, false, Option, none, some, List, [], ◌∷◌, ◌++◌,
  get_elem?, ◌==◌, if◌then◌else◌,
}
use model_lib.Base.Words.{u32, add32, sub32, mul32}
use model_lib.Base.Log.{clz}
use model_lib.RoundUp.{round_up}

-- `__GCC_DESTRUCTIVE_SIZE`, to which a descriptor is aligned and which is its size
abbrev pub destructive_size : ℕ
destructive_size = 64

-- bit fields of 22, 7, 6 and 5 bits
pub record BlockScMeta : Type 0 where
  pub len : ℕ
  pub cnt : ℕ
  pub threshold : ℕ
  pub batch : ℕ

abbrev pub block_sc_meta : ℕ → ℕ → ℕ → ℕ → BlockScMeta
block_sc_meta l c t b = record { len = l; cnt = c; threshold = t; batch = b }

unfoldable pub block_n_byte : BlockScMeta → ℕ
unfolding round_up
block_n_byte m = u32 (round_up (mul32 (add32 m.len destructive_size) m.cnt) 4096)

-- `__k_block_sc_meta`
abbrev pub block_sc_metas : List BlockScMeta
block_sc_metas =
    block_sc_meta 4096 64 32 16
    ∷ block_sc_meta 8192 32 16 8
    ∷ block_sc_meta 16384 16 8 4
    ∷ block_sc_meta 32768 16 8 4
    ∷ block_sc_meta 65536 8 4 2
    ∷ block_sc_meta 131072 8 4 2
    ∷ block_sc_meta 262144 4 2 1
    ∷ block_sc_meta 524288 4 2 1
    ∷ block_sc_meta 1048576 2 2 1
    ∷ block_sc_meta 2097152 1 1 1
    ∷ []

unfoldable pub choose_blksc : ℕ → ℕ
unfolding clz
choose_blksc size = sub32 19 (clz size)

pub record Descriptor : Type 0 where
  pub address : ℕ
  pub bid : ℕ
  pub sc : ℕ
  pub refcount : ℕ

-- The reference count is a `__s32`, kept as its bit pattern; a decrement returns the new value.
unfoldable pub refcnt_increment : Descriptor → Descriptor
refcnt_increment d = record d { refcount = add32 d.refcount 1 }

unfoldable pub refcnt_decrement : Descriptor → ℕ × Descriptor
refcnt_decrement d = (sub32 d.refcount 1, record d { refcount = sub32 d.refcount 1 })

-- The loop of the constructor of `__block`: descriptor `n` stands behind buffer `n`, and is pushed
-- to the back of the free queue. `rounds` is what is left of `cnt`.
unfoldable pub place_descriptors : ℕ → (base k n : ℕ) → BlockScMeta → (r bid : ℕ) → List Descriptor
place_descriptors zero base k n m r bid = []
place_descriptors (suc rounds) base k n m r bid =
    record { address = base + mul32 n k + m.len; bid = add32 bid n; sc = r; refcount = 1 }
    ∷ place_descriptors rounds base k (n + 1) m r bid

unfoldable pub block_free : (base r bid : ℕ) → BlockScMeta → List Descriptor
unfolding place_descriptors
block_free base r bid m = place_descriptors m.cnt base (add32 destructive_size m.len) 0 m r bid

-- `MAP_HUGETLB` is asked for a class of one block.
unfoldable pub huge : BlockScMeta → Bool
huge m = m.cnt == 1
