-- ===== src/Arena/Layout.antt =====
-- include/__ngr/__core/__memory_resource.hpp: where the blocks of a mapping lie.
use model_lib.Base.{
  ℕ, zero, suc, ◌+◌, ◌*◌, ◌%◌, ◌≤◌, ◌<◌, ◌≡◌, refl, ap, some, get_elem?, length, arith,
}
use model_lib.Arena.{place_blocks, mapping_blocks, mapping_size, per_mapping, Subrange, base, iovec}

length-place_blocks : (j a : ℕ) → length (place_blocks j a) ≡ j
unfolding place_blocks
length-place_blocks zero a = refl
length-place_blocks (suc j) a = ap suc (length-place_blocks j (a + 4160))

pub length-mapping_blocks : (p : ℕ) → length (mapping_blocks p) ≡ 64
unfolding mapping_blocks
length-mapping_blocks p = length-place_blocks 64 (p + 4096)

placed : (j a i b : ℕ) → get_elem? (place_blocks j a) i ≡ some b → (i < j) × (b ≡ a + 4160 * i)
unfolding place_blocks
placed zero a i b h = absurd (cc)
placed (suc j) a zero b h = ground arith
placed (suc j) a (suc i) b h = omega (arith, placed j (a + 4160) i b h)

-- A mapping is a whole number of pages and holds 64 blocks, each a header of 64 bytes and 4096 bytes
-- of data, aligned to 64 bytes, that end before the next block and inside the mapping; and a range
-- that ends within the data of its block is given to the kernel as bytes of that block.
pub mapping_blocks_bounds :
    (p i a : ℕ) (x : Subrange)
    → p % 4096 ≡ 0
    → get_elem? (mapping_blocks p) i ≡ some a
    → x.source ≡ a
    → x.offset + x.len ≤ 4096
    → (length (mapping_blocks p) ≡ per_mapping)
      × (i < per_mapping)
      × (a ≡ p + 4096 + i * 4160)
      × (a % 64 ≡ 0)
      × (a + 4160 ≤ p + mapping_size)
      × (mapping_size % 4096 ≡ 0)
      × (a + 64 ≤ (iovec x).0)
      × ((iovec x).0 + (iovec x).1 ≤ a + 4160)
unfolding mapping_blocks mapping_size base iovec
mapping_blocks_bounds p i a x page h s fits =
    let e = placed per_mapping (p + 4096) i a h in
    (
      length-mapping_blocks p,
      e.0,
      omega (arith, e.1),
      omega (arith, e.1),
      omega (arith, e.0, e.1),
      refl,
      omega arith,
      omega arith,
    )
