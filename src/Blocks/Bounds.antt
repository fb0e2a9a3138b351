-- ===== src/Blocks/Bounds.antt =====
-- include/__ngr/__protocal/__memory_resource.hpp: buffers and descriptors lie inside the mapping,
-- and which class a size gets.
use model_lib.Base.{
  ℕ, zero, suc, ◌+◌, ◌-◌, ◌*◌, ◌%◌, ◌^◌, ◌≤◌, ◌<◌, ◌≡◌, refl, some, get_elem?, length, ap, arith,
}
use model_lib.Base.Log.{log2, log2_bounds, exponent_le}
use model_lib.Base.Words.{add32, sub32}
use native.Mathlib.Nat.{pow-suc}
use model_lib.Blocks.{
  add32, BlockScMeta, block_n_byte, block_sc_metas, choose_blksc, Descriptor, place_descriptors,
  block_free, destructive_size,
}
use mathlib.Core.Option.{some-injective}
use mathlib.Core.Path.{subst}

-- What the table fixes of each class.
record Fits (m : BlockScMeta) (i : ℕ) : Type 0 where
  len_pow : m.len ≡ 2 ^ (12 + i)
  mapped : m.cnt * (m.len + 64) ≤ block_n_byte m
  narrow : m.len < 2 ^ 22
  small : m.cnt * (m.len + 64) < 2 ^ 22
  paged : block_n_byte m % 4096 ≡ 0

from : (i : ℕ) (m m' : BlockScMeta) → Fits m' i → some m' ≡ some m → Fits m i
from i m m' f e = subst (λ t. Fits t i) (some-injective m' m e) f

class_Fits : (i : ℕ) (m : BlockScMeta) → get_elem? block_sc_metas i ≡ some m → Fits m i
unfolding block_n_byte
class_Fits zero m h =
    from 0 m _
      (record {
        len_pow = refl;
        mapped = omega arith;
        narrow = omega arith;
        small = omega arith;
        paged = refl;
      })
      h
class_Fits (suc zero) m h =
    from 1 m _
      (record {
        len_pow = refl;
        mapped = omega arith;
        narrow = omega arith;
        small = omega arith;
        paged = refl;
      })
      h
class_Fits (suc (suc zero)) m h =
    from 2 m _
      (record {
        len_pow = refl;
        mapped = omega arith;
        narrow = omega arith;
        small = omega arith;
        paged = refl;
      })
      h
class_Fits (suc (suc (suc zero))) m h =
    from 3 m _
      (record {
        len_pow = refl;
        mapped = omega arith;
        narrow = omega arith;
        small = omega arith;
        paged = refl;
      })
      h
class_Fits (suc (suc (suc (suc zero)))) m h =
    from 4 m _
      (record {
        len_pow = refl;
        mapped = omega arith;
        narrow = omega arith;
        small = omega arith;
        paged = refl;
      })
      h
class_Fits (suc (suc (suc (suc (suc zero))))) m h =
    from 5 m _
      (record {
        len_pow = refl;
        mapped = omega arith;
        narrow = omega arith;
        small = omega arith;
        paged = refl;
      })
      h
class_Fits (suc (suc (suc (suc (suc (suc zero)))))) m h =
    from 6 m _
      (record {
        len_pow = refl;
        mapped = omega arith;
        narrow = omega arith;
        small = omega arith;
        paged = refl;
      })
      h
class_Fits (suc (suc (suc (suc (suc (suc (suc zero))))))) m h =
    from 7 m _
      (record {
        len_pow = refl;
        mapped = omega arith;
        narrow = omega arith;
        small = omega arith;
        paged = refl;
      })
      h
class_Fits (suc (suc (suc (suc (suc (suc (suc (suc zero)))))))) m h =
    from 8 m _
      (record {
        len_pow = refl;
        mapped = omega arith;
        narrow = omega arith;
        small = omega arith;
        paged = refl;
      })
      h
class_Fits (suc (suc (suc (suc (suc (suc (suc (suc (suc zero))))))))) m h =
    from 9 m _
      (record {
        len_pow = refl;
        mapped = omega arith;
        narrow = omega arith;
        small = omega arith;
        paged = refl;
      })
      h
class_Fits (suc (suc (suc (suc (suc (suc (suc (suc (suc (suc i)))))))))) m h = absurd (cc)

-- Where the constructor puts the descriptors of a block, from round `n` on.
place-bounds :
    (rounds base k n : ℕ) (m : BlockScMeta) (r bid i : ℕ) (d : Descriptor)
    → (n + rounds) * k < 2 ^ 32
    → get_elem? (place_descriptors rounds base k n m r bid) i ≡ some d
    → (i < rounds) × (d.address ≡ base + (n + i) * k + m.len)
unfolding place_descriptors
place-bounds zero base k n m r bid i d fits h = absurd (cc)
place-bounds (suc rounds) base k n m r bid zero d fits h = ground (arith, inside)
  where
    inside : n * k < 2 ^ 32
    inside = grind arith
place-bounds (suc rounds) base k n m r bid (suc i) d fits h = omega (
  arith,
  place-bounds rounds base k (n + 1) m r bid i d (again n rounds k fits) h,
  same-product n i k,
)
  where
    again : (n rounds k : ℕ) → (n + suc rounds) * k < 2 ^ 32 → (n + 1 + rounds) * k < 2 ^ 32
    again n rounds k h = omega arith

    same-product : (n i k : ℕ) → (n + 1 + i) * k ≡ (n + suc i) * k
    same-product n i k = omega arith

length-place :
    (rounds base k n : ℕ) (m : BlockScMeta) (r bid : ℕ)
    → length (place_descriptors rounds base k n m r bid) ≡ rounds
unfolding place_descriptors
length-place zero base k n m r bid = refl
length-place (suc rounds) base k n m r bid = ap suc (length-place rounds base k (n + 1) m r bid)

below : (i n k : ℕ) → i < n → i * k + k ≤ n * k
below i n k h = grind arith

-- In every size class, a block gets `cnt` descriptors; descriptor `i` stands right behind buffer
-- `i`, which starts `i` strides into the mapping, and it ends inside the bytes mapped, a whole
-- number of pages.
pub block_free_bounds :
    (c base r bid i : ℕ) (m : BlockScMeta) (d : Descriptor)
    → get_elem? block_sc_metas c ≡ some m
    → get_elem? (block_free base r bid m) i ≡ some d
    → (length (block_free base r bid m) ≡ m.cnt)
      × (i < m.cnt)
      × (d.address ≡ base + i * (m.len + destructive_size) + m.len)
      × (d.address + destructive_size ≤ base + block_n_byte m)
      × (block_n_byte m % 4096 ≡ 0)
unfolding block_free
block_free_bounds c base r bid i m d hm hd =
    let f = class_Fits c m hm in
    let stride : add32 destructive_size m.len ≡ m.len + 64 = omega (arith, f.narrow) in
    let place =
      place-bounds m.cnt base (m.len + 64) 0 m r bid i d (omega (arith, f.small))
        (rw stride at hd) in
    (
      length-place m.cnt base _ 0 m r bid,
      place.0,
      omega (arith, place.1),
      omega (arith, place.1, below i m.cnt (m.len + 64) place.0, f.mapped),
      f.paged,
    )

choose-log2 : (size : ℕ) → choose_blksc size ≡ sub32 19 (31 - log2 size)
unfolding choose_blksc
choose-log2 size = refl

class_at : (i : ℕ) → i < 10 → (m : BlockScMeta) × (get_elem? block_sc_metas i ≡ some m)
class_at zero h = (_, refl)
class_at (suc zero) h = (_, refl)
class_at (suc (suc zero)) h = (_, refl)
class_at (suc (suc (suc zero))) h = (_, refl)
class_at (suc (suc (suc (suc zero)))) h = (_, refl)
class_at (suc (suc (suc (suc (suc zero))))) h = (_, refl)
class_at (suc (suc (suc (suc (suc (suc zero)))))) h = (_, refl)
class_at (suc (suc (suc (suc (suc (suc (suc zero))))))) h = (_, refl)
class_at (suc (suc (suc (suc (suc (suc (suc (suc zero)))))))) h = (_, refl)
class_at (suc (suc (suc (suc (suc (suc (suc (suc (suc zero))))))))) h = (_, refl)
class_at (suc (suc (suc (suc (suc (suc (suc (suc (suc (suc i)))))))))) h = absurd (omega arith)

-- A size from 4 KB to below 4 MB gets the class whose length is the greatest power of two that is
-- not above it.
pub choose_blksc-len :
    (size : ℕ)
    → 4096 ≤ size
    → size < 2 ^ 22
    → (m : BlockScMeta) × (get_elem? block_sc_metas (choose_blksc size) ≡ some m)
      × (m.len ≤ size)
      × (size < 2 * m.len)
choose_blksc-len size lo hi =
    let b = log2_bounds size (omega arith) (omega arith) in
    let least : 12 ≤ log2 size = exponent_le 12 (log2 size) size lo b.1 in
    let most : log2 size ≤ 21 = exponent_le (log2 size) 21 size b.0 hi in
    chosen (log2 size - 12) (omega arith) (omega arith) (omega (arith, choose-log2 size)) b
  where
    chosen :
        (i : ℕ)
        → i < 10
        → log2 size ≡ 12 + i
        → choose_blksc size ≡ i
        → (2 ^ log2 size ≤ size) × (size < 2 ^ suc (log2 size))
        → (m : BlockScMeta) × (get_elem? block_sc_metas (choose_blksc size) ≡ some m)
          × (m.len ≤ size)
          × (size < 2 * m.len)
    chosen i lt e index b =
        let (m, found) = class_at i lt in
        let len : m.len ≡ 2 ^ log2 size = rw e (class_Fits i m found).len_pow in
        (m, rw index found, rw len b.0, omega (arith, len, b.1, pow-suc 2 (log2 size)))
