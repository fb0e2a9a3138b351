-- ===== src/Frames/Fresh.antt =====
-- include/__ngr/__core/__allocator.hpp: what one round of `_M_push_stack_frame` does, and
-- what a chunk that was just made holds.
use mathlib.Core.Path.{subst}
use model_lib.Base.{
  le→leb, ℕ, suc, ◌+◌, ◌-◌, ◌*◌, ◌^◌, ◌≤◌, ◌<◌, ◌≡◌, refl, sym, Option, none, some, [], ◌∷◌, ◌++◌,
  ltb, leb, if◌then◌else◌, length, get_elem?, arith, Bool-cases, inl, inr, true, false, leb→le,
  ==-self, get_elem?-none, get_elem?-last, length-append,
}
use native.Mathlib.Nat.{le_refl}
use model_lib.Base.Words.{add64}
use model_lib.Frames.{
  Chunk, prefix_size, chunk_start, Saved, Allocator, put_prefix, linked, allocate_chunk, grow,
  push_loop, pop_stack_frame,
}

-- A frame of `n` bytes, its prefix included, at `r`: inside the current chunk, behind its prefix,
-- with the bump pointer at its end.
pub record Placed (saved : Saved) (n : ℕ) (r : ℕ) (a : Allocator) : Type 0 where
  pub keeps : a.prefixes (r - prefix_size) ≡ saved
  pub ends : a.bump + prefix_size ≡ r + n
  pub room :
      (i : ℕ) × (c : Chunk) × (a.cur ≡ some i)
      × (get_elem? a.chunks i ≡ some c)
      × (chunk_start c + prefix_size ≤ r)
      × (r + n ≤ c.limit)

abbrev pub Pushed : Saved → ℕ → Option (ℕ × Allocator) → Type 0
Pushed saved n o = (r : ℕ) × (a : Allocator) × (o ≡ some (r, a)) × Placed saved n r a

-- A push gives a frame of `n` bytes, and the pop of that frame gives back where `start` was.
abbrev pub PushesAndPops : Allocator → ℕ → Option (ℕ × Allocator) → Type 0
PushesAndPops start n o =
    (r : ℕ) × (a : Allocator) × (o ≡ some (r, a))
    × (saved : Saved) × Placed saved n r a
    × ((pop_stack_frame r a).cur ≡ start.cur)
    × ((pop_stack_frame r a).bump ≡ start.bump)

abbrev pub saved_at : ℕ → Allocator → Saved
saved_at i a = record { chunk = i; bump = a.bump }

-- Chunk `i` is `c`, it is current, and the bump pointer is past its prefix.
pub record InChunk (i : ℕ) (c : Chunk) (a : Allocator) : Type 0 where
  pub current : a.cur ≡ some i
  pub found : get_elem? a.chunks i ≡ some c
  pub started : chunk_start c ≤ a.bump

-- A chunk of `size` bytes that was just made: it is the last, and none of it is taken.
pub record Fresh (size i : ℕ) (c : Chunk) (a : Allocator) : Type 0 where
  pub within : InChunk i c a
  pub unused : a.bump ≡ chunk_start c
  pub limit : c.limit ≡ chunk_start c + size
  pub doubled : a.next_cap ≡ size * 2
  pub last : get_elem? a.chunks (suc i) ≡ none

unfoldable pub new_cap : ℕ → Allocator → ℕ
new_cap n a = if ltb a.next_cap n then n else a.next_cap

pub new_cap-wide :
    (n : ℕ) (a : Allocator) → n + prefix_size ≤ a.next_cap → n + prefix_size ≤ new_cap n a
unfolding new_cap
new_cap-wide n a h = ground arith

pub new_cap-bounds :
    (n : ℕ) (a : Allocator)
    → n < 2 ^ 60
    → a.next_cap < 2 ^ 60
    → (n ≤ new_cap n a) × (new_cap n a < 2 ^ 60)
unfolding new_cap
new_cap-bounds n a h h' = (ground arith, ground arith)

module _ (new_at : ℕ → ℕ → ℕ) where
  pub grow-Fresh :
      (n : ℕ) (a : Allocator)
      → a.next_cap < 2 ^ 62
      → n < 2 ^ 62
      → (c : Chunk) × Fresh (new_cap n a) (length (linked a.cur a.chunks)) c (grow new_at n a)
        × ((grow new_at n a).prefixes ≡ a.prefixes)
  unfolding grow allocate_chunk new_cap
  grow-Fresh n a h k = (
    chunk,
    record {
      within = record {
        current = refl;
        found = get_elem?-last (linked a.cur a.chunks) chunk;
        started = le_refl (chunk_start chunk);
      };
      unused = refl;
      limit = omega (arith, small);
      doubled = omega (arith, small);
      last =
          get_elem?-none (linked a.cur a.chunks ++ chunk ∷ [])
            (suc (length (linked a.cur a.chunks)))
            (omega (arith, length-append (linked a.cur a.chunks) (chunk ∷ [])));
    },
    refl,
  )
    where
      cap : ℕ
      cap = if ltb a.next_cap n then n else a.next_cap

      small : cap < 2 ^ 62
      small = ground arith

      chunk : Chunk
      chunk =
          let v : ℕ = new_at (length a.chunks) (add64 prefix_size cap) in
          record { base = v; limit = v + add64 prefix_size cap }

  -- A round with room ends the loop.
  pub fits-Pushed :
      (k i : ℕ) (c : Chunk) (saved : Saved) (n : ℕ) (a : Allocator)
      → InChunk i c a
      → leb (a.bump + prefix_size + n) c.limit ≡ true
      → Pushed saved n (push_loop new_at (suc k) i saved n a)
  unfolding push_loop
  fits-Pushed k i c saved n a is fit = (
    a.bump + prefix_size,
    record a { bump = a.bump + n; prefixes = put_prefix a.prefixes a.bump saved },
    rw (is.found, fit),
    record {
      keeps = kept;
      ends = omega arith;
      room = (i, c, is.current, is.found, omega (arith, is.started), leb→le _ _ fit);
    },
  )
    where
      back : a.bump + prefix_size - prefix_size ≡ a.bump
      back = omega arith

      kept : put_prefix a.prefixes a.bump saved (a.bump + prefix_size - prefix_size) ≡ saved
      kept = rw (back, ==-self a.bump)

  -- A round without room goes on at the next chunk, or at a new one.
  pub move-next :
      (k i : ℕ) (c c' : Chunk) (saved : Saved) (n : ℕ) (a : Allocator)
      → get_elem? a.chunks i ≡ some c
      → leb (a.bump + prefix_size + n) c.limit ≡ false
      → get_elem? a.chunks (suc i) ≡ some c'
      → push_loop new_at (suc k) i saved n a
        ≡ push_loop new_at k
            (suc i)
            saved
            n
            (record a { cur = some (suc i); bump = chunk_start c' })
  unfolding push_loop
  move-next k i c c' saved n a e full e' = rw (e, full, e')

  pub move-new :
      (k i : ℕ) (c : Chunk) (saved : Saved) (n : ℕ) (a : Allocator)
      → get_elem? a.chunks i ≡ some c
      → leb (a.bump + prefix_size + n) c.limit ≡ false
      → get_elem? a.chunks (suc i) ≡ none
      → push_loop new_at (suc k) i saved n a
        ≡ push_loop new_at k (length (linked a.cur a.chunks)) saved n (grow new_at n a)
  unfolding push_loop
  move-new k i c saved n a e full e' = rw (e, full, e')

  -- A chunk just made holds the frame, or is given up for one of twice its size.
  pub new_chunk-Pushed :
      (k size i : ℕ) (c : Chunk) (saved : Saved) (n : ℕ) (a : Allocator)
      → Fresh size i c a
      → 16 ≤ n
      → n ≤ size
      → size < 2 ^ 61
      → Pushed saved n (push_loop new_at (suc (suc k)) i saved n a)
  unfolding new_cap
  new_chunk-Pushed k size i c saved n a f h1 h2 h3 =
      elim (Bool-cases (leb (a.bump + prefix_size + n) c.limit)) [
        | inl fit ↦ fits-Pushed (suc k) i c saved n a f.within fit
        | inr full ↦
            subst (Pushed saved n) (sym (move-new (suc k) i c saved n a f.within.found full f.last))
              (fits-Pushed k _ g.0 saved n _ g.1.within (le→leb _ _ (roomy g.0 g.1)))
      ]
    where
      g :
          (c' : Chunk) × Fresh (new_cap n a) (length (linked a.cur a.chunks)) c' (grow new_at n a)
          × ((grow new_at n a).prefixes ≡ a.prefixes)
      g = grow-Fresh n a (omega (arith, f.doubled)) (omega arith)

      wide : n + prefix_size ≤ new_cap n a
      wide = new_cap-wide n a (omega (arith, f.doubled))

      roomy :
          (c' : Chunk)
          → Fresh (new_cap n a) (length (linked a.cur a.chunks)) c' (grow new_at n a)
          → (grow new_at n a).bump + prefix_size + n ≤ c'.limit
      roomy c' f' = omega (arith, f'.unused, f'.limit, f.doubled, wide)
