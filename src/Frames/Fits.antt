-- ===== src/Frames/Fits.antt =====
-- include/__ngr/__core/__allocator.hpp: `_M_push_stack_frame` ends, with a frame inside a chunk, and
-- `_M_pop_stack_frame` goes back to where it began.
use mathlib.Core.Path.{subst}
use model_lib.Base.{
  ℕ, zero, suc, ◌+◌, ◌^◌, ◌≤◌, ◌<◌, ◌≡◌, refl, sym, ap, ◌∙◌, none, some, leb, length, get_elem?,
  arith, Bool-cases, inl, inr, Option-cases, ◌⊎◌, get_elem?-lt,
}
use native.Mathlib.Nat.{le_refl}
use model_lib.Base.Words.{add64}
use model_lib.RoundUp.{round_up_least}
use model_lib.Frames.{
  Chunk, prefix_size, chunk_start, Saved, Allocator, linked, grow, push_loop, push_at,
  push_stack_frame, pop_stack_frame, frame_bytes, ready,
}
use model_lib.Frames.Fresh.{
  Pushed, PushesAndPops, saved_at, InChunk, Fresh, new_cap, grow-Fresh, fits-Pushed, move-next,
  move-new, new_cap-bounds, new_chunk-Pushed,
}

module _ (new_at : ℕ → ℕ → ℕ) where
  -- A round either ends the loop, or the loop goes on at the next chunk, or at a new one.
  round-Pushed :
      (k i : ℕ) (c : Chunk) (saved : Saved) (n : ℕ) (a : Allocator)
      → InChunk i c a
      → 16 ≤ n
      → n < 2 ^ 60
      → a.next_cap < 2 ^ 60
      → ((c' : Chunk)
          → get_elem? a.chunks (suc i) ≡ some c'
          → Pushed saved n (
              push_loop new_at
                (suc (suc k))
                (suc i)
                saved
                n
                (record a { cur = some (suc i); bump = chunk_start c' })))
      → Pushed saved n (push_loop new_at (suc (suc (suc k))) i saved n a)
  round-Pushed k i c saved n a is h16 h60 next60 next =
      elim (Bool-cases (leb (a.bump + prefix_size + n) c.limit)) [
        | inl fit ↦ fits-Pushed new_at (suc (suc k)) i c saved n a is fit
        | inr full ↦ elim (Option-cases (get_elem? a.chunks (suc i))) [
          | inl e ↦
              subst (Pushed saved n)
                (sym (move-new new_at (suc (suc k)) i c saved n a is.found full e)) made
          | inr (c', e) ↦
              subst (Pushed saved n)
                (sym (move-next new_at (suc (suc k)) i c c' saved n a is.found full e)) (next c' e)
        ]
      ]
    where
      made : Pushed saved n (
          push_loop new_at (suc (suc k)) (length (linked a.cur a.chunks)) saved n (grow new_at n a))
      made =
          let g = grow-Fresh new_at n a (omega arith) (omega arith) in
          let b = new_cap-bounds n a h60 next60 in
          new_chunk-Pushed new_at k _ _ g.0 saved n _ g.1 h16 b.0 (omega (arith, b.1))

  -- The chunks behind the current one are tried first.
  walk-Pushed :
      (d i : ℕ) (c : Chunk) (saved : Saved) (n : ℕ) (a : Allocator)
      → InChunk i c a
      → length a.chunks ≤ i + suc d
      → 16 ≤ n
      → n < 2 ^ 60
      → a.next_cap < 2 ^ 60
      → Pushed saved n (push_loop new_at (suc (suc (suc d))) i saved n a)
  walk-Pushed zero i c saved n a is within h16 h60 next60 =
      round-Pushed zero i c saved n a is h16 h60 next60
        (λ c' e. absurd (omega (arith, get_elem?-lt a.chunks (suc i) c' e)))
  walk-Pushed (suc d) i c saved n a is within h16 h60 next60 =
      round-Pushed (suc d) i c saved n a is h16 h60 next60 (λ c' e.
        walk-Pushed d (suc i) c' saved n _
          (record { current = refl; found = e; started = le_refl _ }) (omega arith) h16 h60 next60)

  frame_bytes-bounds :
      (sz : ℕ)
      → sz < 2 ^ 59
      → (16 ≤ frame_bytes sz) × (frame_bytes sz < 2 ^ 60) × (sz + 16 ≤ frame_bytes sz)
  frame_bytes-bounds sz h =
      let r = round_up_least 4 (add64 prefix_size sz) (omega arith) (omega arith) in
      (omega (arith, r.0), omega (arith, r.1), omega (arith, r.0))

  -- A frame pushed from a current chunk goes back to it.
  frame_goes_back :
      (fuel i n : ℕ) (start : Allocator)
      → start.cur ≡ some i
      → Pushed (saved_at i start) n (push_loop new_at fuel i (saved_at i start) n start)
      → PushesAndPops start n (push_at new_at fuel n start start.cur)
  unfolding push_at pop_stack_frame
  frame_goes_back fuel i n start e (r, a', e', placed') = (
    r,
    a',
    subst (λ o. push_at new_at fuel n start o ≡ some (r, a')) (sym e) e',
    saved_at i start,
    placed',
    ap (λ (v : Saved). some v.chunk) placed'.keeps ∙ sym e,
    ap (λ (v : Saved). v.bump) placed'.keeps,
  )

  -- Pushing a frame always ends, after at most three rounds more than there are chunks, with a frame
  -- of the rounded size inside the current chunk, behind a prefix that brings the pop of this frame
  -- back to the chunk and the bump pointer the push started from; an allocator without a current
  -- chunk makes one first.
  pub push_stack_frame-pops :
      (sz : ℕ) (a : Allocator)
      → sz < 2 ^ 59
      → a.next_cap < 2 ^ 60
      → (a.cur ≡ none) ⊎ ((i : ℕ) × (c : Chunk) × InChunk i c a)
      → PushesAndPops
          (ready new_at (frame_bytes sz) a a.cur)
          (frame_bytes sz)
          (push_stack_frame new_at (suc (suc (suc (length a.chunks)))) sz a)
  unfolding push_stack_frame ready
  push_stack_frame-pops sz a small next60 begun = elim begun [
    | inl e ↦
        subst
          (λ o. PushesAndPops (ready new_at n a o) n (
            push_at new_at (suc (suc (suc (length a.chunks)))) n (ready new_at n a o)
              (ready new_at n a o).cur))
          (sym e) (frame_goes_back _ _ n _ g.1.within.current made)
    | inr (i, c, is) ↦
        subst
          (λ o. PushesAndPops (ready new_at n a o) n (
            push_at new_at (suc (suc (suc (length a.chunks)))) n (ready new_at n a o)
              (ready new_at n a o).cur))
          (sym is.current)
          (frame_goes_back _ i n a is.current
            (walk-Pushed (length a.chunks) i c _ n a is (omega arith) f.0 f.1 next60))
  ]
    where
      n : ℕ
      n = frame_bytes sz

      f : (16 ≤ n) × (n < 2 ^ 60) × (sz + 16 ≤ n)
      f = frame_bytes-bounds sz small

      g :
          (c : Chunk) × Fresh (new_cap n a) (length (linked a.cur a.chunks)) c (grow new_at n a)
          × ((grow new_at n a).prefixes ≡ a.prefixes)
      g = grow-Fresh new_at n a (omega arith) (omega (arith, f.1))

      i0 : ℕ
      i0 = length (linked a.cur a.chunks)

      made : Pushed (saved_at i0 (grow new_at n a)) n (
          push_loop new_at
            (suc (suc (suc (length a.chunks))))
            i0
            (saved_at i0 (grow new_at n a))
            n
            (grow new_at n a))
      made =
          let b = new_cap-bounds n a f.1 next60 in
          new_chunk-Pushed new_at (suc (length a.chunks)) _ _ g.0 _ n _ g.1 f.0 b.0
            (omega (arith, b.1))
