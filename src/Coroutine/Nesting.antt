-- ===== src/Coroutine/Nesting.antt =====
-- include/__ngr/__core/__task.hpp: frames that end in the reverse order of their beginnings leave the
-- thread as it was.
use model_lib.Base.{
  ==_iff, ℕ, suc, ◌+◌, ◌-◌, ◌%◌, ◌^◌, ◌≤◌, ◌<◌, ◌≡◌, ◌≢◌, refl, ap, ◌∙◌, Option, none, some, length,
  inl, inr, ◌⊎◌, ℕ_discrete, arith, ==-self, ne→==false,
}
use model_lib.Base.Words.{add64}
use model_lib.RoundUp.{round_up, round_up_ptr, round_up-eq}
use model_lib.Store.{Ptr, null}
use model_lib.Frames.{
  Chunk, Allocator, Saved, fresh_allocator, push_stack_frame, pop_stack_frame, ready, frame_bytes,
}
use model_lib.Frames.Fresh.{InChunk}
use model_lib.Frames.Fits.{push_stack_frame-pops}
use model_lib.Coroutine.{
  Thread, put_live, put_owned, new_frame, delete_frame, alloc_address, allocate_size, push_on,
}

rounded : (x : ℕ) → x + 8 ≤ 2 ^ 64 → round_up x 8 ≡ x + 7 - (x + 7) % 8
rounded x fits = round_up-eq 3 x (omega arith) fits ∙ omega arith

rounded_ptr : (x : ℕ) → x + 8 ≤ 2 ^ 64 → round_up_ptr x 8 ≡ x + 7 - (x + 7) % 8
unfolding round_up_ptr round_up
rounded_ptr x fits = rounded x fits

-- The pointer to the allocator stands behind the bytes of the frame, aligned, and inside the bytes
-- that are asked for.
pub alloc_address_bounds :
    (fr n : ℕ)
    → fr % 8 ≡ 0
    → fr + n + 16 ≤ 2 ^ 64
    → (fr + n ≤ alloc_address fr n)
      × (alloc_address fr n % 8 ≡ 0)
      × (alloc_address fr n + 8 ≤ fr + allocate_size n)
unfolding alloc_address allocate_size
alloc_address_bounds fr n aligned fits =
    let sum : add64 fr n ≡ fr + n = omega (arith, fits) in
    let at : round_up_ptr (add64 fr n) 8 ≡ fr + n + 7 - (fr + n + 7) % 8 =
      ap (λ (x : ℕ). round_up_ptr x 8) sum ∙ rounded_ptr (fr + n) (omega arith) in
    let size : add64 (round_up n 8) 8 ≡ n + 7 - (n + 7) % 8 + 8 =
      omega (arith, rounded n (omega arith)) in
    (omega (arith, at), omega (arith, at), omega (arith, at, size, aligned))

-- The thread after a frame of `n` bytes was put at `r` with the allocator at `pa`.
abbrev after_push : (pa owner : Ptr) → (n r : ℕ) → Allocator → Thread → Thread
after_push pa owner n r a t = record t {
  live = put_live t.live pa (some a);
  owned = put_owned t.owned (alloc_address r n) owner;
}

push_on-some :
    (new_at : Ptr → ℕ → ℕ → ℕ) (fuel : ℕ) (pa owner : Ptr) (n : ℕ) (t : Thread)
    (o : Option Allocator) (a : Allocator) (r : ℕ) (a' : Allocator)
    → o ≡ some a
    → push_stack_frame (new_at pa) fuel (allocate_size n) a ≡ some (r, a')
    → push_on new_at fuel pa owner n t o ≡ some (r, after_push pa owner n r a' t)
push_on-some new_at fuel pa owner n t o a r a' e e' = rw (e, e')

-- A frame that owns no allocator is popped from the thread's.
delete_nested :
    (r n : ℕ) (t : Thread) (a : Allocator)
    → t.owned (alloc_address r n) ≡ null
    → t.live t.tls ≡ some a
    → delete_frame r n t
      ≡ some (record t { live = put_live t.live t.tls (some (pop_stack_frame r a)) })
unfolding delete_frame
delete_nested r n t a e e' = rw (e, e')

-- A frame that owns an allocator takes it along.
pub delete_owner :
    (r n : ℕ) (t : Thread) (pa : Ptr) (a : Allocator)
    → t.owned (alloc_address r n) ≡ pa
    → pa ≢ null
    → t.live pa ≡ some a
    → delete_frame r n t ≡ some (record t { tls = null; live = put_live t.live pa none })
unfolding delete_frame
delete_owner r n t pa a e real e' = rw (e, ne→==false pa null real, e')

ready_same : (na : ℕ → ℕ → ℕ) (n i : ℕ) (a : Allocator) → a.cur ≡ some i → ready na n a a.cur ≡ a
unfolding ready
ready_same na n i a e = ap (λ o. ready na n a o) e

module _ (new_at : Ptr → ℕ → ℕ → ℕ) where
  -- A frame of a thread that has an allocator is put there; when it ends, the allocator is back at the
  -- chunk and the bump pointer that it had, and the thread still points at it.
  pub nested_frame :
      (n : ℕ) (fresh : Ptr) (memory : ℕ → Saved) (t : Thread) (a : Allocator) (i : ℕ) (c : Chunk)
      → t.tls ≢ null
      → t.live t.tls ≡ some a
      → InChunk i c a
      → allocate_size n < 2 ^ 59
      → a.next_cap < 2 ^ 60
      → (r : ℕ) × (t1 : Thread) × (t2 : Thread) × (a2 : Allocator) × (new_frame new_at
            (suc (suc (suc (length a.chunks))))
            fresh
            memory
            n
            t
          ≡ some (r, t1))
        × (delete_frame r n t1 ≡ some t2)
        × (t2.tls ≡ t.tls)
        × (t2.live t.tls ≡ some a2)
        × (a2.cur ≡ a.cur)
        × (a2.bump ≡ a.bump)
  unfolding new_frame
  nested_frame n fresh memory t a i c real e is small cap =
      let (r, a', pushed, saved, at, cur, bump) =
        push_stack_frame-pops (new_at t.tls) (allocate_size n) a small cap (inr (i, c, is)) in
      let t1 = after_push t.tls null n r a' t in
      let same = ready_same (new_at t.tls) (frame_bytes (allocate_size n)) i a is.current in
      (
        r,
        t1,
        record t1 { live = put_live t1.live t.tls (some (pop_stack_frame r a')) },
        pop_stack_frame r a',
        rw (ne→==false t.tls null real)
            (push_on-some new_at _ t.tls null n t (t.live t.tls) a r a' e pushed),
        delete_nested r n t1 a' (rw (==-self (alloc_address r n))) (rw (==-self t.tls)),
        refl,
        rw (==-self t.tls),
        cur ∙ ap (λ b. b.cur) same,
        bump ∙ ap (λ b. b.bump) same,
      )

  -- The first frame of a thread makes an allocator and owns it.
  pub owned_frame :
      (n : ℕ) (fresh : Ptr) (memory : ℕ → Saved) (t : Thread)
      → t.tls ≡ null
      → fresh ≢ null
      → allocate_size n < 2 ^ 59
      → (r : ℕ) × (t1 : Thread) × (a : Allocator) × (new_frame new_at 3 fresh memory n t
          ≡ some (r, t1))
        × (t1.tls ≡ fresh)
        × (t1.owned (alloc_address r n) ≡ fresh)
        × (t1.live fresh ≡ some a)
        × ((q : Ptr) → q ≢ fresh → t1.live q ≡ t.live q)
  unfolding new_frame
  owned_frame n fresh memory t e real small =
      let (r, a', pushed, saved, at, cur, bump) =
        push_stack_frame-pops (new_at fresh) (allocate_size n) (fresh_allocator memory) small
          (omega arith) (inl refl) in
      let t0 : Thread = record t {
        tls = fresh;
        live = put_live t.live fresh (some (fresh_allocator memory));
      } in
      (
        r,
        after_push fresh fresh n r a' t0,
        a',
        rw ((==_iff t.tls null).1 e) (
            push_on-some new_at 3 fresh fresh n t0 (t0.live fresh) (fresh_allocator memory) r a'
              (rw (==-self fresh)) pushed),
        refl,
        rw (==-self (alloc_address r n)),
        rw (==-self fresh),
        λ q ne. rw (ne→==false q fresh ne),
      )

  -- The first frame of a thread makes an allocator, to which the thread then points; when the frame
  -- ends, the allocator is gone and the thread points at none.
  pub top_frame :
      (n : ℕ) (fresh : Ptr) (memory : ℕ → Saved) (t : Thread)
      → t.tls ≡ null
      → fresh ≢ null
      → allocate_size n < 2 ^ 59
      → (r : ℕ) × (t1 : Thread) × (t2 : Thread) × (new_frame new_at 3 fresh memory n t
          ≡ some (r, t1))
        × (t1.tls ≡ fresh)
        × (delete_frame r n t1 ≡ some t2)
        × (t2.tls ≡ null)
        × (t2.live fresh ≡ none)
        × ((q : Ptr) → (q ≡ fresh) ⊎ (t2.live q ≡ t.live q))
  top_frame n fresh memory t e real small =
      let (r, t1, a, run, at, owned, live, others) = owned_frame n fresh memory t e real small in
      (
        r,
        t1,
        record t1 { tls = null; live = put_live t1.live fresh none },
        run,
        at,
        delete_owner r n t1 fresh a owned real live,
        refl,
        rw (==-self fresh),
        λ q. elim (ℕ_discrete q fresh) [
          | yes same ↦ inl same
          | no ne ↦ inr (rw (ne→==false q fresh ne) (others q ne))
        ],
      )
