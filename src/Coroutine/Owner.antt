-- ===== src/Coroutine/Owner.antt =====
-- include/__ngr/__core/__task_facade.hpp: what `_M_do_execute` leaves in the thread's pointer to its
-- allocator.
use model_lib.Base.{ℕ, ◌^◌, ◌<◌, ◌≡◌, ◌≢◌, refl, sym, ap, ◌∙◌, none, some, ==-self, ne→==false}
use model_lib.Store.{Ptr, null}
use model_lib.Frames.{Allocator, Saved}
use model_lib.Coroutine.{
  Thread, put_live, new_frame, delete_frame, alloc_address, allocate_size, register, do_execute,
}
use model_lib.Coroutine.Nesting.{owned_frame, delete_owner}

-- A body that suspends, a callback registered or not, leaves the thread with its own allocator.
suspends_with :
    (arg : ℕ) (t : Thread)
    → do_execute (λ s. some (register arg s)) (λ a s. some s) t
      ≡ some (record t { callback = none })
unfolding do_execute register
suspends_with arg t = refl

owner_ends :
    (r n : ℕ) (t : Thread) (pa : Ptr) (a : Allocator)
    → t.owned (alloc_address r n) ≡ pa
    → pa ≢ null
    → t.live pa ≡ some a
    → t.callback ≡ none
    → do_execute (delete_frame r n) (λ a s. some s) t
      ≡ some (record t { live = put_live t.live pa none })
unfolding do_execute
owner_ends r n t pa a e real e' quiet =
    rw (delete_owner r n (record t { tls = null }) pa a e real e', quiet)

-- The first task of a thread, suspended once and then resumed to its end, leaves the thread with a
-- pointer to the allocator that it destroyed: the next frame of the thread is put into an allocator
-- that does not exist.
pub first_task_dangles :
    (new_at : Ptr → ℕ → ℕ → ℕ) (n : ℕ) (fresh : Ptr) (memory : ℕ → Saved) (t : Thread) (arg : ℕ)
    → t.tls ≡ null
    → fresh ≢ null
    → allocate_size n < 2 ^ 59
    → (r : ℕ) × (t1 : Thread) × (t2 : Thread) × (t3 : Thread) × (new_frame new_at 3 fresh memory n t
        ≡ some (r, t1))
      × (do_execute (λ s. some (register arg s)) (λ a s. some s) t1 ≡ some t2)
      × (do_execute (delete_frame r n) (λ a s. some s) t2 ≡ some t3)
      × (t3.tls ≡ fresh)
      × (t3.live fresh ≡ none)
      × ((fuel m : ℕ) (other : Ptr) (memory' : ℕ → Saved)
          → new_frame new_at fuel other memory' m t3 ≡ none)
unfolding new_frame
first_task_dangles new_at n fresh memory t arg e real small =
    let (r, t1, a, run, at, owned, live, others) =
      owned_frame new_at n fresh memory t e real small in
    let t2 = record t1 { callback = none } in
    let t3 = record t2 { live = put_live t2.live fresh none } in
    (
      r,
      t1,
      t2,
      t3,
      run,
      suspends_with arg t1,
      owner_ends r n t2 fresh a owned real live refl,
      at,
      rw (==-self fresh),
      λ fuel m other memory'. lost fuel m other memory' t3 at (rw (==-self fresh)),
    )
  where
    lost :
        (fuel m : ℕ) (other : Ptr) (memory' : ℕ → Saved) (t3 : Thread)
        → t3.tls ≡ fresh
        → t3.live fresh ≡ none
        → new_frame new_at fuel other memory' m t3 ≡ none
    lost fuel m other memory' t3 at gone =
        let missing : t3.live t3.tls ≡ none = ap t3.live at ∙ gone in
        rw (ne→==false t3.tls null (λ nil. real (sym at ∙ nil)), missing)
