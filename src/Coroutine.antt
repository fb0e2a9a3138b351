-- ===== src/Coroutine.antt =====
-- include/__ngr/__core/__task.hpp and __task_facade.hpp: where coroutine frames are put, and how a task
-- is resumed. The first frame of a thread makes an allocator, which the thread then points at; each
-- frame keeps, behind its bytes, the allocator that it owns, if any.
pub mod Nesting
pub mod Owner
pub mod Promise
pub mod Awaiting
pub mod Forwarding
use model_lib.Base.{ℕ, ◌+◌, ◌%◌, ◌^◌, ◌==◌, Option, none, some, Bool, if◌then◌else◌}
use model_lib.Base.Words.{add64}
use model_lib.RoundUp.{round_up, round_up_ptr}
use model_lib.Store.{Ptr, null}
use model_lib.Frames.{Allocator, Saved, fresh_allocator, push_stack_frame, pop_stack_frame}

-- `__alloc_address`: where a frame of `n` bytes at `fr` keeps its allocator
unfoldable pub alloc_address : ℕ → ℕ → ℕ
unfolding round_up_ptr
alloc_address fr n = round_up_ptr (add64 fr n) 8

-- `__allocate_size`
unfoldable pub allocate_size : ℕ → ℕ
unfolding round_up
allocate_size n = add64 (round_up n 8) 8

-- `live` is the allocators that exist, by address; `owned` the pointers behind the frames; `tls` is
-- `__k_tls_alloc`; `callback` is what is registered to run once the task is suspended.
pub record Thread : Type 0 where
  pub tls : Ptr
  pub live : Ptr → Option Allocator
  pub owned : ℕ → Ptr
  pub callback : Option ℕ

abbrev pub put_live : (Ptr → Option Allocator) → Ptr → Option Allocator → Ptr → Option Allocator
put_live f p a q = if q == p then a else f q

abbrev pub put_owned : (ℕ → Ptr) → ℕ → Ptr → ℕ → Ptr
put_owned f at p q = if q == at then p else f q

-- The new frame, and the thread with the pointer behind it written.
abbrev pub placed :
    (pa owner : Ptr) → (n : ℕ) → Thread → Option (ℕ × Allocator) → Option (ℕ × Thread)
placed pa owner n t none = none
placed pa owner n t (some (r, a)) = some (
  r,
  record t {
    live = put_live t.live pa (some a);
    owned = put_owned t.owned (alloc_address r n) owner;
  },
)

-- `new_at pa` is where the global `operator new` puts the chunks of the allocator at `pa`.
module _ (new_at : Ptr → ℕ → ℕ → ℕ) where
  -- A use of an allocator that does not exist is a fault.
  abbrev pub push_on :
      (fuel : ℕ) → (pa owner : Ptr) → (n : ℕ) → Thread → Option Allocator → Option (ℕ × Thread)
  push_on fuel pa owner n t none = none
  push_on fuel pa owner n t (some a) =
      placed pa owner n t (push_stack_frame (new_at pa) fuel (allocate_size n) a)

  -- `operator new`: `fresh` is where a new allocator would be put, `memory` what its frame prefixes hold.
  unfoldable pub new_frame :
      (fuel : ℕ) → (fresh : Ptr) → (ℕ → Saved) → (n : ℕ) → Thread → Option (ℕ × Thread)
  unfolding allocate_size
  new_frame fuel fresh memory n t =
      let t' = record t {
        tls = fresh;
        live = put_live t.live fresh (some (fresh_allocator memory));
      } in
      if t.tls == null
      then push_on fuel fresh fresh n t' (t'.live fresh)
      else push_on fuel t.tls null n t (t.live t.tls)

-- The frame goes back to the allocator of the thread.
abbrev pub pop_on : ℕ → Thread → Option Allocator → Option Thread
pop_on fr t none = none
pop_on fr t (some a) =
    some (record t { live = put_live t.live t.tls (some (pop_stack_frame fr a)) })

-- The frame that owns the allocator takes it along.
abbrev pub destroy_owned : Ptr → Thread → Option Allocator → Option Thread
destroy_owned owner t none = none
destroy_owned owner t (some a) = some (record t { tls = null; live = put_live t.live owner none })

-- `operator delete`
unfoldable pub delete_frame : (fr n : ℕ) → Thread → Option Thread
delete_frame fr n t =
    let owner = t.owned (alloc_address fr n) in
    if owner == null then pop_on fr t (t.live t.tls) else destroy_owned owner t (t.live owner)

-- `__register`
unfoldable pub register : ℕ → Thread → Thread
register arg t = record t { callback = some arg }

-- What follows a resumption: the registered callback, once.
abbrev pub call_back : (ℕ → Thread → Option Thread) → Option ℕ → Thread → Option Thread
call_back call none t = some t
call_back call (some arg) t = call arg (record t { callback = none })

abbrev pub resumed : Ptr → (ℕ → Thread → Option Thread) → Option Thread → Option Thread
resumed prev call none = none
resumed prev call (some t) = call_back call t.callback (record t { tls = prev })

-- `_M_do_execute`: `body` runs the coroutine up to its next suspension or its end, `call` is what a
-- registered callback does.
unfoldable pub do_execute :
    (body : Thread → Option Thread) → (call : ℕ → Thread → Option Thread) → Thread → Option Thread
do_execute body call t = resumed t.tls call (body (record t { tls = null }))
