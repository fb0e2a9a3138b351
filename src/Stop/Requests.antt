-- ===== src/Stop/Requests.antt =====
-- include/__ngr/__core/__stop_inplace.hpp: the operations of a stop source, its tokens and its callback
-- objects as a whole, with no other thread in between. A wait for another thread is `none`.
pub mod Runs
use model_lib.Base.{
  ℕ, zero, suc, Bool, true, false, Option, none, some, List, [], ◌∷◌, ◌++◌, ◌==◌, not,
  if◌then◌else◌,
}
use model_lib.Store.{Ptr, null}
use model_lib.Stop.{
  none_flag, stop_requested_flag, stop_requested, locked, Round, refuse, spin, exchange, lock_round,
  try_lock_round,
}
use model_lib.Stop.Callbacks.{
  Callbacks, push_callback, remove_callback, take_callback, no_callbacks,
}

-- `completed` is `__callback_completed_` of every callback; `ran` is the callbacks executed so far, in
-- their order.
pub record StopSource : Type 0 where
  pub byte : ℕ
  pub callbacks : Callbacks
  pub notify : Bool
  pub completed : Ptr → Bool
  pub ran : List Ptr

abbrev pub fresh_source : StopSource
fresh_source = record {
  byte = none_flag;
  callbacks = no_callbacks;
  notify = false;
  completed = λ p. false;
  ran = [];
}

-- `_M_stop_requested`
abbrev pub source_stop_requested : StopSource → Bool
source_stop_requested s = stop_requested s.byte

-- `_M_execute` of a callback
abbrev pub execute : Ptr → StopSource → StopSource
execute cb s = record s { ran = s.ran ++ cb ∷ [] }

-- `_M_unlock`
abbrev pub unlock : ℕ → StopSource → StopSource
unlock prev s = record s { byte = prev }

-- A callback that the loop of `_M_request_stop` has unlinked is executed without the lock.
abbrev pub run_first : StopSource → StopSource
run_first s =
    let cb = s.callbacks.first in
    let s' =
      execute cb (record s { callbacks = take_callback s.callbacks; byte = stop_requested_flag }) in
    record s' { completed = λ a. if a == cb then true else s.completed a }

-- `_M_lock`: what follows it, with the byte that it found.
abbrev pub locking {ℓ} : {A : Type ℓ} → Round → StopSource → (StopSource → Option A) → Option A
locking refuse s k = none
locking spin s k = none
locking (exchange next) s k = k (record s { byte = next })

-- The loop of `_M_request_stop`, on fuel.
unfoldable pub request_loop : ℕ → StopSource → Option (Bool × StopSource)
request_loop zero s = none
request_loop (suc k) s =
    let s' = run_first s in
    let rest = locking (lock_round s'.byte) s' (request_loop k) in
    if s.callbacks.first == null then some (false, unlock stop_requested_flag s) else rest

-- `_M_request_stop`: whether a stop was requested before.
abbrev pub requested : ℕ → Round → StopSource → Option (Bool × StopSource)
requested fuel refuse s = some (true, s)
requested fuel spin s = none
requested fuel (exchange next) s = request_loop fuel (record s { byte = next; notify = true })

unfoldable pub request_stop : ℕ → StopSource → Option (Bool × StopSource)
unfolding request_loop
request_stop fuel s = requested fuel (try_lock_round true s.byte) s

-- `_M_try_push_front_callback`: whether the callback was registered.
abbrev pub pushed : Round → Ptr → StopSource → Option (Bool × StopSource)
pushed refuse cb s = some (false, s)
pushed spin cb s = none
pushed (exchange next) cb s =
    some
      (true, unlock none_flag (record s { byte = next; callbacks = push_callback cb s.callbacks }))

unfoldable pub try_push_front_callback : Ptr → StopSource → Option (Bool × StopSource)
try_push_front_callback cb s = pushed (try_lock_round false s.byte) cb s

-- `_M_register_callback` with a source: whether the callback object keeps its source. After a stop the
-- callback is executed at once.
abbrev pub or_execute : Ptr → Option (Bool × StopSource) → Option (Bool × StopSource)
or_execute cb none = none
or_execute cb (some (true, s)) = some (true, s)
or_execute cb (some (false, s)) = some (false, execute cb s)

unfoldable pub register_callback : Ptr → StopSource → Option (Bool × StopSource)
unfolding try_push_front_callback
register_callback cb s = or_execute cb (try_push_front_callback cb s)

-- `_M_remove_callback`: a callback that is not linked any more is waited for, once a stop has begun.
abbrev pub waited : Ptr → (prev : ℕ) → StopSource → Option StopSource
waited cb prev s =
    if s.notify
    then (if s.completed cb then some (unlock prev s) else none)
    else some (unlock prev s)

unfoldable pub remove_source_callback : Ptr → StopSource → Option StopSource
remove_source_callback cb s = locking (lock_round s.byte) s (λ l.
    let r = remove_callback cb l.callbacks in
    if r.0 then some (unlock s.byte (record l { callbacks = r.1 })) else waited cb s.byte l)

-- `~__stop_source`: whether its asserts hold.
unfoldable pub may_end : StopSource → Bool
may_end s = if locked s.byte then false else s.callbacks.first == null

-- A stop token is the address of a source, or null.
abbrev pub token_stop_possible : Ptr → Bool
token_stop_possible t = not (t == null)

abbrev pub token_stop_requested : (Ptr → StopSource) → Ptr → Bool
token_stop_requested sources t = if t == null then false else source_stop_requested (sources t)

-- A callback object: constructing it from a token registers it, unless the token is null; the source
-- that it keeps.
abbrev pub kept_source : Ptr → Option (Bool × StopSource) → Option (Ptr × StopSource)
kept_source t none = none
kept_source t (some (kept, s)) = some (if kept then t else null, s)

unfoldable pub make_callback : (token cb : Ptr) → StopSource → Option (Ptr × StopSource)
unfolding register_callback
make_callback token cb s =
    if token == null then some (null, s) else kept_source token (register_callback cb s)

-- Its destructor.
unfoldable pub end_callback : (kept cb : Ptr) → StopSource → Option StopSource
unfolding remove_source_callback
end_callback kept cb s = if kept == null then some s else remove_source_callback cb s
