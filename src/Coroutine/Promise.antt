-- ===== src/Coroutine/Promise.antt =====
-- include/__ngr/__core/__task.hpp and __aligned_storage.hpp: the promise of a task: its result, who waits
-- for it, and the callback that forwards a stop to it. A stop source is as in Stop/Requests.
use model_lib.Base.{
  length, drop, ◌∷◌, [], List, ℕ, Bool, true, false, Option, none, some, ◌⊎◌, inl, inr, ◌==◌,
  if◌then◌else◌,
}
use model_lib.Store.{Ptr, null}
use model_lib.Stop.Requests.{StopSource, fresh_source, make_callback, end_callback, request_stop}

-- `__promise_generic_storage`: its union and its state
pub data Storage (E A : Type 0) : Type 0 where
  nothing : Storage E A
  error : E → Storage E A
  result : A → Storage E A

-- `__fwd_` is known by the source that its callback keeps; its bytes begin as null.
pub record Promise (E A : Type 0) : Type 0 where
  pub storage : Storage E A
  pub continuation : Ptr
  pub forward : Ptr
  pub source : StopSource

-- What a coroutine that waited gets; nothing was written when it reads a result that is not there.
pub data Awaited (E A : Type 0) : Type 0 where
  rethrows : E → Awaited E A
  value : A → Awaited E A
  unwritten : Awaited E A

module _ {E A : Type 0} where
  abbrev pub fresh_promise : Promise E A
  fresh_promise = record {
    storage = nothing;
    continuation = null;
    forward = null;
    source = fresh_source;
  }

  -- `return_value`
  unfoldable pub return_value : A → Promise E A → Promise E A
  return_value r p = record p { storage = result r }

  -- `_M_set_exception` and `unhandled_exception`
  unfoldable pub set_exception : E → Promise E A → Promise E A
  set_exception e p = record p { storage = error e }

  -- `_M_throw_uncaught`
  abbrev pub throw_uncaught : Storage E A → Option E
  throw_uncaught nothing = none
  throw_uncaught (error e) = some e
  throw_uncaught (result r) = none

  -- `_M_result`
  abbrev pub stored_result : Storage E A → Awaited E A
  stored_result nothing = unwritten
  stored_result (error e) = unwritten
  stored_result (result r) = value r

  -- `await_resume`
  abbrev pub or_result : Option E → Storage E A → Awaited E A
  or_result none s = stored_result s
  or_result (some e) s = rethrows e

  unfoldable pub await_resume : Promise E A → Awaited E A
  await_resume p = or_result (throw_uncaught p.storage) p.storage

  -- Whether the destructor of the storage may run: it declares that nothing is never stored.
  unfoldable pub may_destroy : Promise E A → Bool
  may_destroy p = elim p.storage [ nothing ↦ false | error e ↦ true | result r ↦ true ]

  -- What the callback of a task does when it is executed, `__forward_stop_request::operator()`: it
  -- requests a stop of the task's own source.
  abbrev pub with_source : Promise E A → Option (Bool × StopSource) → Option (Promise E A)
  with_source p none = none
  with_source p (some (b, s)) = some (record p { source = s })

  unfoldable pub forward_stop : ℕ → Promise E A → Option (Promise E A)
  forward_stop fuel p = with_source p (request_stop fuel p.source)

  -- The callbacks that a source executed, as far as they concern the task whose callback is `cb`. They
  -- act on the task's source only, so they may be put behind the loop that executes them.
  abbrev pub and_forward : ℕ → Option (Promise E A) → Option (Promise E A)
  and_forward fuel none = none
  and_forward fuel (some p) = forward_stop fuel p

  unfoldable pub run_callbacks :
      (fuel : ℕ) → (cb : Ptr) → List Ptr → Option (Promise E A) → Option (Promise E A)
  run_callbacks fuel cb [] p = p
  run_callbacks fuel cb (x ∷ xs) p =
      run_callbacks fuel cb xs (if x == cb then and_forward fuel p else p)

  abbrev pub beside : StopSource → Option (Promise E A) → Option (Promise E A × StopSource)
  beside ps none = none
  beside ps (some p) = some (p, ps)

  -- A stop of the source that the callback `cb` is registered with; `before` is what it had executed.
  abbrev pub and_callbacks :
      (fuel : ℕ)
      → (cb : Ptr) → (before : List Ptr) → Promise E A
      → Option (Bool × StopSource)
      → Option (Promise E A × StopSource)
  and_callbacks fuel cb before p none = none
  and_callbacks fuel cb before p (some (b, ps)) =
      beside ps (run_callbacks fuel cb (drop (length before) ps.ran) (some p))

  unfoldable pub stop_parent :
      (fuel : ℕ) → (cb : Ptr) → Promise E A → StopSource → Option (Promise E A × StopSource)
  stop_parent fuel cb p ps = and_callbacks fuel cb ps.ran p (request_stop fuel ps)

  -- The callback that is not registered, because the parent was stopped, is executed at once.
  abbrev pub attached :
      ℕ → Ptr → Promise E A → Option (Ptr × StopSource) → Option (Promise E A × StopSource)
  attached fuel parent p none = none
  attached fuel parent p (some (kept, ps)) =
      let p' = record p { continuation = parent; forward = kept } in
      if kept == null then beside ps (forward_stop fuel p') else some (p', ps)

  -- `_M_on_await_suspend`: the parent is resumed at the end, and its stop source `ps` gets the callback
  -- `cb` by the token.
  unfoldable pub on_await_suspend :
      (fuel : ℕ)
      → (parent token cb : Ptr) → Promise E A
      → StopSource
      → Option (Promise E A × StopSource)
  on_await_suspend fuel parent token cb p ps = attached fuel parent p (make_callback token cb ps)

  -- `__final_awaiter::await_suspend`: the callback ends, and the continuation is resumed.
  abbrev pub resuming : Promise E A → Option StopSource → Option (Ptr × StopSource)
  resuming p none = none
  resuming p (some ps) = some (p.continuation, ps)

  unfoldable pub final_suspend : Ptr → Promise E A → StopSource → Option (Ptr × StopSource)
  final_suspend cb p ps = resuming p (end_callback p.forward cb ps)

  -- How a coroutine ends: with an exception or with a value.
  abbrev pub finish : E ⊎ A → Promise E A → Promise E A
  finish (inl e) p = set_exception e p
  finish (inr r) p = return_value r p

  -- what the parent is to get of it
  abbrev pub outcome : E ⊎ A → Awaited E A
  outcome (inl e) = rethrows e
  outcome (inr r) = value r
