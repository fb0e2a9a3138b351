-- ===== src/Examples/Tasks.antt =====
-- Frames, tasks and stop sources at concrete inputs.
use model_lib.Base.{
  inl, ℕ, ◌+◌, ◌*◌, ◌%◌, ◌^◌, ◌≤◌, ◌≡◌, refl, true, false, none, some, [], ◌∷◌, inr, arith,
}
use model_lib.Store.{Ptr, null}
use model_lib.Frames.{Allocator, Saved}
use model_lib.Coroutine.{
  Thread, alloc_address, allocate_size, new_frame, delete_frame, register, do_execute,
}
use model_lib.Coroutine.Nesting.{alloc_address_bounds, nested_frame}
use model_lib.Coroutine.Owner.{first_task_dangles}
use model_lib.Coroutine.Promise.{
  stop_parent, Promise, fresh_promise, on_await_suspend, final_suspend, await_resume, finish,
  outcome, may_destroy,
}
use model_lib.Coroutine.Awaiting.{awaited_task}
use model_lib.Coroutine.Forwarding.{stop_parent-forwards}
use model_lib.Stop.Callbacks.{Callbacks, push_callback, no_callbacks}
use model_lib.Stop.Callbacks.Order.{push_callback-Registered, Registered}
use model_lib.Stop.Requests.{
  StopSource, fresh_source, request_stop, register_callback, execute, end_callback,
}
use model_lib.Stop.Requests.Runs.{Stopped, request_stop-runs, end_callback-Registered}

alloc_address_bounds_example :
    (4096 + 21 ≤ alloc_address 4096 21)
    × (alloc_address 4096 21 % 8 ≡ 0)
    × (alloc_address 4096 21 + 8 ≤ 4096 + allocate_size 21)
alloc_address_bounds_example = alloc_address_bounds 4096 21 (omega arith) (omega arith)

abbrev chunks_at : Ptr → ℕ → ℕ → ℕ
chunks_at pa count bytes = 2 ^ 20 * (count + 1)

abbrev no_prefixes : ℕ → Saved
no_prefixes p = record { chunk = 0; bump = 0 }

abbrev idle_thread : Thread
idle_thread = record { tls = null; live = λ p. none; owned = λ p. null; callback = none }

-- one chunk of 1024 bytes
abbrev some_room : Allocator
some_room = record {
  chunks = record { base = 2 ^ 20; limit = 2 ^ 20 + 1040 } ∷ [];
  cur = some 0;
  bump = 2 ^ 20 + 16;
  next_cap = 2048;
  prefixes = no_prefixes;
}

abbrev busy_thread : Thread
busy_thread = record { tls = 64; live = λ p. some some_room; owned = λ p. null; callback = none }

nested_frame_example :
    (r : ℕ) × (t1 : Thread) × (t2 : Thread) × (a2 : Allocator) × (new_frame chunks_at 4 128
        no_prefixes 100 busy_thread
      ≡ some (r, t1))
    × (delete_frame r 100 t1 ≡ some t2)
    × (t2.tls ≡ 64)
    × (t2.live 64 ≡ some a2)
    × (a2.cur ≡ some 0)
    × (a2.bump ≡ 2 ^ 20 + 16)
unfolding allocate_size
nested_frame_example =
    nested_frame chunks_at 100 128 no_prefixes busy_thread some_room 0
      (record { base = 2 ^ 20; limit = 2 ^ 20 + 1040 }) (λ e. absurd (omega (arith, e))) refl
      (record { current = refl; found = refl; started = omega arith }) (omega arith) (omega arith)

first_task_dangles_example :
    (r : ℕ) × (t1 : Thread) × (t2 : Thread) × (t3 : Thread) × (new_frame chunks_at 3 64 no_prefixes
        100 idle_thread
      ≡ some (r, t1))
    × (do_execute (λ s. some (register 7 s)) (λ a s. some s) t1 ≡ some t2)
    × (do_execute (delete_frame r 100) (λ a s. some s) t2 ≡ some t3)
    × (t3.tls ≡ 64)
    × (t3.live 64 ≡ none)
    × ((fuel m : ℕ) (other : Ptr) (memory' : ℕ → Saved)
        → new_frame chunks_at fuel other memory' m t3 ≡ none)
unfolding allocate_size
first_task_dangles_example =
    first_task_dangles chunks_at 100 64 no_prefixes idle_thread 7 refl
      (λ e. absurd (omega (arith, e))) (omega arith)

-- two callbacks, 5 registered before 7
abbrev two_callbacks : Callbacks
two_callbacks = push_callback 7 (push_callback 5 no_callbacks)

two_callbacks-Registered : Registered two_callbacks (7 ∷ 5 ∷ [])
two_callbacks-Registered =
    push_callback-Registered 7 (push_callback 5 no_callbacks) (5 ∷ [])
      (push_callback-Registered 5 no_callbacks [] refl (λ e. absurd (omega (arith, e))) refl)
      (λ e. absurd (omega (arith, e))) refl

abbrev listening : StopSource
listening = record fresh_source { callbacks = two_callbacks }

request_stop-runs_example :
    (s' : StopSource) × (request_stop 3 listening ≡ some (false, s'))
    × Stopped s' [] (7 ∷ 5 ∷ [])
    × (request_stop 3 s' ≡ some (true, s'))
    × ((cb : Ptr) → register_callback cb s' ≡ some (false, execute cb s'))
request_stop-runs_example =
    request_stop-runs 3 listening (7 ∷ 5 ∷ []) refl two_callbacks-Registered (omega arith)

end_callback-Registered_example :
    (s' : StopSource) × (end_callback 64 5 listening ≡ some s')
    × Registered s'.callbacks (7 ∷ [])
    × (s'.byte ≡ 0)
    × (s'.ran ≡ [])
end_callback-Registered_example =
    end_callback-Registered 64 5 listening (7 ∷ []) [] (λ e. absurd (omega (arith, e))) refl
      two_callbacks-Registered

awaited_task_example :
    (p1 : Promise ℕ ℕ) × (ps1 : StopSource) × (ps2 : StopSource) × (on_await_suspend 1 256 64 9
        fresh_promise listening
      ≡ some (p1, ps1))
    × Registered ps1.callbacks (9 ∷ 7 ∷ 5 ∷ [])
    × (final_suspend 9 (finish (inr 42) p1) ps1 ≡ some (256, ps2))
    × Registered ps2.callbacks (7 ∷ 5 ∷ [])
    × (ps2.ran ≡ [])
    × (await_resume (finish (inr 42) p1) ≡ outcome (inr 42))
    × (may_destroy (finish (inr 42) p1) ≡ true)
awaited_task_example =
    awaited_task 1 256 64 9 fresh_promise listening (7 ∷ 5 ∷ []) (inr 42)
      (λ e. absurd (omega (arith, e))) refl two_callbacks-Registered
      (λ e. absurd (omega (arith, e))) refl

-- The task has callbacks of its own.
abbrev with_callbacks : Promise ℕ ℕ
with_callbacks = record fresh_promise { source = listening }

stop_parent-forwards_example :
    (p1 : Promise ℕ ℕ) × (ps1 : StopSource) × (p2 : Promise ℕ ℕ) × (ps2 : StopSource)
    × (on_await_suspend 4 256 64 9 with_callbacks listening ≡ some (p1, ps1))
    × (stop_parent 4 9 p1 ps1 ≡ some (p2, ps2))
    × (p2.continuation ≡ 256)
    × Stopped p2.source [] (7 ∷ 5 ∷ [])
stop_parent-forwards_example =
    stop_parent-forwards 4 256 64 9 with_callbacks listening (7 ∷ 5 ∷ []) (7 ∷ 5 ∷ [])
      (λ e. absurd (omega (arith, e))) (inl refl) two_callbacks-Registered
      (λ e. absurd (omega (arith, e))) refl (omega arith) refl two_callbacks-Registered
      (omega arith)
