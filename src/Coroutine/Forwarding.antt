-- ===== src/Coroutine/Forwarding.antt =====
-- include/__ngr/__core/__task.hpp and __stop_inplace.hpp: a stop of a coroutine stops the task that it
-- awaits.
use mathlib.Core.List.{append-nil}
use model_lib.Base.{
  ==-self, ℕ, suc, ◌<◌, ◌≡◌, ◌≢◌, refl, ap, sym, ◌∙◌, true, false, Option, some, List, [], ◌∷◌,
  ◌++◌, ◌⊎◌, inl, inr, length, drop, arith, ◌==◌, ne→==false,
}
use model_lib.Store.{Ptr, null}
use model_lib.Store.Seg.{has}
use model_lib.Stop.{try_lock_round}
use model_lib.Stop.Callbacks.Order.{Registered}
use model_lib.Stop.Requests.{
  StopSource, execute, pushed, or_execute, kept_source, requested, request_stop, make_callback,
  register_callback, try_push_front_callback,
}
use model_lib.Stop.Requests.Runs.{Stopped, request_stop-runs, make_callback-Registered}
use model_lib.Coroutine.Promise.{
  Promise, forward_stop, with_source, run_callbacks, and_callbacks, stop_parent, beside, attached,
  on_await_suspend,
}

drop-append : {A : Type 0} → (xs ys : List A) → drop (length xs) (xs ++ ys) ≡ ys
drop-append [] ys = refl
drop-append (x ∷ xs) ys = drop-append xs ys

module _ {E A : Type 0} where
  -- The callback stops the task's source.
  forward_stop-Stopped :
      (fuel : ℕ) (p : Promise E A) (ys : List Ptr)
      → p.source.byte ≡ 0
      → Registered p.source.callbacks ys
      → length ys < fuel
      → (s : StopSource) × (forward_stop fuel p ≡ some (record p { source = s }))
        × Stopped s p.source.ran ys
  unfolding forward_stop
  forward_stop-Stopped fuel p ys open_byte ch enough =
      let (s, run, stopped, again, later) =
        request_stop-runs fuel p.source ys open_byte ch enough in
      (s, ap (with_source p) run, stopped)

  -- Callbacks of others do not reach the task.
  run_callbacks-others :
      (fuel : ℕ) (cb : Ptr) (xs : List Ptr) (p : Option (Promise E A))
      → has cb xs ≡ false
      → run_callbacks fuel cb xs p ≡ p
  unfolding run_callbacks
  run_callbacks-others fuel cb [] p out = refl
  run_callbacks-others fuel cb (x ∷ xs) p out =
      let other : (x == cb) ≡ false = ground arith in
      rw other (run_callbacks-others fuel cb xs p (ground arith))

  -- A stop that was requested before the await: the callback is executed at once.
  suspend_stopped :
      (fuel : ℕ) (parent token cb : Ptr) (p : Promise E A) (ps : StopSource)
      → token ≢ null
      → ps.byte ≡ 1
      → on_await_suspend fuel parent token cb p ps
        ≡ beside
            (execute cb ps)
            (forward_stop fuel (record p { continuation = parent; forward = null }))
  unfolding on_await_suspend make_callback register_callback try_push_front_callback try_lock_round
  suspend_stopped fuel parent token cb p ps real stopped = rw (ne→==false token null real) (
      ap
        (λ b.
          attached fuel parent p
            (kept_source token (or_execute cb (pushed (try_lock_round false b) cb ps))))
        stopped)

  -- A second stop of a source executes nothing.
  stop_again :
      (fuel : ℕ) (cb : Ptr) (p : Promise E A) (ps : StopSource)
      → ps.byte ≡ 1
      → stop_parent fuel cb p ps ≡ some (p, ps)
  unfolding stop_parent request_stop try_lock_round run_callbacks
  stop_again fuel cb p ps stopped =
      ap (λ b. and_callbacks fuel cb ps.ran p (requested fuel (try_lock_round true b) ps)) stopped
      ∙ ap (λ l. beside ps (run_callbacks fuel cb l (some p)))
          (ap (drop (length ps.ran)) (sym (append-nil ps.ran)) ∙ drop-append ps.ran [])

  -- What an open parent's stop does to the awaited task.
  stop_running :
      (fuel : ℕ) (cb : Ptr) (p : Promise E A) (ps : StopSource) (xs ys : List Ptr)
      → ps.byte ≡ 0
      → Registered ps.callbacks (cb ∷ xs)
      → has cb xs ≡ false
      → suc (length xs) < fuel
      → p.source.byte ≡ 0
      → Registered p.source.callbacks ys
      → length ys < fuel
      → (s : StopSource) × (ps' : StopSource) × (stop_parent fuel cb p ps
          ≡ some (record p { source = s }, ps'))
        × Stopped s p.source.ran ys
  unfolding stop_parent run_callbacks
  stop_running fuel cb p ps xs ys open_byte ch out room child linked enough =
      let (ps', run, stopped, again, later) =
        request_stop-runs fuel ps (cb ∷ xs) open_byte ch room in
      let (s, forward, done) = forward_stop-Stopped fuel p ys child linked enough in
      let executed : drop (length ps.ran) ps'.ran ≡ cb ∷ xs =
        ap (drop (length ps.ran)) stopped.ran ∙ drop-append ps.ran (cb ∷ xs) in
      let forwards : run_callbacks fuel cb (cb ∷ xs) (some p) ≡ some (record p { source = s }) =
        rw (==-self cb) (run_callbacks-others fuel cb xs (forward_stop fuel p) out ∙ forward) in
      (
        s,
        ps',
        ap (and_callbacks fuel cb ps.ran p) run
            ∙ ap (λ l. beside ps' (run_callbacks fuel cb l (some p))) executed
            ∙ ap (beside ps') forwards,
        done,
      )

  -- Whether the stop of the awaiting coroutine was requested before the await (the byte is 1) or is
  -- requested while the task runs (it is 0), on sources that are not locked: then the stop of the
  -- task's own source has been requested too, and each callback registered there was executed once,
  -- the last registered first, and none is left; the task is still to resume that coroutine.
  pub stop_parent-forwards :
      (fuel : ℕ) (parent token cb : Ptr) (p : Promise E A) (ps : StopSource) (xs ys : List Ptr)
      → token ≢ null
      → (ps.byte ≡ 0) ⊎ (ps.byte ≡ 1)
      → Registered ps.callbacks xs
      → cb ≢ null
      → has cb xs ≡ false
      → suc (length xs) < fuel
      → p.source.byte ≡ 0
      → Registered p.source.callbacks ys
      → length ys < fuel
      → (p1 : Promise E A) × (ps1 : StopSource) × (p2 : Promise E A) × (ps2 : StopSource)
        × (on_await_suspend fuel parent token cb p ps ≡ some (p1, ps1))
        × (stop_parent fuel cb p1 ps1 ≡ some (p2, ps2))
        × (p2.continuation ≡ parent)
        × Stopped p2.source p.source.ran ys
  unfolding on_await_suspend
  stop_parent-forwards fuel parent token cb p ps xs ys real (inl open_byte) ch nn out room child
        linked enough =
      let (ps1, made, at, byte1, ran1) =
        make_callback-Registered token cb ps xs real open_byte ch nn out in
      let p1 : Promise E A = record p { continuation = parent; forward = token } in
      let (s, ps2, run, done) =
        stop_running fuel cb p1 ps1 xs ys byte1 at out room child linked enough in
      (
        p1,
        ps1,
        record p1 { source = s },
        ps2,
        rw made (rw (ne→==false token null real)),
        run,
        refl,
        done,
      )
  stop_parent-forwards fuel parent token cb p ps xs ys real (inr stopped) ch nn out room child
        linked enough =
      let p0 : Promise E A = record p { continuation = parent; forward = null } in
      let (s, forward, done) = forward_stop-Stopped fuel p0 ys child linked enough in
      let p1 : Promise E A = record p0 { source = s } in
      (
        p1,
        execute cb ps,
        p1,
        execute cb ps,
        suspend_stopped fuel parent token cb p ps real stopped
            ∙ ap (beside (execute cb ps)) forward,
        stop_again fuel cb p1 (execute cb ps) stopped,
        refl,
        done,
      )
