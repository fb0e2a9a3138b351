-- ===== src/Stop/Requests/Runs.antt =====
-- include/__ngr/__core/__stop_inplace.hpp: which callbacks a stop source executes, and when.
use mathlib.Core.List.{append_assoc, append-nil}
use model_lib.Base.{
  ℕ, zero, suc, ◌<◌, ◌≡◌, ◌≢◌, refl, sym, ap, ◌∙◌, true, false, some, List, [], ◌∷◌, ◌++◌, length,
  arith, ne→==false, ==_iff, Bool-cases, inl, inr, ◌==◌, if◌then◌else◌,
}
use model_lib.Store.{Ptr, null}
use model_lib.Store.Seg.{has}
use model_lib.Stop.{lock_round, try_lock_round, stop_requested_flag}
use model_lib.Stop.Callbacks.{remove_callback, push_callback}
use model_lib.Stop.Callbacks.Order.{Registered, take_callback-Registered, push_callback-Registered}
use model_lib.Stop.Callbacks.Removal.{remove_callback-Registered}
use model_lib.Stop.Requests.{
  try_push_front_callback, requested, pushed, or_execute, execute, waited, locking, unlock,
  kept_source, StopSource, run_first, request_loop, request_stop, register_callback, make_callback,
  end_callback, remove_source_callback,
}

-- The callbacks of `xs` have completed.
abbrev pub AllCompleted : StopSource → List Ptr → Type 0
AllCompleted s xs = (x : Ptr) → has x xs ≡ true → s.completed x ≡ true

-- A stop has executed the callbacks `xs` after those of `old`.
pub record Stopped (s : StopSource) (old xs : List Ptr) : Type 0 where
  pub byte : s.byte ≡ stop_requested_flag
  pub none_left : Registered s.callbacks []
  pub ran : s.ran ≡ old ++ xs
  pub completed : AllCompleted s xs

ends_at :
    (k : ℕ) (s : StopSource)
    → s.callbacks.first ≡ null
    → request_loop (suc k) s ≡ some (false, record s { byte = 1 })
unfolding request_loop
ends_at k s e = rw ((==_iff s.callbacks.first null).1 e)

goes_on :
    (k : ℕ) (s : StopSource)
    → s.callbacks.first ≢ null
    → request_loop (suc k) s ≡ request_loop k (record (run_first s) { byte = 3 })
unfolding request_loop lock_round
goes_on k s ne = rw (ne→==false s.callbacks.first null ne)

still_completed :
    (s : StopSource) (a : Ptr) → s.completed a ≡ true → (run_first s).completed a ≡ true
still_completed s a i = elim (Bool-cases (a == s.callbacks.first)) [ inl e ↦ rw e | inr e ↦ rw e i ]

first_completed :
    (s : StopSource) (a : Ptr) → a ≡ s.callbacks.first → (run_first s).completed a ≡ true
first_completed s a e = rw ((==_iff a s.callbacks.first).1 e)

request_loop-runs :
    (k : ℕ) (s : StopSource) (xs : List Ptr)
    → Registered s.callbacks xs
    → length xs < k
    → (s' : StopSource) × (request_loop k s ≡ some (false, s'))
      × Stopped s' s.ran xs
      × ((a : Ptr) → s.completed a ≡ true → s'.completed a ≡ true)
request_loop-runs zero s xs ch enough = absurd (omega arith)
request_loop-runs (suc k) s [] ch enough = (
  record s { byte = 1 },
  ends_at k s ch,
  record {
    byte = refl;
    none_left = ch;
    ran = sym (append-nil s.ran);
    completed = λ x i. absurd (cc);
  },
  λ a i. i,
)
request_loop-runs (suc k) s (x ∷ xs) ch enough =
    let real : s.callbacks.first ≢ null = λ e. ch.1 (sym ch.0 ∙ e) in
    let (s', run, stopped, kept) =
      request_loop-runs k (record (run_first s) { byte = 3 }) xs
        (take_callback-Registered s.callbacks x xs ch) (omega arith) in
    (
      s',
      goes_on k s real ∙ run,
      record {
        byte = stopped.byte;
        none_left = stopped.none_left;
        ran =
            stopped.ran
            ∙ append_assoc s.ran (s.callbacks.first ∷ []) xs
            ∙ ap (λ q. s.ran ++ q ∷ xs) ch.0;
        completed = λ a i. elim (Bool-cases (a == x)) [
          | inl e ↦ kept a (first_completed s a ((==_iff a x).0 e ∙ sym ch.0))
          | inr e ↦ stopped.completed a (ground (arith, i, e))
        ];
      },
      λ a i. kept a (still_completed s a i),
    )

-- A stop of a source that is not locked executes every registered callback once, the last registered
-- first, and leaves none; it ends, on more rounds than there are callbacks. Another stop executes
-- nothing, and a callback that is registered later is executed at once and not linked.
pub request_stop-runs :
    (fuel : ℕ) (s : StopSource) (xs : List Ptr)
    → s.byte ≡ 0
    → Registered s.callbacks xs
    → length xs < fuel
    → (s' : StopSource) × (request_stop fuel s ≡ some (false, s'))
      × Stopped s' s.ran xs
      × (request_stop fuel s' ≡ some (true, s'))
      × ((cb : Ptr) → register_callback cb s' ≡ some (false, execute cb s'))
unfolding request_stop register_callback try_push_front_callback try_lock_round
request_stop-runs fuel s xs open_byte ch enough =
    let (s', run, stopped, kept) =
      request_loop-runs fuel (record s { byte = 3; notify = true }) xs ch enough in
    (
      s',
      ap (λ b. requested fuel (try_lock_round true b) s) open_byte ∙ run,
      record {
        byte = stopped.byte;
        none_left = stopped.none_left;
        ran = stopped.ran;
        completed = stopped.completed;
      },
      ap (λ b. requested fuel (try_lock_round true b) s') stopped.byte,
      λ cb. ap (λ b. or_execute cb (pushed (try_lock_round false b) cb s')) stopped.byte,
    )

-- A callback object made from the token of a source that is not locked and not stopped is registered
-- before the others, and keeps the source.
pub make_callback-Registered :
    (token cb : Ptr) (s : StopSource) (xs : List Ptr)
    → token ≢ null
    → s.byte ≡ 0
    → Registered s.callbacks xs
    → cb ≢ null
    → has cb xs ≡ false
    → (s' : StopSource) × (make_callback token cb s ≡ some (token, s'))
      × Registered s'.callbacks (cb ∷ xs)
      × (s'.byte ≡ 0)
      × (s'.ran ≡ s.ran)
unfolding make_callback register_callback try_push_front_callback try_lock_round
make_callback-Registered token cb s xs real open_byte ch nn out = (
  record s { byte = 0; callbacks = push_callback cb s.callbacks },
  rw (ne→==false token null real) (
      ap (λ b. kept_source token (or_execute cb (pushed (try_lock_round false b) cb s))) open_byte),
  push_callback-Registered cb s.callbacks xs ch nn out,
  refl,
  refl,
)

-- The critical section of `_M_remove_callback` for a callback that is linked.
unlinked :
    (prev cb : Ptr) (l : StopSource)
    → (remove_callback cb l.callbacks).0 ≡ true
    → (if (remove_callback cb l.callbacks).0
        then some (unlock prev (record l { callbacks = (remove_callback cb l.callbacks).1 }))
        else waited cb prev l)
      ≡ some (record l { byte = prev; callbacks = (remove_callback cb l.callbacks).1 })
unlinked prev cb l was = rw was

-- When a callback object that keeps its source ends while the source is not locked and not stopped, it
-- is unlinked, wherever it stands; nothing is executed, and the others stay registered in their order.
pub end_callback-Registered :
    (kept cb : Ptr) (s : StopSource) (xs ys : List Ptr)
    → kept ≢ null
    → s.byte ≡ 0
    → Registered s.callbacks (xs ++ cb ∷ ys)
    → (s' : StopSource) × (end_callback kept cb s ≡ some s')
      × Registered s'.callbacks (xs ++ ys)
      × (s'.byte ≡ 0)
      × (s'.ran ≡ s.ran)
unfolding end_callback remove_source_callback lock_round
end_callback-Registered kept cb s xs ys real open_byte ch =
    let (was, rest) = remove_callback-Registered s.callbacks xs cb ys ch in
    let body = λ (b : ℕ) (l : StopSource).
      if (remove_callback cb l.callbacks).0
      then some (unlock b (record l { callbacks = (remove_callback cb l.callbacks).1 }))
      else waited cb b l in
    (
      record s { byte = 0; callbacks = (remove_callback cb s.callbacks).1 },
      rw (ne→==false kept null real) (
          ap (λ b. locking (lock_round b) s (body b)) open_byte
          ∙ unlinked 0 cb (record s { byte = 2 }) was),
      rest,
      refl,
      refl,
    )
