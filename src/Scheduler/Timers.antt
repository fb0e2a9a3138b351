-- ===== src/Scheduler/Timers.antt =====
-- include/__ngr/__core/__scheduler.hpp: the timer commands of `_M_io_uring_submit`, over the heap.
use model_lib.Base.{
  ℕ, ◌+◌, ◌^◌, ◌≤◌, ◌<◌, ◌≡◌, ◌≢◌, refl, ap, Bool, true, false, Option, some, List, [], ◌∷◌, map,
  ◌==◌, arith, length,
}
use model_lib.Store.{Ptr, null}
use model_lib.Heap.{Heap, Cmd, pure, ◌>>=◌, ◌>>◌, push}
use model_lib.Heap.Trees.{Tree, count, one_if, insert}
use mathlib.Core.Path.{subst}
use model_lib.Heap.Path.{way}
use model_lib.Heap.Linked.{one_self}
use model_lib.Heap.Erase.{remove}
use model_lib.Heap.Push.{IsHeap, push-insert}

-- `__timer_task_base` with its `__cmd_`: a timer to schedule, or the target to stop
pub data Command : Type 0 where
  schedule stop : Ptr → Command

-- the timer that `__manual_stop` stops
abbrev pub stops : Command → Ptr
stops (schedule p) = p
stops (stop p) = p

module _ (key : Ptr → ℕ) where
  -- The loop over the pending commands: the timers whose `_M_stop` is called, in order, and the heap.
  unfoldable pub timer_commands : Bool → List Command → Cmd (List Ptr)
  timer_commands stopping [] = pure []
  timer_commands true (c ∷ cs) = do rest ← timer_commands true cs; pure (stops c ∷ rest)
  timer_commands false (schedule p ∷ cs) = do push key p; timer_commands false cs
  timer_commands false (stop p ∷ cs) = do
    remove key p
    rest ← timer_commands false cs
    pure (p ∷ rest)

  pub stopping_all :
      (cs : List Command) (h : Heap) → timer_commands true cs h ≡ some (map stops cs, h)
  unfolding timer_commands
  stopping_all [] h = refl
  stopping_all (c ∷ cs) h = rw (stopping_all cs h) refl

  -- how often a timer stands in a list
  abbrev pub times : Ptr → List Ptr → ℕ
  times b [] = 0
  times b (p ∷ ps) = one_if (b == p) + times b ps

  -- The heap after timers were added.
  abbrev pub Scheduled : ℕ → List Ptr → Tree → Option (List Ptr × Heap) → Type 0
  Scheduled n ps t o =
      (g : Heap) × (t' : Tree) × (o ≡ some ([], g))
      × IsHeap key g (n + length ps) t'
      × ((b : Ptr) → count b t' ≡ times b ps + count b t)

  -- Scheduling timers that are apart from each other and from the heap puts them all into the heap.
  pub schedule-Scheduled :
      (ps : List Ptr) (h : Heap) (n : ℕ) (t : Tree)
      → IsHeap key h n t
      → n + length ps + 1 < 2 ^ 64
      → times null ps ≡ 0
      → ((b : Ptr) → times b ps + count b t ≤ 1)
      → Scheduled n ps t (timer_commands false (map schedule ps) h)
  unfolding timer_commands
  schedule-Scheduled [] h n t heap room nn apart =
      (h, t, refl, subst (λ m. IsHeap key h m t) (omega arith) heap, λ b. omega arith)
  schedule-Scheduled (p ∷ ps) h n t heap room nn apart =
      let p_there : p ≢ null =
        λ e. absurd (omega (arith, nn, one_self null, ap (λ z. one_if (null == z)) e)) in
      let (g, run, next, adds) =
        push-insert key h n t p heap (omega arith) p_there (omega (arith, apart p, one_self p)) in
      let (f, t', rest, done, counts) =
        schedule-Scheduled ps g (n + 1) (insert key (way (n + 1)) p t) next (omega arith)
          (omega (arith, nn)) (λ b. omega (arith, adds b, apart b)) in
      (
        f,
        t',
        rw run rest,
        subst (λ m. IsHeap key f m t') (omega arith) done,
        λ b. omega (arith, counts b, adds b),
      )
