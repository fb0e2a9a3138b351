-- ===== src/Arena/Local.antt =====
-- include/__ngr/__core/__memory_resource.hpp, `__local_source` and the functions over the thread's own:
-- free blocks of the thread, and the block that ranges are cut from.
use model_lib.Base.{ℕ, List, [], ◌∷◌, ◌++◌, ◌==◌, ltb, if◌then◌else◌}
use model_lib.Base.Words.{add32, sub32, add64, sub64}
use model_lib.Store.{Ptr, null}
use model_lib.Arena.{batch, Subrange, Uses, put_use}
use model_lib.Arena.Outcome.{Outcome, done, fault, ◌>>=◌}

-- what the thread's source calls of the shared one
pub record Shared (R : Type 0) : Type 0 where
  pub push : Ptr → R → Outcome R
  pub pop : R → Outcome (List Ptr × R)

-- The thread's source, beside the use counts and the shared source.
pub record Local (R : Type 0) : Type 0 where
  pub queue : List Ptr
  pub consume : Ptr
  pub bump : ℕ
  pub count : ℕ
  pub uses : Uses
  pub shared : R

module _ {R : Type 0} (s : Shared R) where
  -- `_M_release`
  unfoldable pub release_block : Ptr → Local R → Outcome (Local R)
  release_block blk w =
      if ltb w.count batch
      then done (record w { queue = blk ∷ w.queue; count = add32 w.count 1 })
      else (s.push blk w.shared >>= λ q. done (record w { shared = q }))

  -- The count goes down, and who takes the last use releases the block.
  unfoldable pub unuse : Ptr → Local R → Outcome (Local R)
  unfolding release_block
  unuse blk w =
      let w' = record w { uses = put_use w.uses blk (sub64 (w.uses blk) 1) } in
      if w.uses blk == 1 then release_block blk w' else done w'

  abbrev pub drop_consumed : Local R → Outcome (Local R)
  drop_consumed w = if w.consume == null then done w else unuse w.consume w

  abbrev pub refill : List Ptr → Local R → Outcome (Local R)
  refill (b ∷ bs) w = done w
  refill [] w = s.pop w.shared >>= λ (p : List Ptr × R).
      done (record w { queue = p.0 ++ w.queue; count = add32 w.count batch; shared = p.1 })

  -- Popping from an empty queue is a fault.
  abbrev pub consume_next : List Ptr → Local R → Outcome (Local R)
  consume_next [] w = fault
  consume_next (b ∷ bs) w = done (record w {
    queue = bs;
    consume = b;
    bump = 0;
    uses = put_use w.uses b (add64 (w.uses b) 1);
    count = sub32 w.count 1;
  })

  -- `_M_allocate`
  unfoldable pub next_block : Local R → Outcome (Local R)
  next_block w = drop_consumed w >>= λ w1. refill w1.queue w1 >>= λ w2. consume_next w2.queue w2

  abbrev pub cut : ℕ → Local R → Outcome (Subrange × Local R)
  cut n w =
      let x : Subrange = record { source = w.consume; offset = w.bump; len = n } in
      let f = put_use w.uses w.consume (add64 (w.uses w.consume) 1) in
      if w.consume == null then fault else done (x, record w { uses = f; bump = add32 w.bump n })

  -- `_M_acquire` and `__acquire`
  unfoldable pub acquire : ℕ → Local R → Outcome (Subrange × Local R)
  unfolding next_block
  acquire n w = (if ltb (sub32 4096 w.bump) n then next_block w else done w) >>= cut n

  -- `__release`
  unfoldable pub release : Subrange → Local R → Outcome (Local R)
  unfolding unuse
  release x w = unuse x.source w

module _ {R : Type 0} where
  abbrev pub fresh_local : Uses → R → Local R
  fresh_local f q = record {
    queue = [];
    consume = null;
    bump = 4096;
    count = 0;
    uses = f;
    shared = q;
  }

  -- `__bump_suffix`
  unfoldable pub bump_suffix : Local R → ℕ
  bump_suffix w = sub32 4096 w.bump

  -- The destructor: the count of the block being cut goes down, and the free blocks are forgotten.
  unfoldable pub dismiss : Local R → Local R
  dismiss w =
      if w.consume == null
      then record w { queue = [] }
      else record w { queue = []; uses = put_use w.uses w.consume (sub64 (w.uses w.consume) 1) }
