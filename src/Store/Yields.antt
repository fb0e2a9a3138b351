-- ===== src/Store/Yields.antt =====
-- Total correctness of a command's outcome: it returned, and what it returned satisfies `P`.
use model_lib.Base.{Option, some}
use model_lib.Store.{Links, Cmd, then_run}

pub data Yields {A : Type 0} (P : A → Links → Type 0) : Option (A × Links) → Type 0 where
  yields : {a : A} {h : Links} → P a h → Yields P (some (a, h))

module _ {A : Type 0} {P : A → Links → Type 0} where
  pub after :
      {B : Type 0} {Q : B → Links → Type 0} {o : Option (A × Links)} {k : A → Cmd B}
      → Yields P o
      → ((a : A) (h : Links) → P a h → Yields Q (k a h))
      → Yields Q (then_run o k)
  after (yields p) next = next _ _ p

  pub weaken :
      {Q : A → Links → Type 0} {o : Option (A × Links)}
      → Yields P o
      → ((a : A) (h : Links) → P a h → Q a h)
      → Yields Q o
  weaken (yields p) f = yields (f _ _ p)
