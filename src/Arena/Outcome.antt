-- ===== src/Arena/Outcome.antt =====
-- include/__ngr/__core/__memory_resource.hpp: how a call ends when no other thread runs. It returns,
-- spins until another thread acts, or accesses an array out of its bounds or a null pointer (or the
-- process is terminated by an exception that leaves a `noexcept` function).
pub data Outcome (A : Type 0) : Type 0 where
  done : A → Outcome A
  spins : Outcome A
  fault : Outcome A

module _ {A B : Type 0} where
  infixl 5 ◌>>=◌
  abbrev pub ◌>>=◌ : Outcome A → (A → Outcome B) → Outcome B
  done a >>= k = k a
  spins >>= k = spins
  fault >>= k = fault

-- The call returned, with a result that satisfies `P`.
pub data Returns {A : Type 0} (P : A → Type 0) : Outcome A → Type 0 where
  returns : {a : A} → P a → Returns P (done a)

module _ {A : Type 0} {P : A → Type 0} where
  pub then_returns :
      {B : Type 0} {Q : B → Type 0} {o : Outcome A} {k : A → Outcome B}
      → Returns P o
      → ((a : A) → P a → Returns Q (k a))
      → Returns Q (o >>= k)
  then_returns (returns p) next = next _ p

  pub weaken : {Q : A → Type 0} {o : Outcome A} → Returns P o → ((a : A) → P a → Q a) → Returns Q o
  weaken (returns p) f = returns (f _ p)
