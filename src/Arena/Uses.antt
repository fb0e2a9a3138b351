-- ===== src/Arena/Uses.antt =====
-- include/__ngr/__core/__memory_resource.hpp: giving up a use of a block keeps the accounts, and frees the
-- block with its last use.
use model_lib.Base.{
  dec_lt, ℕ, ◌+◌, ◌^◌, ◌≤◌, ◌<◌, ◌≡◌, ◌≢◌, refl, ◌∙◌, inl, inr, List, [], ◌∷◌, ◌==◌, length, arith,
  Bool-cases, ne→==false, ==-self, ==_iff, ℕ_discrete, lt→ltb, ap,
}
use model_lib.Base.Words.{add32, sub64}
use model_lib.Store.{Ptr, null}
use model_lib.Arena.{Subrange, put_use}
use model_lib.Arena.Outcome.{done, ◌>>=◌, Returns, returns, then_returns}
use model_lib.Arena.Local.{Local, Shared, release_block, unuse}
use model_lib.Arena.Accounts.{
  is, occurs, ranges, Keeps, Accounts, free, is_self, is-other, is-le, ranges-le,
}

-- What a call that gives up a use leaves.
pub record Kept {R : Type 0} {s : Shared R} (k : Keeps s) (w w' : Local R) (user : Ptr)
    (out : List Subrange) : Type 0 where
  pub accounts : Accounts k w' user null out
  pub consume_kept : w'.consume ≡ w.consume
  pub bump_kept : w'.bump ≡ w.bump
  pub emptied : w'.queue ≡ [] → (w.queue ≡ []) × (w'.shared ≡ w.shared)

release_local :
    {R : Type 0} (s : Shared R) (x : Ptr) (w : Local R)
    → w.count < 16
    → release_block s x w ≡ done (record w { queue = x ∷ w.queue; count = add32 w.count 1 })
unfolding release_block
release_local s x w lt = rw (lt→ltb w.count 16 lt)

release_shared :
    {R : Type 0} (s : Shared R) (x : Ptr) (w : Local R)
    → w.count ≡ 16
    → release_block s x w ≡ (s.push x w.shared >>= λ q. done (record w { shared = q }))
unfolding release_block
release_shared s x w e = rw e

module _ {R : Type 0} {s : Shared R} (k : Keeps s) (x : Ptr) (nn : x ≢ null) (w : Local R)
    (user : Ptr) (out : List Subrange) (a : Accounts k w user x out)
    (small : length out + 2 < 2 ^ 64) where
  lowered_uses : Ptr → ℕ
  lowered_uses = put_use w.uses x (sub64 (w.uses x) 1)

  used : w.uses x ≡ ranges x out + is user x + 1
  used = omega (arith, a.use_counts x nn, is_self x)

  one_less : sub64 (w.uses x) 1 ≡ ranges x out + is user x
  one_less = omega (arith, used, ranges-le x out, is-le user x, small)

  lowered : (y : Ptr) → y ≢ null → lowered_uses y ≡ ranges y out + is user y + is null y
  unfolding lowered_uses
  lowered y ne = elim (ℕ_discrete y x) [
    | yes e ↦ rw (e, ==-self x, one_less, is-other null x nn) (omega arith)
    | no d ↦
        rw (ne→==false y x d) (omega (arith, a.use_counts y ne, is-other x y d, is-other null y ne))
  ]

  other_uses : (y : Ptr) → y ≢ x → lowered_uses y ≡ w.uses y
  unfolding lowered_uses
  other_uses y d = rw (ne→==false y x d)

  busy : free k w x ≡ 0
  busy = elim (ℕ_discrete (free k w x) 0) [
    | yes e ↦ e
    | no ne ↦ absurd (omega (arith, (a.idle x (omega (arith, ne))).1, used))
  ]

  -- The block becomes free with its last use.
  freed_once : (f : Ptr → ℕ) → ((y : Ptr) → f y ≡ is x y + free k w y) → (y : Ptr) → f y ≤ 1
  freed_once f e y = elim (ℕ_discrete y x) [
    | yes same ↦ rw same (omega (arith, e x, is_self x, busy))
    | no d ↦ omega (arith, e y, is-other x y d, a.once y)
  ]

  freed_idle :
      (f : Ptr → ℕ)
      → ((y : Ptr) → f y ≡ is x y + free k w y)
      → w.uses x ≡ 1
      → (y : Ptr) → 1 ≤ f y
      → (y ≢ null) × (lowered_uses y ≡ 0)
  unfolding lowered_uses
  freed_idle f e last y h = elim (ℕ_discrete y x) [
    | yes same ↦ rw same (nn, rw (==-self x, last) refl)
    | no d ↦
        let old = a.idle y (omega (arith, e y, is-other x y d, h)) in
        (old.0, other_uses y d ∙ old.1)
  ]

  still_idle : (y : Ptr) → 1 ≤ free k w y → (y ≢ null) × (lowered_uses y ≡ 0)
  still_idle y h =
      let old = a.idle y h in
      (old.0, other_uses y (λ same. absurd (omega (arith, busy, same_free y same, h))) ∙ old.1)
    where
      same_free : (y : Ptr) → y ≡ x → free k w y ≡ free k w x
      same_free y e = ap (λ t. free k w t) e

  after_local :
      w.uses x ≡ 1
      → w.count < 16
      → Kept k w
          (record w { uses = lowered_uses; queue = x ∷ w.queue; count = add32 w.count 1 })
          user
          out
  after_local last lt =
      let f = λ (y : Ptr). occurs y (x ∷ w.queue) + k.held w.shared y in
      let e = λ (y : Ptr). sum y in
      record {
        accounts = record {
          use_counts = lowered;
          once = freed_once f e;
          idle = freed_idle f e last;
          counted = omega (arith, a.counted, lt);
          few = omega (arith, lt);
          inside = a.inside;
          apart = a.apart;
        };
        consume_kept = refl;
        bump_kept = refl;
        emptied = λ nil. absurd (cc);
      }
    where
      sum : (y : Ptr) → occurs y (x ∷ w.queue) + k.held w.shared y ≡ is x y + free k w y
      sum y = omega arith

  after_shared :
      w.uses x ≡ 1
      → w.count ≡ 16
      → (q : R) → ((y : Ptr) → k.held q y ≡ is x y + k.held w.shared y)
      → Kept k w (record w { uses = lowered_uses; shared = q }) user out
  after_shared last full q law =
      let f = λ (y : Ptr). occurs y w.queue + k.held q y in
      let e = λ (y : Ptr). sum y in
      record {
        accounts = record {
          use_counts = lowered;
          once = freed_once f e;
          idle = freed_idle f e last;
          counted = a.counted;
          few = a.few;
          inside = a.inside;
          apart = a.apart;
        };
        consume_kept = refl;
        bump_kept = refl;
        emptied = λ nil. absurd (omega (arith, a.counted, full, ap (λ t. length t) nil));
      }
    where
      sum : (y : Ptr) → occurs y w.queue + k.held q y ≡ is x y + free k w y
      sum y = omega (arith, law y)

  after_more : Kept k w (record w { uses = lowered_uses }) user out
  after_more = record {
    accounts = record {
      use_counts = lowered;
      once = a.once;
      idle = still_idle;
      counted = a.counted;
      few = a.few;
      inside = a.inside;
      apart = a.apart;
    };
    consume_kept = refl;
    bump_kept = refl;
    emptied = λ nil. (nil, refl);
  }

  -- Giving up a use keeps the accounts. The last use frees the block, to the queue of the thread while
  -- it has fewer than 16 blocks, else to the shared source.
  pub unuse-Kept :
      (w.count ≡ 16 → k.Room w.shared) → Returns (λ w'. Kept k w w' user out) (unuse s x w)
  unfolding unuse lowered_uses
  unuse-Kept room = elim (Bool-cases (w.uses x == 1)) [
    | inr b ↦ rw b (returns after_more)
    | inl b ↦
        let last : w.uses x ≡ 1 = (==_iff (w.uses x) 1).0 b in
        rw b (elim (dec_lt w.count 16) [
          | yes lt ↦
              rw (release_local s x (record w { uses = lowered_uses }) lt)
                (returns (after_local last lt))
          | no ge ↦
              let full : w.count ≡ 16 = omega (arith, a.few) in
              rw (release_shared s x (record w { uses = lowered_uses }) full) (
                then_returns (k.push_law x w.shared (room full))
                  (λ q law. returns (after_shared last full q law)))
        ])
  ]
