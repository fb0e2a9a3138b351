-- ===== src/Arena/Cuts.antt =====
-- include/__ngr/__core/__memory_resource.hpp: the ranges that are handed out stay inside their blocks and
-- do not overlap.
use mathlib.Core.Path.{subst}
use model_lib.Base.{
  ℕ, ◌+◌, ◌^◌, ◌≤◌, ◌<◌, ◌≡◌, ◌≢◌, refl, sym, ◌∙◌, ap, inl, inr, List, [], ◌∷◌, ◌++◌, length, arith,
  ==-self, ne→==false, ℕ_discrete, ltb, Bool-cases, ==_iff, length-append,
}
use model_lib.Base.Words.{add32, sub32, add64}
use model_lib.Store.{Ptr, null}
use model_lib.Arena.{Subrange, put_use}
use model_lib.Arena.Outcome.{Returns, returns, then_returns}
use model_lib.Arena.Local.{
  Local, Shared, drop_consumed, refill, consume_next, next_block, cut, acquire,
}
use model_lib.Arena.Accounts.{
  is, occurs, ranges, Keeps, Accounts, free, Sound, is_self, is-other, is_same, ranges-le,
}
use model_lib.Arena.Contents.{occurs-append}
use model_lib.Arena.Uses.{Kept, unuse-Kept}
use model_lib.Arena.Disjoint.{AllInside-fresh, AllInside-none, AllInside-grows, cut-ApartFrom}

module _ {R : Type 0} {s : Shared R} (k : Keeps s) where
  -- The block that was cut is given up.
  drop_consumed-Kept :
      (w : Local R) (out : List Subrange)
      → Accounts k w w.consume null out
      → length out + 2 < 2 ^ 64
      → (w.count ≡ 16 → k.Room w.shared)
      → Returns (λ w'. Kept k w w' null out) (drop_consumed s w)
  drop_consumed-Kept w out a small room = elim (ℕ_discrete w.consume null) [
    | yes e ↦ rw ((==_iff w.consume null).1 e) (
        returns record {
          accounts = subst (λ t. Accounts k w t null out) e a;
          consume_kept = refl;
          bump_kept = refl;
          emptied = λ nil. (nil, refl);
        })
    | no ne ↦
        let given : Accounts k w null w.consume out = record {
          use_counts = λ y d. omega (arith, a.use_counts y d);
          once = a.once;
          idle = a.idle;
          counted = a.counted;
          few = a.few;
          inside = AllInside-none w.consume w.bump w.bump out a.inside;
          apart = a.apart;
        } in
        rw (ne→==false w.consume null ne) (unuse-Kept k w.consume ne w null out given small room)
  ]

  -- Without a free block the thread takes a batch.
  refilled :
      (w : Local R) (out : List Subrange)
      → Accounts k w null null out
      → w.queue ≡ []
      → (bs : List Ptr) (q : R) → length bs ≡ 16
      → ((y : Ptr) → occurs y bs + k.held q y ≡ k.held w.shared y)
      → Accounts k
          (record w { queue = bs ++ w.queue; count = add32 w.count 16; shared = q })
          null
          null
          out
  refilled w out a nil bs q len law =
      let same = λ (y : Ptr). free_same y in
      record {
        use_counts = a.use_counts;
        once = λ y. omega (arith, same y, a.once y);
        idle = λ y h. a.idle y (omega (arith, same y, h));
        counted = omega (arith, length-append bs w.queue, len, a.counted, none_left);
        few = omega (arith, a.counted, none_left);
        inside = a.inside;
        apart = a.apart;
      }
    where
      none_left : length w.queue ≡ 0
      none_left = ap (λ t. length t) nil

      free_same : (y : Ptr) → occurs y (bs ++ w.queue) + k.held q y ≡ free k w y
      free_same y = omega (arith, occurs-append y bs w.queue, law y, ap (λ t. occurs y t) nil)

  refill-Accounts :
      (w : Local R) (out : List Subrange) (bs : List Ptr)
      → w.queue ≡ bs
      → Accounts k w null null out
      → (w.queue ≡ [] → k.Stock w.shared)
      → Returns (λ w'. Accounts k w' null null out × (0 < length w'.queue)) (refill s bs w)
  refill-Accounts w out [] e a stock = then_returns (k.pop_law w.shared (stock e)) (λ p law.
      returns
        (refilled w out a e p.0 p.1 law.0 law.1, omega (arith, length-append p.0 w.queue, law.0)))
  refill-Accounts w out (b ∷ bs) e a stock = returns (a, omega (arith, ap (λ t. length t) e))

  started :
      (w : Local R) (out : List Subrange) (b : Ptr) (bs : List Ptr)
      → w.queue ≡ b ∷ bs
      → Accounts k w null null out
      → Sound k
          (record w {
            queue = bs;
            consume = b;
            bump = 0;
            uses = put_use w.uses b (add64 (w.uses b) 1);
            count = sub32 w.count 1;
          })
          out
  started w out b bs e a = record {
    accounts = record {
      use_counts = counts;
      once = λ y. omega (arith, more y, a.once y);
      idle = λ y h.
          let old = a.idle y (omega (arith, more y, h)) in
          (old.0, other y (λ same. absurd (omega (arith, taken y same, h))) ∙ old.1);
      counted = omega (arith, a.counted, a.few, ap (λ t. length t) e);
      few = omega (arith, a.counted, a.few, ap (λ t. length t) e);
      inside = AllInside-fresh null b w.bump out none_in a.inside;
      apart = a.apart;
    };
    bump_le = omega arith;
    start = λ nil. absurd (unused.0 nil);
  }
    where
      more : (y : Ptr) → free k w y ≡ is b y + (occurs y bs + k.held w.shared y)
      more y = omega (arith, ap (λ t. occurs y t) e)

      unused : (b ≢ null) × (w.uses b ≡ 0)
      unused = a.idle b (omega (arith, more b, is_self b))

      none_in : ranges b out ≡ 0
      none_in = omega (arith, a.use_counts b unused.0, unused.1)

      other : (y : Ptr) → y ≢ b → put_use w.uses b (add64 (w.uses b) 1) y ≡ w.uses y
      other y d = rw (ne→==false y b d)

      taken : (y : Ptr) → y ≡ b → occurs y bs + k.held w.shared y ≡ 0
      taken y same = omega (arith, more y, a.once y, is_same b y same)

      counts :
          (y : Ptr)
          → y ≢ null
          → put_use w.uses b (add64 (w.uses b) 1) y ≡ ranges y out + is b y + is null y
      counts y ne = elim (ℕ_discrete y b) [
        | yes e ↦ rw (e, ==-self b, unused.1, none_in, is-other null b unused.0) refl
        | no d ↦ other y d ∙ omega (arith, a.use_counts y ne, is-other b y d, is-other null y ne)
      ]

  consume_next-Sound :
      (w : Local R) (out : List Subrange) (q : List Ptr)
      → w.queue ≡ q
      → 0 < length q
      → Accounts k w null null out
      → Returns (λ w'. Sound k w' out × (w'.bump ≡ 0) × (w'.consume ≢ null)) (consume_next s q w)
  consume_next-Sound w out [] e pos a = absurd (omega (arith, pos))
  consume_next-Sound w out (b ∷ bs) e pos a =
      let so = started w out b bs e a in
      returns (so, refl, λ nil. absurd (omega (arith, so.start nil)))

  -- Taking a new block returns it, with nothing cut from it.
  pub next_block-Sound :
      (w : Local R) (out : List Subrange)
      → Sound k w out
      → length out + 2 < 2 ^ 64
      → (w.count ≡ 16 → k.Room w.shared)
      → (w.queue ≡ [] → k.Stock w.shared)
      → Returns (λ w'. Sound k w' out × (w'.bump ≡ 0) × (w'.consume ≢ null)) (next_block s w)
  unfolding next_block
  next_block-Sound w out so small room stock =
      then_returns (drop_consumed-Kept w out so.accounts small room) (λ w1 q.
        then_returns
          (refill-Accounts w1 out w1.queue refl q.accounts
            (λ nil. let old = q.emptied nil in subst k.Stock (sym old.1) (stock old.0)))
          (λ w2 r. consume_next-Sound w2 out w2.queue refl r.1 r.0))

  cut-Sound :
      (n : ℕ) (w : Local R) (out : List Subrange)
      → Sound k w out
      → w.consume ≢ null
      → w.bump + n ≤ 4096
      → length out + 2 < 2 ^ 64
      → Returns (λ p. (p.0.len ≡ n) × Sound k p.1 (p.0 ∷ out)) (cut s n w)
  cut-Sound n w out so ne fits small = rw (ne→==false w.consume null ne) (
      returns (
        refl,
        record {
          accounts = record {
            use_counts = counts;
            once = a.once;
            idle = λ y h.
                let old = a.idle y h in
                (
                  old.0,
                  other y (λ same.
                        absurd
                          (omega (arith, old.1, a.use_counts y old.0, is_same w.consume y same)))
                      ∙ old.1,
                );
            counted = a.counted;
            few = a.few;
            inside = (
              (ne, fits, λ e. omega arith),
              AllInside-grows w.consume w.bump (add32 w.bump n) out (omega arith) a.inside,
            );
            apart = (cut-ApartFrom _ out a.inside, a.apart);
          };
          bump_le = omega arith;
          start = λ nil. absurd (ne nil);
        },
      ))
    where
      a : Accounts k w w.consume null out
      a = so.accounts

      other :
          (y : Ptr)
          → y ≢ w.consume
          → put_use w.uses w.consume (add64 (w.uses w.consume) 1) y ≡ w.uses y
      other y d = rw (ne→==false y w.consume d)

      one_more : add64 (w.uses w.consume) 1 ≡ ranges w.consume out + 2
      one_more = omega (
        arith,
        a.use_counts w.consume ne,
        is_self w.consume,
        is-other null w.consume ne,
        ranges-le w.consume out,
        small,
      )

      at_self :
          (y : Ptr)
          → y ≡ w.consume
          → put_use w.uses w.consume (add64 (w.uses w.consume) 1) y ≡ ranges y out + 2
      at_self y e = rw (e, ==-self w.consume) one_more

      counts :
          (y : Ptr)
          → y ≢ null
          → put_use w.uses w.consume (add64 (w.uses w.consume) 1) y
            ≡ is w.consume y + ranges y out + is w.consume y + is null y
      counts y d = elim (ℕ_discrete y w.consume) [
        | yes e ↦ omega (arith, at_self y e, is_same w.consume y e, is-other null y d)
        | no ne' ↦
            other y ne'
            ∙ omega (arith, a.use_counts y d, is-other w.consume y ne', is-other null y d)
      ]

  -- A range of 1 to 4096 bytes is handed out: it has the length asked for, it lies in one block, it
  -- overlaps no range in use, every use stays accounted for, and no free block is in use. The call
  -- returns if the shared source has a batch when the thread has no free block, and room when the
  -- thread has 16.
  pub acquire-Sound :
      (n : ℕ) (w : Local R) (out : List Subrange)
      → Sound k w out
      → 1 ≤ n
      → n ≤ 4096
      → length out + 2 < 2 ^ 64
      → (w.count ≡ 16 → k.Room w.shared)
      → (w.queue ≡ [] → k.Stock w.shared)
      → Returns (λ p. (p.0.len ≡ n) × Sound k p.1 (p.0 ∷ out)) (acquire s n w)
  unfolding acquire
  acquire-Sound n w out so pos le small room stock = elim (Bool-cases (ltb (sub32 4096 w.bump) n)) [
    | inl b ↦ rw b (
        then_returns (next_block-Sound w out so small room stock)
          (λ w' q. cut-Sound n w' out q.0 q.2 (omega (arith, q.1, le)) small))
    | inr b ↦
        let fits : w.bump + n ≤ 4096 = ground (arith, so.bump_le, b) in
        let real : w.consume ≢ null = λ nil. absurd (omega (arith, so.start nil, fits, pos)) in
        rw b (cut-Sound n w out so real fits small)
  ]
