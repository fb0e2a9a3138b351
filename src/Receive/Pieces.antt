-- ===== src/Receive/Pieces.antt =====
-- source/main.cxx: the pieces of one buffer, and its way back to the kernel.
use model_lib.Base.Bits.{bit_and_low}
use native.Mathlib.Nat.{add_assoc}
use mathlib.Core.Path.{subst, ap₂}
use model_lib.Base.{
  Bool, ap, sym, ◌∙◌, not, if◌then◌else◌, ◌==◌, ne→==false, ==-self, ◌≢◌, refl, ℕ, suc, ◌+◌, ◌*◌,
  ◌/◌, ◌%◌, ◌^◌, ◌≤◌, ◌<◌, ◌≡◌, List, [], ◌∷◌, arith, true, false,
}
use model_lib.Base.Integers.{pos}
use model_lib.Receive.{
  Receive, Cqe, View, view, slot, slot_buf, buf_size, wait_next, live_again, submit, received,
  complete, await_suspend, receive_all, replenish,
}

-- A completion of `suc n` bytes in buffer `bid`, with IORING_CQE_F_BUFFER (1), IORING_CQE_F_MORE (2)
-- where the request stays live, and IORING_CQE_F_BUF_MORE (16) where the buffer is still packing.
abbrev pub piece_flags : (packing more : Bool) → ℕ
piece_flags packing more = (if packing then 16 else 0) + (if more then 2 else 0) + 1

abbrev pub piece : (packing : Bool) → ℕ → Bool × ℕ → Cqe
piece packing bid (more, n) = record {
  res = pos (suc n);
  flags = bid * 2 ^ 16 + piece_flags packing more;
}

-- The pieces of one buffer, of which the last is not packing any more.
abbrev pub pieces : ℕ → List (Bool × ℕ) → Bool × ℕ → List Cqe
pieces bid [] n = piece false bid n ∷ []
pieces bid (m ∷ ms) n = piece true bid m ∷ pieces bid ms n

-- Adjacent views from `p` of the pieces' lengths.
abbrev pub tiles : ℕ → List (Bool × ℕ) → Bool × ℕ → List View
tiles p [] (more, n) = view p (suc n) ∷ []
tiles p ((more, m) ∷ ms) n = view p (suc m) ∷ tiles (p + suc m) ms n

abbrev pub total : List (Bool × ℕ) → ℕ
total [] = 0
total ((more, m) ∷ ms) = suc m + total ms

bid_of : (bid f : ℕ) → bid < 2 ^ 16 → f < 2 ^ 16 → (bid * 2 ^ 16 + f) / 2 ^ 16 % 2 ^ 16 ≡ bid
bid_of bid f h k = omega arith

-- What `__complete` reads of the flags.
record Flags (bid : ℕ) (packing more : Bool) : Type 0 where
  stays : ((bid * 2 ^ 16 + piece_flags packing more) / 2 % 2 == 1) ≡ more
  packs : ((bid * 2 ^ 16 + piece_flags packing more) / 16 % 2 == 1) ≡ packing
  buffer : (bid * 2 ^ 16 + piece_flags packing more) / 2 ^ 16 % 2 ^ 16 ≡ bid

is_one : (n : ℕ) → n ≡ 1 → (n == 1) ≡ true
is_one n e = rw e

is_zero : (n : ℕ) → n ≡ 0 → (n == 1) ≡ false
is_zero n e = rw e

piece-Flags : (bid : ℕ) (packing more : Bool) → bid < 2 ^ 16 → Flags bid packing more
piece-Flags bid true true h = record {
  stays = is_one _ (omega arith);
  packs = is_one _ (omega arith);
  buffer = bid_of bid 19 h (omega arith);
}
piece-Flags bid true false h = record {
  stays = is_zero _ (omega arith);
  packs = is_one _ (omega arith);
  buffer = bid_of bid 17 h (omega arith);
}
piece-Flags bid false true h = record {
  stays = is_one _ (omega arith);
  packs = is_zero _ (omega arith);
  buffer = bid_of bid 3 h (omega arith);
}
piece-Flags bid false false h = record {
  stays = is_zero _ (omega arith);
  packs = is_zero _ (omega arith);
  buffer = bid_of bid 1 h (omega arith);
}

-- With no buffer pending, the wait changes nothing but that the request is live.
wait-idle :
    (r : Receive) → r.replenish_pending ≡ false → wait_next r ≡ record r { multishot_live = true }
unfolding wait_next await_suspend submit
wait-idle r h =
    ap (λ b. live_again (if b then handed else (not r.multishot_live, r))) h
    ∙ live r.multishot_live refl
  where
    handed : Bool × Receive
    handed =
        (not r.multishot_live, record (replenish r.replenish_bid r) { replenish_pending = false })

    live :
        (b : Bool)
        → r.multishot_live ≡ b
        → live_again (not b, r) ≡ record r { multishot_live = true }
    live true e = ap (λ l. record r { multishot_live = l }) e
    live false e = refl

-- the state after a piece
abbrev took : ℕ → Bool × ℕ → Receive → Receive
took bid (more, m) r = record r {
  multishot_live = more;
  bid = bid;
  len = suc m;
  buf_more = true;
  offset = r.cur_offset;
  cur_offset = r.cur_offset + suc m;
}

abbrev took_last : ℕ → Bool × ℕ → Receive → Receive
took_last bid (more, n) r = record r {
  multishot_live = more;
  bid = bid;
  len = suc n;
  buf_more = false;
  offset = r.cur_offset;
  cur_offset = 0;
  replenish_pending = true;
  replenish_bid = bid;
}

same_if : (b : Bool) → (if b then true else false) ≡ b
same_if true = refl
same_if false = refl

received-packing :
    (bid m : ℕ) (more : Bool) (r : Receive)
    → bid < 2 ^ 16
    → r.cur_offset + suc m ≤ buf_size
    → received (piece true bid (more, m)) (suc m) (record r { multishot_live = true })
      ≡ took bid (more, m) r
unfolding received
received-packing bid m more r hb fit =
    let f = piece-Flags bid true more hb in
    rw (f.stays, f.packs, f.buffer, width, sum, same_if more)
  where
    width : suc m % 2 ^ 32 ≡ suc m
    width = omega arith

    sum : (r.cur_offset + suc m) % 2 ^ 32 ≡ r.cur_offset + suc m
    sum = omega arith

received-last :
    (bid n : ℕ) (more : Bool) (r : Receive)
    → bid < 2 ^ 16
    → suc n ≤ buf_size
    → received (piece false bid (more, n)) (suc n) (record r { multishot_live = true })
      ≡ took_last bid (more, n) r
unfolding received
received-last bid n more r hb fit =
    let f = piece-Flags bid false more hb in rw (f.stays, f.packs, f.buffer, width, same_if more)
  where
    width : suc n % 2 ^ 32 ≡ suc n
    width = omega arith

-- The completions of one buffer, which fit it, give adjacent views that start at the read-side
-- offset, whether or not the request stays live in between; nothing is handed back to the ring
-- meanwhile, and then this buffer is pending and the next one starts at offset zero.
pub pieces-tiles :
    (bid : ℕ) (ms : List (Bool × ℕ)) (n : Bool × ℕ) (r : Receive)
    → bid < 2 ^ 16
    → r.replenish_pending ≡ false
    → r.cur_offset + total ms + suc n.1 ≤ buf_size
    → (r' : Receive) × (receive_all (pieces bid ms n) r
        ≡ (tiles (slot r bid + r.cur_offset) ms n, r'))
      × (r'.replenish_pending ≡ true)
      × (r'.replenish_bid ≡ bid)
      × (r'.cur_offset ≡ 0)
      × (r'.tail ≡ r.tail)
      × (r'.bufs ≡ r.bufs)
      × (r'.buf_mem ≡ r.buf_mem)
unfolding receive_all complete
pieces-tiles bid [] (more, n) r hb hp fit = (
  took_last bid (more, n) r,
  rw (wait-idle r hp, received-last bid n more r hb (omega arith)),
  refl,
  refl,
  refl,
  refl,
  refl,
  refl,
)
pieces-tiles bid ((more, m) ∷ ms) n r hb hp fit =
    let (r', e, p, b, c, t, bs, m') =
      pieces-tiles bid ms n (took bid (more, m) r) hb hp (omega arith) in
    (
      r',
      rw (wait-idle r hp, received-packing bid m more r hb (omega arith), e, ← add_assoc),
      p,
      b,
      c,
      t,
      bs,
      m',
    )

suspend-replenishes :
    (r : Receive)
    → r.replenish_pending ≡ true
    → r.tail < 2 ^ 16
    → ((await_suspend r).1.bufs (r.tail % 256) ≡ slot_buf r r.replenish_bid)
      × ((await_suspend r).1.tail ≡ (r.tail + 1) % 2 ^ 16)
      × ((j : ℕ) → j ≢ r.tail % 256 → (await_suspend r).1.bufs j ≡ r.bufs j)
      × ((await_suspend r).1.replenish_pending ≡ false)
      × ((await_suspend r).1.cur_offset ≡ r.cur_offset)
unfolding await_suspend replenish
suspend-replenishes r hp h =
    rw (hp, bit_and_low 8 r.tail)
      (
        rw (==-self (r.tail % 256)) refl,
        refl,
        λ j ne. rw (ne→==false j (r.tail % 256) ne) refl,
        refl,
        refl,
      )

-- The await after all completions of one buffer, which fit it, hands that buffer back: its whole slot
-- stands at the ring entry of the low eight bits of the tail that there was before the first of them,
-- the tail is one further modulo 2^16, the other entries are as they were, no buffer is pending, and
-- the next buffer starts at offset zero.
pub pieces-replenish :
    (bid : ℕ) (ms : List (Bool × ℕ)) (n : Bool × ℕ) (r : Receive)
    → bid < 2 ^ 16
    → r.replenish_pending ≡ false
    → r.cur_offset + total ms + suc n.1 ≤ buf_size
    → r.tail < 2 ^ 16
    → (r' : Receive) × ((await_suspend (receive_all (pieces bid ms n) r).1).1 ≡ r')
      × (r'.bufs (r.tail % 256) ≡ slot_buf r bid)
      × (r'.tail ≡ (r.tail + 1) % 2 ^ 16)
      × ((j : ℕ) → j ≢ r.tail % 256 → r'.bufs j ≡ r.bufs j)
      × (r'.replenish_pending ≡ false)
      × (r'.cur_offset ≡ 0)
pieces-replenish bid ms n r hb hp fit wrap =
    let (q, run, p, b, c, t, bs, mem) = pieces-tiles bid ms n r hb hp fit in
    let (here, next, others, idle, offset) =
      suspend-replenishes q p (subst (λ k. k < 2 ^ 16) (sym t) wrap) in
    let same : slot_buf q q.replenish_bid ≡ slot_buf r bid =
      ap₂ (λ base i. slot_buf (record r { buf_mem = base }) i) mem b in
    (
      (await_suspend q).1,
      ap (λ (o : List View × Receive). (await_suspend o.1).1) run,
      ap (λ k. (await_suspend q).1.bufs (k % 256)) (sym t) ∙ here ∙ same,
      next ∙ ap (λ k. (k + 1) % 2 ^ 16) t,
      λ j ne. others j (λ e. ne (e ∙ ap (λ k. k % 256) t)) ∙ ap (λ f. f j) bs,
      idle,
      offset ∙ c,
    )
