-- ===== src/Examples/Buffers.antt =====
-- Owners, circular buffers and receives at concrete inputs.
use model_lib.Base.{
  get_elem?, ◌-◌, ℕ, zero, suc, ◌^◌, ◌≡◌, ◌≢◌, refl, [], ◌∷◌, some, ltb, arith, true, false,
  get_elem?,
}
use mathlib.Core.Option.{some-injective}
use model_lib.Circular.{Circular, push_back, consume_front_while, drain}
use model_lib.Circular.Fifo.{HoldsFifo, push_back-HoldsFifo, consume_front_while-drain}
use model_lib.Receive.{Receive, slot, slot_buf, receive_all, await_suspend}
use model_lib.Receive.Pieces.{pieces, tiles, pieces-tiles, pieces-replenish}

-- Two slots, about to wrap.
abbrev wrapping : Circular ℕ
wrapping = record { storage = λ i. 7; head = 2 ^ 32 - 1; tail = 0 }

wrapping-HoldsFifo : HoldsFifo 1 wrapping (7 ∷ [])
wrapping-HoldsFifo = record {
  ends = refl;
  head_word = omega arith;
  room = omega arith;
  at = λ i v e. only i v e;
}
  where
    only : (i v : ℕ) → get_elem? (7 ∷ []) i ≡ some v → 7 ≡ v
    only zero v e = some-injective 7 v e
    only (suc i) v e = absurd (cc e)

push_back-HoldsFifo_example : HoldsFifo 1 (push_back 1 8 wrapping) (7 ∷ 8 ∷ [])
push_back-HoldsFifo_example =
    push_back-HoldsFifo 1 (omega arith) 8 wrapping (7 ∷ []) wrapping-HoldsFifo (omega arith)

consume_front_while-drain_example :
    (last : ℕ) × (c' : Circular ℕ) × (consume_front_while 1 2 (λ v. ltb v 8) wrapping ≡ some last)
    × (drain 1 2 last wrapping ≡ some (7 ∷ [], c'))
    × HoldsFifo 1 c' []
consume_front_while-drain_example =
    consume_front_while-drain 1 (omega arith) 2 (λ v. ltb v 8) wrapping (7 ∷ []) wrapping-HoldsFifo
      (omega arith)

abbrev idle : Receive
idle = record {
  tail = 256;
  bufs = λ i. record { addr = 0; len = 0; bid = 0 };
  buf_mem = 65536;
  bgid = 0;
  rfd = 5;
  multishot_live = true;
  bid = 0;
  offset = 0;
  len = 0;
  buf_more = false;
  cur_offset = 0;
  replenish_pending = false;
  replenish_bid = 0;
}

-- Buffer 3 is filled by two pieces; the request ends with the second.
pieces-tiles_example :
    (r' : Receive) × (receive_all (pieces 3 ((true, 99) ∷ []) (false, 49)) idle
      ≡ (tiles (slot idle 3) ((true, 99) ∷ []) (false, 49), r'))
    × (r'.replenish_pending ≡ true)
    × (r'.replenish_bid ≡ 3)
    × (r'.cur_offset ≡ 0)
    × (r'.tail ≡ 256)
    × (r'.bufs ≡ idle.bufs)
    × (r'.buf_mem ≡ 65536)
pieces-tiles_example =
    pieces-tiles 3 ((true, 99) ∷ []) (false, 49) idle (omega arith) refl (omega arith)

pieces-replenish_example :
    (r' : Receive) × ((await_suspend
        (receive_all (pieces 3 ((true, 99) ∷ []) (false, 49)) idle).1).1
      ≡ r')
    × (r'.bufs 0 ≡ slot_buf idle 3)
    × (r'.tail ≡ 257)
    × ((j : ℕ) → j ≢ 0 → r'.bufs j ≡ idle.bufs j)
    × (r'.replenish_pending ≡ false)
    × (r'.cur_offset ≡ 0)
pieces-replenish_example =
    pieces-replenish 3 ((true, 99) ∷ []) (false, 49) idle (omega arith) refl (omega arith)
      (omega arith)
