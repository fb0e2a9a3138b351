-- ===== src/Receive.antt =====
-- source/main.cxx: `__async_receive`, a multishot receive into a ring of 256 provided buffers that
-- the kernel fills by pieces. The buffer ring is its tail and its entries; the memory is known by
-- the address of its first byte.
pub mod Pieces
pub mod Filled
use Prim.Native.Nat.{bit_and}
use model_lib.Base.{
  not, ℕ, zero, suc, ◌+◌, ◌*◌, ◌/◌, ◌%◌, ◌^◌, ◌-◌, Bool, true, false, ◌==◌, List, [], ◌∷◌,
  if◌then◌else◌,
}
use model_lib.Base.Words.{u64, add32, u32}
use model_lib.Base.Integers.{ℤ, pos, negsuc}

abbrev pub nr_bufs : ℕ
nr_bufs = 256

abbrev pub buf_size : ℕ
buf_size = 4096

abbrev pub mask : ℕ
mask = nr_bufs - 1

-- `io_uring_buf`
pub record Buf : Type 0 where
  pub addr : ℕ
  pub len : ℕ
  pub bid : ℕ

pub record Receive : Type 0 where
  pub tail : ℕ
  pub bufs : ℕ → Buf
  pub buf_mem : ℕ
  pub bgid : ℕ
  pub rfd : ℕ
  pub multishot_live : Bool
  pub bid : ℕ
  pub offset : ℕ
  pub len : ℕ
  pub buf_more : Bool
  pub cur_offset : ℕ
  pub replenish_pending : Bool
  pub replenish_bid : ℕ

-- `_M_slot`
abbrev pub slot : Receive → ℕ → ℕ
slot r bid = r.buf_mem + bid * buf_size

abbrev pub put_buf : (ℕ → Buf) → ℕ → Buf → ℕ → Buf
put_buf bufs i b j = if j == i then b else bufs j

abbrev pub slot_buf : Receive → ℕ → Buf
slot_buf r bid = record { addr = u64 (slot r bid); len = buf_size; bid = bid }

-- `_M_replenish`; the tail is 16 bits wide.
unfoldable pub replenish : ℕ → Receive → Receive
replenish bid r = record r {
  bufs = put_buf r.bufs (bit_and r.tail mask) (slot_buf r bid);
  tail = (r.tail + 1) % 2 ^ 16;
}

-- The loop of `_M_setup_ring` with `k` entries left from `i`.
unfoldable pub fill_loop : (k i : ℕ) → Receive → Receive
fill_loop zero i r = r
fill_loop (suc k) i r =
    fill_loop k (suc i) (record r { bufs = put_buf r.bufs i (slot_buf r (i % 2 ^ 16)) })

-- What setting up can end with: an error code thrown, or the receive.
pub data Setup : Type 0 where
  thrown : ℕ → Setup
  ready : Receive → Setup

abbrev pub map_failed : ℕ
map_failed = 2 ^ 64 - 1

abbrev pub registered : ℤ → Receive → Setup
registered (negsuc n) r = thrown (suc n)
registered (pos n) r = ready r

-- `_M_setup_ring`: `buf_mem` and `ring_mem` are what the two `mmap` calls return, `rc` what the
-- registration returns, and `errno` its value after a failed `mmap`.
unfoldable pub setup_ring : (buf_mem ring_mem errno : ℕ) → ℤ → Receive → Setup
unfolding fill_loop
setup_ring buf_mem ring_mem errno rc r =
    if buf_mem == map_failed
    then thrown errno
    else if ring_mem == map_failed
    then thrown errno
    else registered rc
        (record (fill_loop nr_bufs 0 (record r { buf_mem = buf_mem; tail = 0 })) { tail = nr_bufs })

-- The fields of `io_uring_sqe` that a receive sets.
pub record Sqe : Type 0 where
  pub opcode : ℕ
  pub fd : ℕ
  pub len : ℕ
  pub buf_group : ℕ
  pub flags : ℕ
  pub ioprio : ℕ

-- `__submit`, with the kernel's numbers of IORING_OP_RECV, IOSQE_BUFFER_SELECT and
-- IORING_RECV_MULTISHOT
unfoldable pub submit : Receive → Sqe × Receive
submit r = (
  record { opcode = 27; fd = r.rfd; len = 0; buf_group = r.bgid; flags = 32; ioprio = 2 },
  record r { multishot_live = true },
)

-- `io_uring_cqe`
pub record Cqe : Type 0 where
  pub res : ℤ
  pub flags : ℕ

abbrev pub flag : ℕ → Cqe → Bool
flag weight c = c.flags / weight % 2 == 1

-- IORING_CQE_F_MORE and IORING_CQE_F_BUF_MORE
abbrev pub f_more : Cqe → Bool
f_more c = flag 2 c

abbrev pub f_buf_more : Cqe → Bool
f_buf_more c = flag 16 c

-- What a completion makes the scheduler do: submit the receive again, nothing, or resume the
-- coroutine.
pub data Effect : Type 0 where
  resubmit : Effect
  stopped : Effect
  execute : Effect

-- The rest of `__complete` for `n` bytes received.
unfoldable pub received : Cqe → ℕ → Receive → Receive
received c n r =
    let bid = c.flags / 2 ^ 16 % 2 ^ 16 in
    let r' = record r {
      multishot_live = if f_more c then r.multishot_live else false;
      bid = bid;
      len = u32 n;
      buf_more = f_buf_more c;
      offset = r.cur_offset;
    } in
    if f_buf_more c
    then record r' { cur_offset = add32 r.cur_offset (u32 n) }
    else record r' { cur_offset = 0; replenish_pending = true; replenish_bid = bid }

-- ENOBUFS is 105.
unfoldable pub complete_res : ℤ → Cqe → Receive → Effect × Receive
unfolding received
complete_res (pos zero) c r = (stopped, r)
complete_res (pos (suc n)) c r = (execute, received c (suc n) r)
complete_res (negsuc n) c r =
    if n == 104
    then (resubmit, record r { multishot_live = false; cur_offset = 0 })
    else (stopped, r)

-- `__complete`
unfoldable pub complete : Cqe → Receive → Effect × Receive
unfolding complete_res
complete c r = complete_res c.res c r

-- `await_suspend`: the new state, and whether the receive is to be submitted.
unfoldable pub await_suspend : Receive → Bool × Receive
unfolding replenish
await_suspend r =
    if r.replenish_pending
    then (not r.multishot_live, record (replenish r.replenish_bid r) { replenish_pending = false })
    else (not r.multishot_live, r)

-- `__recv_view`
pub record View : Type 0 where
  pub data_at : ℕ
  pub len : ℕ

abbrev pub view : ℕ → ℕ → View
view p n = record { data_at = p; len = n }

-- `await_resume`
abbrev pub await_resume : Receive → View
await_resume r = view (slot r r.bid + r.offset) r.len

abbrev pub seen : Effect → Receive → List View → List View
seen execute r vs = await_resume r ∷ vs
seen resubmit r vs = vs
seen stopped r vs = vs

-- The coroutine waits: a receive that is not live is submitted again, by the callback that runs behind
-- the coroutine's execution, or after ENOBUFS, where the coroutine waits still.
abbrev pub live_again : Bool × Receive → Receive
live_again (again, r) = if again then (submit r).1 else r

unfoldable pub wait_next : Receive → Receive
unfolding await_suspend
wait_next r = live_again (await_suspend r)

-- The loop of `__receive_coro` over the completions that come: suspend, complete, look at the view.
unfoldable pub receive_all : List Cqe → Receive → List View × Receive
unfolding wait_next complete
receive_all [] r = ([], r)
receive_all (c ∷ cs) r =
    let (effect, r') = complete c (wait_next r) in
    let (vs, r'') = receive_all cs r' in (seen effect r' vs, r'')
