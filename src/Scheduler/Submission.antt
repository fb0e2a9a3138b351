-- ===== src/Scheduler/Submission.antt =====
-- include/__ngr/__core/__scheduler.hpp: the submission queue, a ring shared with the kernel. The
-- pending tasks are the list that the intrusive queue stands for; a task is its address. What the
-- tasks' submit functions write is a parameter, of which the loop reads only whether the entry is
-- an `IORING_OP_ASYNC_CANCEL`.
pub mod Laws
pub mod Rounds
use Prim.Native.Nat.{bit_and}
use model_lib.Base.{
  ℕ, ◌+◌, ◌^◌, ◌%◌, Bool, true, false, ◌&&◌, not, List, [], ◌∷◌, ◌==◌, ltb, if◌then◌else◌,
}
use model_lib.Base.Words.{add32, sub32}

pub record Ring : Type 0 where
  pub head : ℕ
  pub tail : ℕ
  pub mask : ℕ
  pub n_slot : ℕ
  pub user_data : ℕ → ℕ
  pub array : ℕ → ℕ

abbrev pub put : (ℕ → ℕ) → ℕ → ℕ → ℕ → ℕ
put f m v s = if s == m then v else f s

unfoldable pub umin : ℕ → ℕ → ℕ
umin a b = if ltb a b then a else b

-- What the loop leaves: the tasks still pending, the entries added, the new tail, the entries, and
-- the tasks that were stopped instead, in order.
pub record Pass : Type 0 where
  pub pending : List ℕ
  pub added : ℕ
  pub tail : ℕ
  pub user_data : ℕ → ℕ
  pub array : ℕ → ℕ
  pub stopped : List ℕ

module _ (is_cancel : ℕ → Bool) (mask : ℕ) where
  unfoldable pub submit_loop : List ℕ → (max r tail : ℕ) → Bool → (user_data array : ℕ → ℕ) → Pass
  submit_loop [] max r tail stop ud ar = record {
    pending = [];
    added = r;
    tail = tail;
    user_data = ud;
    array = ar;
    stopped = [];
  }
  submit_loop (op ∷ ops) max r tail stop ud ar =
      let m = bit_and tail mask in
      let stop' = stop && not (is_cancel op) in
      let halted = submit_loop ops max r tail stop' ud ar in
      let added = submit_loop ops max (r + 1) (add32 tail 1) stop' (put ud m op) (put ar m m) in
      if ltb r max
      then (if stop' then record halted { stopped = op ∷ halted.stopped } else added)
      else record {
        pending = op ∷ ops;
        added = r;
        tail = tail;
        user_data = ud;
        array = ar;
        stopped = [];
      }

-- `__submission_queue::_M_submit`: what the loop leaves, and the ring with the tail it stored.
unfoldable pub submit : (is_cancel : ℕ → Bool) → Ring → List ℕ → (max : ℕ) → Bool → Pass × Ring
unfolding umin
submit is_cancel q pending max stop =
    let n = sub32 q.tail q.head in
    let room = umin max (sub32 q.n_slot n) in
    let p = submit_loop is_cancel q.mask pending room 0 q.tail stop q.user_data q.array in
    (p, record q { tail = p.tail; user_data = p.user_data; array = p.array })
