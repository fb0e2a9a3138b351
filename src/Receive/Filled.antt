-- ===== src/Receive/Filled.antt =====
-- source/main.cxx: `_M_setup_ring` gives every buffer to the kernel once.
use model_lib.Base.{
  ==-self, dec_lt, ne→==false, ℕ, zero, suc, ◌+◌, ◌%◌, ◌^◌, ◌≤◌, ◌<◌, ◌≡◌, ◌≢◌, ◌∙◌, refl, arith,
}
use model_lib.Base.Integers.{pos}
use model_lib.Receive.{Receive, slot_buf, fill_loop, setup_ring, ready, map_failed}

fill_loop-below : (k i j : ℕ) (r : Receive) → j < i → (fill_loop k i r).bufs j ≡ r.bufs j
unfolding fill_loop
fill_loop-below zero i j r h = refl
fill_loop-below (suc k) i j r h =
    fill_loop-below k (suc i) j _ (omega arith) ∙ rw (ne→==false j i (omega arith)) refl

fill_loop-bufs :
    (k i j : ℕ) (r : Receive)
    → i ≤ j
    → j < i + k
    → i + k ≤ 2 ^ 16
    → (fill_loop k i r).bufs j ≡ slot_buf r j
unfolding fill_loop
fill_loop-bufs zero i j r h h' fit = absurd (omega arith)
fill_loop-bufs (suc k) i j r h h' fit = elim (dec_lt i j) [
  | yes lt ↦ fill_loop-bufs k (suc i) j _ (omega arith) (omega arith) (omega arith)
  | no ge ↦
      let same : j ≡ i = omega arith in
      let small : i % 2 ^ 16 ≡ i = omega arith in
      fill_loop-below k (suc i) j _ (omega arith) ∙ rw (same, ==-self i, small) refl
]

fill_loop-keeps : (k i : ℕ) (r : Receive) → (fill_loop k i r).buf_mem ≡ r.buf_mem
unfolding fill_loop
fill_loop-keeps zero i r = refl
fill_loop-keeps (suc k) i r = fill_loop-keeps k (suc i) _

-- When both maps and the registration succeed, setting up ends with a receive whose ring has tail
-- 256 and, at each entry below it, the whole slot of the buffer of the same number.
pub setup_ring-fills :
    (buf_mem ring_mem errno n : ℕ) (r : Receive)
    → buf_mem ≢ map_failed
    → ring_mem ≢ map_failed
    → (r' : Receive) × (setup_ring buf_mem ring_mem errno (pos n) r ≡ ready r')
      × (r'.tail ≡ 256)
      × (r'.buf_mem ≡ buf_mem)
      × ((j : ℕ) → j < 256 → r'.bufs j ≡ slot_buf r' j)
unfolding setup_ring
setup_ring-fills buf_mem ring_mem errno n r h h' =
    let r0 : Receive = record r { buf_mem = buf_mem; tail = 0 } in
    (
      record (fill_loop 256 0 r0) { tail = 256 },
      rw (ne→==false buf_mem map_failed h, ne→==false ring_mem map_failed h'),
      refl,
      fill_loop-keeps 256 0 r0,
      λ j lt.
          rw (fill_loop-keeps 256 0 r0)
            (fill_loop-bufs 256 0 j r0 (omega arith) (omega arith) (omega arith)),
    )
