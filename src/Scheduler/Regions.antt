-- ===== src/Scheduler/Regions.antt =====
-- include/__ngr/__core/__scheduler.hpp, `__scheduler_base`: the sizes of the regions that the rings are
-- mapped into, from the parameters that the kernel fills in.
use model_lib.Base.{
  ℕ, ◌+◌, ◌*◌, ◌%◌, ◌^◌, ◌≤◌, ◌<◌, ◌≡◌, Bool, Option, none, some, ◌==◌, ltb, if◌then◌else◌, arith,
  Bool-cases, inl, inr,
}
use model_lib.Base.Words.{u32}

-- `io_uring_params`, as far as it is read
pub record Params : Type 0 where
  pub flags : ℕ
  pub features : ℕ
  pub sq_entries : ℕ
  pub cq_entries : ℕ
  pub sq_array : ℕ
  pub cq_cqes : ℕ

-- `sizeof` of an index, a completion and a submission
abbrev pub index_size : ℕ
index_size = 4

abbrev pub cqe_size : ℕ
cqe_size = 16

abbrev pub sqe_size : ℕ
sqe_size = 64

-- `IORING_FEAT_SINGLE_MMAP` is bit 0 of the features.
abbrev pub single_mmap : Params → Bool
single_mmap p = p.features % 2 == 1

unfoldable pub umax : ℕ → ℕ → ℕ
umax a b = if ltb a b then b else a

-- The bytes mapped for the submission ring, for the submissions, and for the completion ring, if it
-- gets a region of its own. `__umax` takes 32-bit words.
pub record Sizes : Type 0 where
  pub sq : ℕ
  pub sqe : ℕ
  pub cq : Option ℕ

unfoldable pub ring_sizes : Params → Sizes
unfolding umax
ring_sizes p =
    let n_sq = p.sq_array + p.sq_entries * index_size in
    let n_cq = p.cq_cqes + p.cq_entries * cqe_size in
    record {
      sq = if single_mmap p then umax (u32 n_sq) (u32 n_cq) else n_sq;
      sqe = p.sq_entries * sqe_size;
      cq = if single_mmap p then none else some n_cq;
    }

-- The bytes of the region in which the constructor of `__scheduler` lets the completion queue stand.
abbrev pub or_shared : Option ℕ → ℕ → ℕ
or_shared none n = n
or_shared (some m) n = m

unfoldable pub cq_bytes : Sizes → ℕ
cq_bytes s = or_shared s.cq s.sq

umax-left : (a b : ℕ) → a ≤ umax a b
unfolding umax
umax-left a b = ground arith

umax-right : (a b : ℕ) → b ≤ umax a b
unfolding umax
umax-right a b = ground arith

end_of : (a size i n : ℕ) → i < n → a + size * i + size ≤ a + n * size
end_of a size i n lt = grind arith

-- Each index of the submission ring, each submission and each completion ends inside the region that
-- is mapped for it, with one region for both rings and with two, unless the offsets and the bytes
-- behind them are not words of 32 bits.
pub ring_sizes-cover :
    (p : Params) (i j : ℕ)
    → p.sq_array + p.sq_entries * index_size < 2 ^ 32
    → p.cq_cqes + p.cq_entries * cqe_size < 2 ^ 32
    → i < p.sq_entries
    → j < p.cq_entries
    → (p.sq_array + index_size * i + index_size ≤ (ring_sizes p).sq)
      × (sqe_size * i + sqe_size ≤ (ring_sizes p).sqe)
      × (p.cq_cqes + cqe_size * j + cqe_size ≤ cq_bytes (ring_sizes p))
unfolding ring_sizes cq_bytes
ring_sizes-cover p i j sq_word cq_word hi hj = elim (Bool-cases (single_mmap p)) [
  | inl one ↦
      let n_sq = p.sq_array + p.sq_entries * index_size in
      let n_cq = p.cq_cqes + p.cq_entries * cqe_size in
      let sq : u32 n_sq ≡ n_sq = omega (arith, sq_word) in
      let cq : u32 n_cq ≡ n_cq = omega (arith, cq_word) in
      rw (one, sq, cq)
        (
          omega (arith, umax-left n_sq n_cq, end_of p.sq_array 4 i p.sq_entries hi),
          omega arith,
          omega (arith, umax-right n_sq n_cq, end_of p.cq_cqes 16 j p.cq_entries hj),
        )
  | inr two ↦
      rw two
        (end_of p.sq_array 4 i p.sq_entries hi, omega arith, end_of p.cq_cqes 16 j p.cq_entries hj)
]
