-- ===== src/Arena/Promise.antt =====
-- include/__ngr/__core/__memory_resource.hpp: the shared source keeps what the thread's source relies on.
use model_lib.Base.{
  ne→==false, ℕ_discrete, ℕ, zero, suc, ◌+◌, ◌-◌, ◌^◌, ◌<◌, ◌≡◌, refl, ap, ◌∙◌, Option, some, none,
  List, [], ◌∷◌, length, take, drop, arith, length-take, length-drop, length-reverse,
  take-append-drop,
}
use model_lib.Store.{Ptr}
use model_lib.Arena.{mapping_blocks}
use model_lib.Arena.Layout.{length-mapping_blocks}
use model_lib.Arena.Outcome.{Returns, weaken}
use model_lib.Arena.Remote.{Remote, convert, push, pop_swap_reversed}
use model_lib.Arena.Ring.{HoldsBatches}
use model_lib.Arena.Batches.{added, push-HoldsBatches}
use model_lib.Arena.Growth.{chunks}
use model_lib.Arena.Supply.{pop_swap_reversed-oldest, pop_swap_reversed-grows}
use model_lib.Arena.Local.{Shared}
use model_lib.Arena.Accounts.{is, occurs, Keeps}
use model_lib.Arena.Contents.{
  in_ring, in_batches, in_ring-batches, in_batches-append, in_batches-chunks, occurs-append,
  occurs-reverse,
}

-- the shared source, for the thread's
abbrev pub remote_source : (ℕ → Option ℕ) → Shared Remote
remote_source os = record { push = push; pop = pop_swap_reversed os }

abbrev blocks_of : Option ℕ → List Ptr
blocks_of none = []
blocks_of (some p) = mapping_blocks p

-- The blocks that the next `m` calls of `mmap` will give.
abbrev reserve : (ℕ → Option ℕ) → (m n : ℕ) → Ptr → ℕ
reserve os zero n y = 0
reserve os (suc m) n y = occurs y (blocks_of (os n)) + reserve os m (suc n) y

-- What the source has, with the memory it may still map.
unfoldable pub stored : (ℕ → Option ℕ) → Remote → Ptr → ℕ
stored os r y = in_ring r.ring y + reserve os (16 - r.n) r.n y

-- There is a slot to push to, and the head does not wrap.
pub record HasRoom (r : Remote) : Type 0 where
  pub full : List (List Ptr)
  pub part : List Ptr
  pub holds : HoldsBatches r full part
  pub below : length full < 64
  pub narrow : suc (convert r.state).head < 2 ^ 32

-- There is a full batch, or no block at all and memory can be mapped.
pub data HasStock (os : ℕ → Option ℕ) (r : Remote) : Type 0 where
  full_batch :
      (b : List Ptr) (bs : List (List Ptr)) (part : List Ptr)
      → HoldsBatches r (b ∷ bs) part
      → HasStock os r
  can_map :
      (p : ℕ)
      → HoldsBatches r [] []
      → (convert r.state).head + 4 < 2 ^ 32
      → r.n < 16
      → os r.n ≡ some p
      → HasStock os r

reserve-step :
    (os : ℕ → Option ℕ) (n p : ℕ) (y : Ptr)
    → n < 16
    → os n ≡ some p
    → reserve os (16 - n) n y ≡ occurs y (mapping_blocks p) + reserve os (16 - suc n) (suc n) y
reserve-step os n p y lt e =
    let more : 16 - n ≡ suc (16 - suc n) = omega (arith, lt) in rw (more, e) refl

in_batches-added :
    (y : Ptr) (full : List (List Ptr)) (c : List Ptr)
    → in_batches y (added full c).0 + occurs y (added full c).1 ≡ in_batches y full + occurs y c
in_batches-added y full c = elim (ℕ_discrete (length c) 16) [
  | yes e ↦ rw e (omega (arith, in_batches-append y full (c ∷ [])))
  | no ne ↦ rw (ne→==false (length c) 16 ne) refl
]

same_reserve :
    (os : ℕ → Option ℕ) (r r' : Remote) (y : Ptr)
    → r'.n ≡ r.n
    → reserve os (16 - r'.n) r'.n y ≡ reserve os (16 - r.n) r.n y
same_reserve os r r' y e = ap (λ t. reserve os (16 - t) t y) e

pub pushed :
    (os : ℕ → Option ℕ) (x : Ptr) (r : Remote)
    → HasRoom r
    → Returns (λ r'. (y : Ptr) → stored os r' y ≡ is x y + stored os r y) (push x r)
unfolding stored
pushed os x r room =
    weaken (push-HoldsBatches x r room.full room.part room.holds room.below room.narrow) (λ r' q y.
      omega (
        arith,
        in_ring-batches r' _ _ y q.0,
        in_batches-added y room.full (x ∷ room.part),
        in_ring-batches r room.full room.part y room.holds,
        same_reserve os r r' y q.1,
      ))

pub popped :
    (os : ℕ → Option ℕ) (r : Remote)
    → HasStock os r
    → Returns
        (λ p. (length p.0 ≡ 16) × ((y : Ptr) → occurs y p.0 + stored os p.1 y ≡ stored os r y))
        (pop_swap_reversed os r)
unfolding stored
popped os r (full_batch b bs part h) = weaken (pop_swap_reversed-oldest os r b bs part h) (λ p q. (
  ap (λ t. length t) q.0 ∙ length-reverse b ∙ h.batches.0,
  λ y. omega (
    arith,
    ap (λ t. occurs y t) q.0,
    occurs-reverse y b,
    in_ring-batches r (b ∷ bs) part y h,
    in_ring-batches p.1 bs part y q.1,
    same_reserve os r p.1 y q.2,
  ),
))
popped os r (can_map m h fits lt e) =
    let blocks = mapping_blocks m in
    let len = length-mapping_blocks m in
    weaken (pop_swap_reversed-grows os m r h fits lt e) (λ p q. (
      ap (λ t. length t) q.0
          ∙ length-reverse (take 16 blocks)
          ∙ omega (arith, length-take 16 blocks, len),
      λ y. omega (
        arith,
        ap (λ t. occurs y t) q.0,
        occurs-reverse y (take 16 blocks),
        occurs-append y (take 16 blocks) (drop 16 blocks),
        ap (λ t. occurs y t) (take-append-drop 16 blocks),
        in_batches-chunks 3 y (drop 16 blocks) (omega (arith, length-drop 16 blocks, len)),
        in_ring-batches r [] [] y h,
        in_ring-batches p.1 (chunks 3 (drop 16 blocks)) [] y q.1,
        reserve-step os r.n m y lt e,
        ap (λ t. reserve os (16 - t) t y) q.2,
      ),
    ))

-- The interface is filled: pushed blocks are kept, and what is handed out was there.
abbrev pub remote_Keeps : (os : ℕ → Option ℕ) → Keeps (remote_source os)
remote_Keeps os = record {
  held = stored os;
  Room = HasRoom;
  Stock = HasStock os;
  push_law = pushed os;
  pop_law = popped os;
}
