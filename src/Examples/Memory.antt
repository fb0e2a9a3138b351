-- ===== src/Examples/Memory.antt =====
-- Segments, stack frames and blocks at concrete inputs.
use model_lib.Base.{
  true, ◌^◌, ℕ, ◌+◌, ◌*◌, ◌%◌, ◌≡◌, ◌≤◌, ◌<◌, refl, inl, [], ◌∷◌, some, none, arith, length,
  get_elem?,
}
use model_lib.Blocks.{
  place_descriptors, BlockScMeta, block_sc_meta, block_sc_metas, block_free, block_n_byte,
  choose_blksc, destructive_size, Descriptor,
}
use model_lib.Blocks.Bounds.{block_free_bounds, choose_blksc-len}
use model_lib.Base.Log.{clzll, log2}
use model_lib.Segments.{SegmentArray, bit_width, push_back, fold_inplace}
use model_lib.Segments.Folds.{Holds, push_back-Holds}
use model_lib.Segments.Reads.{fold_inplace-foldl}
use model_lib.Frames.{Allocator, fresh_allocator, ready, frame_bytes, push_stack_frame}
use model_lib.Frames.Fresh.{PushesAndPops}
use model_lib.Frames.Fits.{push_stack_frame-pops}

abbrev first_class : BlockScMeta
first_class = block_sc_meta 4096 64 32 16

abbrev first_descriptor : Descriptor
first_descriptor = record { address = 4096; bid = 0; sc = 0; refcount = 1 }

block_free_bounds_example :
    (length (block_free 0 0 0 first_class) ≡ 64)
    × (0 < 64)
    × (first_descriptor.address ≡ 0 + 0 * (4096 + destructive_size) + 4096)
    × (first_descriptor.address + destructive_size ≤ 0 + block_n_byte first_class)
    × (block_n_byte first_class % 4096 ≡ 0)
unfolding block_free place_descriptors
block_free_bounds_example = block_free_bounds 0 0 0 0 0 first_class first_descriptor refl refl

choose_blksc-len_example :
    (m : BlockScMeta) × (get_elem? block_sc_metas (choose_blksc 5000) ≡ some m)
    × (m.len ≤ 5000)
    × (5000 < 2 * m.len)
choose_blksc-len_example = choose_blksc-len 5000 (omega arith) (omega arith)

-- The scheduler's table is for 128 elements.
abbrev no_segments : SegmentArray ℕ 128
no_segments = record { seg = λ n. none; count = 0; prev = 0 }

no_segments-Holds : Holds no_segments []
no_segments-Holds = record { counted = refl; handed = refl; slots = λ i v e. absurd (cc e) }

table_room : 1 < 2 ^ bit_width 128
unfolding clzll log2
table_room = omega arith

push_back-Holds_example :
    (a' : SegmentArray ℕ 128) × (push_back (λ n. true) 0 7 no_segments ≡ some (0, a'))
    × Holds a' (7 ∷ [])
push_back-Holds_example =
    push_back-Holds (λ n. true) 0 7 no_segments [] no_segments-Holds table_room (omega arith) refl

one_element :
    (a' : SegmentArray ℕ 128) × (push_back (λ n. true) 0 7 no_segments ≡ some (0, a'))
    × Holds a' (7 ∷ [])
one_element =
    push_back-Holds (λ n. true) 0 7 no_segments [] no_segments-Holds table_room (omega arith) refl

fold_inplace-foldl_example : fold_inplace (λ a b. a + b) 2 one_element.0 1 ≡ some 8
fold_inplace-foldl_example =
    fold_inplace-foldl (λ a b. a + b) one_element.0 (7 ∷ []) 2 1 one_element.2 (omega arith)
      table_room (omega arith)

abbrev heap_at : ℕ → ℕ → ℕ
heap_at made size = 65536 + made * 65536

abbrev no_chunks : Allocator
no_chunks = fresh_allocator (λ p. record { chunk = 0; bump = 0 })

push_stack_frame-pops_example :
    PushesAndPops
      (ready heap_at (frame_bytes 100) no_chunks none)
      (frame_bytes 100)
      (push_stack_frame heap_at 3 100 no_chunks)
push_stack_frame-pops_example =
    push_stack_frame-pops heap_at 100 no_chunks (omega arith) (omega arith) (inl refl)
