-- ===== src/Handles/Release.antt =====
-- include/__ngr/__core/__file_descriptor.hpp and __memory_mapped_region.hpp: whatever is moved,
-- each resource is released once.
use model_lib.Base.{Bool, if◌then◌else◌, ◌≡◌, List, [], ◌∷◌, ◌==◌, Bool-cases, inl, inr}
use model_lib.Base.Integers.{ℤ}
use model_lib.Handles.{Region, is_none, fd_valid, region_valid, fd_turns, region_turns}

-- the elements that pass a test
abbrev pub keep : {A : Type 0} → (A → Bool) → List A → List A
keep p [] = []
keep p (x ∷ xs) = if p x then x ∷ keep p xs else keep p xs

-- An owner that is assigned others in turn, and is destroyed at the end, with the others, closes
-- each valid descriptor that any of them held once, in order, and nothing else.
pub fd_turns-keep : (fd : ℤ) (others : List ℤ) → fd_turns fd others ≡ keep fd_valid (fd ∷ others)
unfolding fd_turns
fd_turns-keep fd [] = elim (Bool-cases (is_none fd)) [ inl e ↦ rw e | inr e ↦ rw e ]
fd_turns-keep fd (other ∷ others) = elim (Bool-cases (is_none fd)) [
  | inl e ↦ rw (e, fd_turns-keep other others)
  | inr e ↦ rw (e, fd_turns-keep other others)
]

-- An owner of a mapping that is assigned others in turn, and is destroyed at the end, with the
-- others, unmaps each region that any of them held once, in order, and nothing else.
pub region_turns-keep :
    (r : Region) (others : List Region) → region_turns r others ≡ keep region_valid (r ∷ others)
unfolding region_turns
region_turns-keep r [] = elim (Bool-cases (r.at == 0)) [ inl e ↦ rw e | inr e ↦ rw e ]
region_turns-keep r (other ∷ others) = elim (Bool-cases (r.at == 0)) [
  | inl e ↦ rw (e, region_turns-keep other others)
  | inr e ↦ rw (e, region_turns-keep other others)
]
