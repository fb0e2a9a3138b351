-- ===== src/Handles.antt =====
-- include/__ngr/__core/__file_descriptor.hpp and __memory_mapped_region.hpp: the owners of a
-- descriptor and of a mapping. An operation returns what it closes or unmaps, in order, beside the
-- new owners.
pub mod Release
use model_lib.Base.{
  ℕ, ◌+◌, ◌-◌, ◌^◌, Bool, true, false, ◌&&◌, not, List, [], ◌∷◌, ◌++◌, ◌==◌, if◌then◌else◌,
}
use model_lib.Base.Integers.{ℤ, pos, negsuc}

-- -1, the descriptor of an owner of none
abbrev pub no_fd : ℤ
no_fd = negsuc 0

abbrev pub is_none : ℤ → Bool
is_none (pos n) = false
is_none (negsuc n) = n == 0

-- `close`, if there is a descriptor
abbrev pub close : ℤ → List ℤ
close fd = if is_none fd then [] else fd ∷ []

-- `__file_descriptor`: the moves return the owner and what is left of the other.
unfoldable pub fd_move : ℤ → ℤ × ℤ
fd_move other = (other, no_fd)

-- Assignment from another object, and from itself.
unfoldable pub fd_assign : ℤ → ℤ → List ℤ × ℤ × ℤ
fd_assign fd other = (close fd, other, no_fd)

unfoldable pub fd_assign_self : ℤ → List ℤ × ℤ
fd_assign_self fd = ([], fd)

unfoldable pub fd_destroy : ℤ → List ℤ
fd_destroy fd = close fd

-- `explicit operator bool`
abbrev pub fd_valid : ℤ → Bool
fd_valid fd = not (is_none fd)

pub record Region : Type 0 where
  pub at : ℕ
  pub size : ℕ

-- The null region, as after a move or by default.
abbrev pub no_region : Region
no_region = record { at = 0; size = 0 }

-- `MAP_FAILED` is the address of all ones.
unfoldable pub region : ℕ → ℕ → Region
region p size = record { at = if p == 2 ^ 64 - 1 then 0 else p; size = size }

abbrev pub unmap : Region → List Region
unmap r = if r.at == 0 then [] else r ∷ []

unfoldable pub region_move : Region → Region × Region
region_move other = (other, no_region)

unfoldable pub region_assign : Region → Region → List Region × Region × Region
region_assign r other = (unmap r, other, no_region)

unfoldable pub region_assign_self : Region → List Region × Region
region_assign_self r = ([], r)

unfoldable pub region_destroy : Region → List Region
region_destroy r = unmap r

abbrev pub region_valid : Region → Bool
region_valid r = not (r.at == 0)

-- One owner is assigned others in turn, which are then destroyed, and is destroyed at the end: what
-- is closed, in order.
unfoldable pub fd_turns : ℤ → List ℤ → List ℤ
unfolding fd_assign fd_destroy
fd_turns fd [] = fd_destroy fd
fd_turns fd (other ∷ others) =
    let (closed, fd', other') = fd_assign fd other in
    closed ++ fd_destroy other' ++ fd_turns fd' others

unfoldable pub region_turns : Region → List Region → List Region
unfolding region_assign region_destroy
region_turns r [] = region_destroy r
region_turns r (other ∷ others) =
    let (unmapped, r', other') = region_assign r other in
    unmapped ++ region_destroy other' ++ region_turns r' others
