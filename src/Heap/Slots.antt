-- ===== src/Heap/Slots.antt =====
-- include/__ngr/__core/__intrusive_heap.hpp: slots, and what a push leaves alone.
use model_lib.Base.{
  ℕ, ◌+◌, ◌≤◌, ◌≡◌, ◌≢◌, refl, ap, sym, Bool, true, false, some, Option, List, [], ◌==◌, arith,
  ne→==false, ==-self,
}
use model_lib.Store.{Ptr, null}
use model_lib.Heap.{
  child_slot, Heap, Slot, of_root, of_left, of_right, same_slot, usable, attach, write_at,
  write_prev,
}
use model_lib.Heap.Trees.{Tree, leaf, node, count, one_if, insert}
use model_lib.Heap.Linked.{Linked, count_self, ne_of_count, Linked-frame}
use model_lib.Heap.Displace.{Spares}

-- how often the node of a slot stands in a tree
abbrev pub owned : Slot → Tree → ℕ
owned of_root t = 0
owned (of_left a) t = count a t
owned (of_right a) t = count a t

pub other_left :
    (s : Slot) (a : Ptr) (t : Tree)
    → owned s t ≡ 0
    → 1 ≤ count a t
    → same_slot s (of_left a) ≡ false
other_left of_root a t o i = refl
other_left (of_left b) a t o i = ne→==false b a (ne_of_count b a t o i)
other_left (of_right b) a t o i = refl

pub other_right :
    (s : Slot) (a : Ptr) (t : Tree)
    → owned s t ≡ 0
    → 1 ≤ count a t
    → same_slot s (of_right a) ≡ false
other_right of_root a t o i = refl
other_right (of_right b) a t o i = ne→==false b a (ne_of_count b a t o i)
other_right (of_left b) a t o i = refl

flipped : (a b : ℕ) → (a == b) ≡ false → (b == a) ≡ false
flipped a b h = ground (arith, h)

pub other_way : (s t : Slot) → same_slot s t ≡ false → same_slot t s ≡ false
other_way of_root of_root h = h
other_way of_root (of_left b) h = refl
other_way of_root (of_right b) h = refl
other_way (of_left a) of_root h = refl
other_way (of_left a) (of_left b) h = flipped a b h
other_way (of_left a) (of_right b) h = refl
other_way (of_right a) of_root h = refl
other_way (of_right a) (of_left b) h = refl
other_way (of_right a) (of_right b) h = flipped a b h

pub same_slot_self : (s : Slot) → same_slot s s ≡ true
same_slot_self of_root = refl
same_slot_self (of_left a) = ==-self a
same_slot_self (of_right a) = ==-self a

-- What a push at the slot `pp` leaves alone, beside `x` and the nodes of `t`.
pub record Keeps (pp : Slot) (x : Ptr) (t : Tree) (h g : Heap) : Type 0 where
  pub size : g.size ≡ h.size
  pub at : (s : Slot) → same_slot s pp ≡ false → owned s (node x t leaf) ≡ 0 → g.at s ≡ h.at s
  pub prev : (y : Ptr) → y ≢ x → count y t ≡ 0 → g.prev y ≡ h.prev y

module _ (key : Ptr → ℕ) where
  -- The outcome of the outer loop.
  abbrev pub Inserted :
      List Bool → Ptr → Tree → (pp : Slot) → (q : Ptr) → Heap → Option (Unit {0} × Heap) → Type 0
  Inserted bs x t pp q h o =
      (g : Heap) × (o ≡ some (tt, g)) × Linked g q (g.at pp) (insert key bs x t) × Keeps pp x t h g

pub attach-Inserted :
    (key : Ptr → ℕ) (x q : Ptr) (pp : Slot) (h : Heap)
    → x ≢ null
    → usable pp ≡ true
    → owned pp (node x leaf leaf) ≡ 0
    → Inserted key [] x leaf pp q h (attach x pp q h)
unfolding attach insert
attach-Inserted key x q pp h nx u own =
    let me = count_self x leaf leaf in
    (
      write_at (of_left x) null (write_at (of_right x) null (write_prev x q (write_at pp x h))),
      rw (u, ne→==false x null nx, ne→==false x null nx, ne→==false x null nx),
      (
        rw (
          other_left pp x (node x leaf leaf) own me,
          other_right pp x (node x leaf leaf) own me,
          same_slot_self pp,
        ),
        nx,
        rw (==-self x),
        rw (==-self x),
        rw (==-self x),
      ),
      record {
        size = refl;
        at = λ s ne o.
            rw
              (other_left s x (node x leaf leaf) o me, other_right s x (node x leaf leaf) o me, ne);
        prev = λ y ne o. rw (ne→==false y x ne);
      },
    )

pub spared_slot :
    (s : Slot) (x : Ptr) (t : Tree) (h g : Heap)
    → owned s (node x t leaf) ≡ 0
    → Spares x t h g
    → g.at s ≡ h.at s
spared_slot of_root x t h g o spares = spares.root
spared_slot (of_left b) x t h g o spares =
    (spares.links b (ne_of_count b x (node x t leaf) o (count_self x t leaf))
      (omega (arith, o))).left
spared_slot (of_right b) x t h g o spares =
    (spares.links b (ne_of_count b x (node x t leaf) o (count_self x t leaf))
      (omega (arith, o))).right

pub slot_outside :
    (s : Slot) (x b : Ptr) (t : Tree)
    → owned s (node x t leaf) ≡ 0
    → 1 ≤ count b t
    → owned s (node b leaf leaf) ≡ 0
slot_outside of_root x b t o i = refl
slot_outside (of_left y) x b t o i =
    omega (arith, ap one_if (ne→==false y b (ne_of_count y b t (omega (arith, o)) i)))
slot_outside (of_right y) x b t o i =
    omega (arith, ap one_if (ne→==false y b (ne_of_count y b t (omega (arith, o)) i)))

-- A slot outside a tree is outside its subtrees, and not one of its root's.
pub sub_owned :
    (s : Slot) (x a : Ptr) (l r : Tree)
    → owned s (node x (node a l r) leaf) ≡ 0
    → (owned s (node x l leaf) ≡ 0) × (owned s (node x r leaf) ≡ 0)
sub_owned of_root x a l r o = (refl, refl)
sub_owned (of_left b) x a l r o = (omega (arith, o), omega (arith, o))
sub_owned (of_right b) x a l r o = (omega (arith, o), omega (arith, o))

pub outside_tree : (s : Slot) (x : Ptr) (t : Tree) → owned s (node x t leaf) ≡ 0 → owned s t ≡ 0
outside_tree of_root x t o = refl
outside_tree (of_left b) x t o = omega (arith, o)
outside_tree (of_right b) x t o = omega (arith, o)

pub child_apart :
    (b : Bool) (y a : Ptr)
    → y ≢ a
    → (same_slot (of_left y) (child_slot b a) ≡ false)
      × (same_slot (of_right y) (child_slot b a) ≡ false)
child_apart true y a ne = (refl, ne→==false y a ne)
child_apart false y a ne = (ne→==false y a ne, refl)

-- A tree beside the place of a push keeps its links.
pub kept-Linked :
    (b : Bool) (x a q p : Ptr) (t e : Tree) (h f : Heap)
    → Keeps (child_slot b a) x t h f
    → count x e ≡ 0
    → count a e ≡ 0
    → ((y : Ptr) → 1 ≤ count y e → count y t ≡ 0)
    → Linked h q p e
    → Linked f q p e
kept-Linked b x a q p t e h f keeps nx na disjoint k =
    Linked-frame h f q p e
      (λ y i.
        let (lo, ro) = child_apart b y a (λ z. ne_of_count a y e na i (sym z)) in
        let o = apart y i in
        record { left = keeps.at (of_left y) lo o; right = keeps.at (of_right y) ro o })
      (λ y i. keeps.prev y (λ z. ne_of_count x y e nx i (sym z)) (disjoint y i)) k
  where
    apart : (y : Ptr) → 1 ≤ count y e → one_if (y == x) + count y t + 0 ≡ 0
    apart y i =
        omega
          (arith, disjoint y i, ap one_if (ne→==false y x (λ z. ne_of_count x y e nx i (sym z))))
