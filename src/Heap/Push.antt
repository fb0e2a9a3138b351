-- ===== src/Heap/Push.antt =====
-- include/__ngr/__core/__intrusive_heap.hpp: `_M_push`.
use mathlib.Core.Path.{subst}
use model_lib.Base.{
  ==_iff, ℕ, zero, suc, ◌+◌, ◌*◌, ◌/◌, ◌^◌, ◌≤◌, ◌<◌, ◌≡◌, ◌≢◌, refl, ap, sym, ◌∙◌, Bool, true,
  false, some, List, [], ◌∷◌, ◌==◌, ltb, arith, ne→==false, ==-self, length, Bool-cases, inl, inr,
}
use model_lib.Store.{Ptr, null}
use model_lib.Heap.{
  path_bit_mask, Heap, Slot, of_root, of_left, of_right, usable, push_loop, attach, push,
}
use model_lib.Heap.Trees.{
  insert-Ordered, insert-Shape, count-insert, Ordered, Tree, leaf, node, count, one_if, Shape,
  shift, insert, goes_to, too_far, no_turns,
}
use model_lib.Heap.Linked.{
  Linked-frame, root-left, root-right, Linked, Distinct, Distinct-left, Distinct-right, count_self,
  ne_of_count,
}
use model_lib.Heap.Displace.{Turns}
use model_lib.Heap.Descend.{displace_loop-Shifted}
use model_lib.Heap.Path.{way, way-Turns, goes_to-way, length-way}
use native.Mathlib.Nat.{mod-eq_of_lt}
use model_lib.Base.Words.{add64}
use model_lib.Heap.Insert.{make_way, down_right, down_left, entered, entered-Linked}
use model_lib.Heap.Slots.{Inserted, owned, attach-Inserted}

module _ (key : Ptr → ℕ) where
  attach_step :
      (fuel mask k : ℕ) (x q p : Ptr) (pp : Slot) (h : Heap)
      → mask ≡ 0
      → Inserted key [] x leaf pp q h (attach x pp q h)
      → Inserted key [] x leaf pp q h (push_loop key (suc fuel) mask k x pp p q h)
  unfolding push_loop
  attach_step fuel mask k x q p pp h z done =
      rw (subst (λ m. (m == 0) ≡ true) (sym z) (==-self 0)) done

  insert-shift :
      (b : Bool) (bs : List Bool) (x a : Ptr) (l r : Tree)
      → ltb (key x) (key a) ≡ true
      → insert key (b ∷ bs) x (node a l r) ≡ shift (b ∷ bs) x (node a l r)
  unfolding insert
  insert-shift b bs x a l r lt = rw lt refl

  -- What the loop needs of the heap and the way.
  record Ready (fuel mask k v n : ℕ) (bs : List Bool) (x : Ptr) (t : Tree) (pp : Slot) (q p : Ptr)
      (h : Heap) : Type 0 where
    turns : Turns mask k bs
    enough : length bs + 1 < fuel
    below : 0 < v
    leads : goes_to v bs ≡ suc n
    shape : Shape v n t
    distinct : Distinct t
    new : count x t ≡ 0
    there : x ≢ null
    writable : usable pp ≡ true
    outside : owned pp (node x t leaf) ≡ 0
    top : h.at pp ≡ p
    linked : Linked h q p t

  shift_case :
      (fuel mask k v n : ℕ) (b : Bool) (bs : List Bool) (x a : Ptr) (l r : Tree) (pp : Slot)
      (q : Ptr) (h : Heap)
      → Ready (suc fuel) mask k v n (b ∷ bs) x (node a l r) pp q a h
      → ltb (key x) (key a) ≡ true
      → Inserted key (b ∷ bs) x (node a l r) pp q h (push_loop key (suc fuel) mask k x pp a q h)
  shift_case fuel mask k v n b bs x a l r pp q h c lt =
      let way =
        entered-Linked key x a l r h pp q c.there c.writable c.distinct c.new c.outside c.linked in
      make_way key x a l r h pp q c.there c.writable c.distinct c.new c.outside c.linked (b ∷ bs)
        mask k fuel (ne→==false mask 0 c.turns.0) lt (insert-shift b bs x a l r lt)
        (displace_loop-Shifted fuel mask k v n (b ∷ bs) x a (node a l r)
          (entered key x a l r h pp q c.there c.writable c.distinct c.new c.outside c.linked)
          c.turns (omega (arith, c.enough)) c.below c.leads c.shape c.distinct c.new c.there way
          (λ e. absurd (omega (arith, ap length e))))

  -- The loop inserts the node.
  push_loop-Inserted :
      (fuel mask k v n : ℕ) (bs : List Bool) (x : Ptr) (t : Tree) (pp : Slot) (q p : Ptr) (h : Heap)
      → Ready fuel mask k v n bs x t pp q p h
      → Inserted key bs x t pp q h (push_loop key fuel mask k x pp p q h)
  push_loop-Inserted zero mask k v n bs x t pp q p h c = absurd (omega (arith, c.enough))
  push_loop-Inserted (suc fuel) mask k v n [] x leaf pp q p h c =
      attach_step fuel mask k x q p pp h c.turns
        (attach-Inserted key x q pp h c.there c.writable c.outside)
  push_loop-Inserted (suc fuel) mask k v n [] x (node a l r) pp q p h c =
      absurd (no_turns v n c.shape.0 c.leads)
  push_loop-Inserted (suc fuel) mask k v n (b ∷ bs) x leaf pp q p h c =
      absurd (too_far v n b bs c.shape c.leads)
  push_loop-Inserted (suc fuel) mask k v n (true ∷ bs) x (node a l r) pp q p h c =
      let c' =
        subst (λ y. Ready (suc fuel) mask k v n (true ∷ bs) x (node a l r) pp q y h) c.linked.0 c in
      subst
        (λ y.
          Inserted key (true ∷ bs) x (node a l r) pp q h
            (push_loop key (suc fuel) mask k x pp y q h))
        (sym c.linked.0)
        (elim (Bool-cases (ltb (key x) (key a))) [
          | inl lt ↦ shift_case fuel mask k v n true bs x a l r pp q h c' lt
          | inr ge ↦
              down_right key x a l r h pp q c.there c.writable c.distinct c.new c.outside c'.linked
                bs mask k fuel c'.top (ne→==false mask 0 c.turns.0) c.turns.1 ge
                (push_loop-Inserted fuel (mask / 2) k (2 * v + 1) n bs x r (of_right a) a
                  (h.at (of_right a)) h
                  record {
                    turns = c.turns.2;
                    enough = omega (arith, c.enough);
                    below = omega (arith, c.below);
                    leads = c.leads;
                    shape = c.shape.2;
                    distinct = Distinct-right a l r c.distinct;
                    new = omega (arith, c.new);
                    there = c.there;
                    writable = rw (ne→==false a null c.linked.1);
                    outside = omega (
                      arith,
                      root-right a l r c.distinct,
                      ap one_if (
                          ne→==false a x
                            (λ e. ne_of_count x a (node a l r) c.new (count_self a l r) (sym e))),
                    );
                    top = refl;
                    linked = c.linked.4;
                  })
        ])
  push_loop-Inserted (suc fuel) mask k v n (false ∷ bs) x (node a l r) pp q p h c =
      let c' =
        subst (λ y. Ready (suc fuel) mask k v n (false ∷ bs) x (node a l r) pp q y h) c.linked.0
          c in
      subst
        (λ y.
          Inserted key (false ∷ bs) x (node a l r) pp q h
            (push_loop key (suc fuel) mask k x pp y q h))
        (sym c.linked.0)
        (elim (Bool-cases (ltb (key x) (key a))) [
          | inl lt ↦ shift_case fuel mask k v n false bs x a l r pp q h c' lt
          | inr ge ↦
              down_left key x a l r h pp q c.there c.writable c.distinct c.new c.outside c'.linked
                bs mask k fuel c'.top (ne→==false mask 0 c.turns.0) c.turns.1 ge
                (push_loop-Inserted fuel (mask / 2) k (2 * v + 0) n bs x l (of_left a) a
                  (h.at (of_left a)) h
                  record {
                    turns = c.turns.2;
                    enough = omega (arith, c.enough);
                    below = omega (arith, c.below);
                    leads = c.leads;
                    shape = c.shape.1;
                    distinct = Distinct-left a l r c.distinct;
                    new = omega (arith, c.new);
                    there = c.there;
                    writable = rw (ne→==false a null c.linked.1);
                    outside = omega (
                      arith,
                      root-left a l r c.distinct,
                      ap one_if (
                          ne→==false a x
                            (λ e. ne_of_count x a (node a l r) c.new (count_self a l r) (sym e))),
                    );
                    top = refl;
                    linked = c.linked.3;
                  })
        ])

  -- A heap: a tree in the links, of the shape and the order of a heap.
  pub record IsHeap (h : Heap) (n : ℕ) (t : Tree) : Type 0 where
    pub linked : Linked h null (h.at of_root) t
    pub shape : Shape 1 n t
    pub order : Ordered key 0 t
    pub distinct : Distinct t
    pub size : h.size ≡ n

  -- On a heap of n nodes, with n + 2 < 2 ^ 64, `_M_push` of a node that is not null and not in the
  -- heap does not fault, and gives the links of a heap of n + 1 nodes: the tree that `insert` gives on
  -- the way to the first free position, which holds the new node and otherwise what the heap held.
  pub push-insert :
      (h : Heap) (n : ℕ) (t : Tree) (x : Ptr)
      → IsHeap h n t
      → n + 2 < 2 ^ 64
      → x ≢ null
      → count x t ≡ 0
      → (g : Heap) × (push key x h ≡ some (tt, g))
        × IsHeap g (n + 1) (insert key (way (n + 1)) x t)
        × ((b : Ptr) → count b (insert key (way (n + 1)) x t) ≡ one_if (b == x) + count b t)
  unfolding push
  push-insert h n t x heap room nx new =
      let h' : Heap = record h { size = n + 1 } in
      let to_here : goes_to 1 (way (n + 1)) ≡ n + 1 =
        goes_to-way (n + 1) (omega arith) (omega arith) in
      let to_next : goes_to 1 (way (n + 1)) ≡ suc n = omega (arith, to_here) in
      let adds = λ (b : Ptr). count-insert key 1 n b (way (n + 1)) x t heap.shape to_next in
      let (g, run, linked, keeps) =
        push_loop-Inserted 130 (path_bit_mask (n + 1)) (n + 1) 1 n (way (n + 1)) x t of_root null
          (h.at of_root) h'
          record {
            turns = way-Turns (n + 1) (omega arith) (omega arith);
            enough = omega (arith, length-way (n + 1) (omega arith) (omega arith));
            below = omega arith;
            leads = to_next;
            shape = heap.shape;
            distinct = heap.distinct;
            new = new;
            there = nx;
            writable = refl;
            outside = refl;
            top = refl;
            linked =
                Linked-frame h h' null (h.at of_root) t
                  (λ a i. record { left = refl; right = refl }) (λ a i. refl) heap.linked;
          } in
      let next : add64 h.size 1 ≡ n + 1 =
        ap (λ m. add64 m 1) heap.size ∙ mod-eq_of_lt (omega arith) in
      let done : push key x h ≡ some (tt, g) = rw next run in
      (
        g,
        done,
        record {
          linked = linked;
          shape =
              subst (λ m. Shape 1 m (insert key (way (n + 1)) x t)) (omega arith)
                (insert-Shape key 1 n (way (n + 1)) x t (omega arith) heap.shape to_next);
          order = insert-Ordered key 0 (way (n + 1)) x t (omega arith) heap.order;
          distinct = λ b. subst (λ c. c ≤ 1) (sym (adds b)) (once b);
          size = keeps.size;
        },
        adds,
      )
    where
      once : (b : Ptr) → one_if (b == x) + count b t ≤ 1
      once b = elim (Bool-cases (b == x)) [
        | inl e ↦
            omega (arith, ap one_if e, new, subst (λ c. count c t ≡ 0) (sym ((==_iff b x).0 e)) new)
        | inr ne ↦ omega (arith, ap one_if ne, heap.distinct b)
      ]
