-- ===== src/Nodes/Ops.antt =====
-- The operations on a list in the heap are those on the list of its nodes.
use mathlib.Core.Path.{subst}
use osnt_plus.Prelude.{
  ℕ, ◌≤◌, ◌≡◌, ◌≢◌, refl, sym, ap, ◌∙◌, true, false, Option, none, some, List, [], ◌∷◌, ◌++◌,
  ==_refl, arith, has, distinct, has-append, length,
}
use osnt_plus.Nodes.{Node, Heap, store, free, set_prev, node_push_back, node_remove}
use osnt_plus.Nodes.Segments.{
  Item, addresses, Segment, Listed, store_self, store_other, free_other, Segment-agree,
  Segment-append, Segment-split,
}
use osnt_plus.Nodes.Writes.{has_ne, Parts, parts, set_next_last, set_prev_first, last_node_lem}

addresses-append : (a b : List Item) → addresses (a ++ b) ≡ addresses a ++ addresses b
addresses-append [] b = refl
addresses-append (i ∷ a) b = ap (λ (l : List ℕ). i.at ∷ l) (addresses-append a b)

-- What `node_remove` leaves of the heap, with the new head.
pub record Removed (h : Heap) (head : Option ℕ) (a : List Item) (i : Item) (b : List Item)
    : Type 0 where
  pub heap : Heap
  pub new_head : Option ℕ
  pub runs : node_remove h head i.at ≡ some (heap, new_head)
  pub listed : Listed heap new_head (a ++ b)
  pub gone : heap i.at ≡ none
  pub others : (x : ℕ) → has x (addresses (a ++ i ∷ b)) ≡ false → heap x ≡ h x

free_self : (h : Heap) (a : ℕ) → free h a a ≡ none
unfolding free
free_self h a = rw (==_refl a) refl

-- What is left after the node is freed.
Segment-free :
    (h : Heap) (p cur : Option ℕ) (items : List Item) (q e : Option ℕ) (a : ℕ)
    → has a (addresses items) ≡ false
    → Segment h p cur items q e
    → Segment (free h a) p cur items q e
Segment-free h p cur items q e a out s =
    Segment-agree h (free h a) p cur items q e
      (λ b k. free_other h a b (has_ne a b (addresses items) out k)) s

-- An address that no node of the list has.
outside :
    (x : ℕ) (a : List Item) (i : Item) (b : List Item)
    → has x (addresses (a ++ i ∷ b)) ≡ false
    → (has x (addresses a) ≡ false) × (x ≢ i.at) × (has x (addresses b) ≡ false)
outside x a i b h =
    let spread = ap (has x) (sym (addresses-append a (i ∷ b))) ∙ h in
    let both = sym (has-append x (addresses a) (addresses (i ∷ b))) ∙ spread in
    (ground (arith, both), λ e. ground (arith, both, e), ground (arith, both))

module _ (h : Heap) (head : Option ℕ) (i : Item) where
  remove_only :
      (b : List Item) (m next q : Option ℕ)
      → Parts [] i.at (addresses [])
      → Segment h none head [] m (some i.at)
      → h i.at ≡ some (record { prev = m; next = next; data_of = i.value })
      → Segment h (some i.at) next [] q none
      → Removed h head [] i []
  unfolding node_remove
  remove_only b m next q d (_, front) cell (back, _) = record {
    heap = free h i.at;
    new_head = none;
    runs = rw (node_remove, cell, back, sym front) refl;
    listed = (none, (refl, refl));
    gone = free_self h i.at;
    others = λ x out. free_other h i.at x (outside x [] i [] out).1;
  }

  remove_front :
      (j : Item) (n : List Item) (m next q : Option ℕ)
      → Parts [] i.at (addresses (j ∷ n))
      → Segment h none head [] m (some i.at)
      → h i.at ≡ some (record { prev = m; next = next; data_of = i.value })
      → Segment h (some i.at) next (j ∷ n) q none
      → Removed h head [] i (j ∷ n)
  unfolding node_remove
  remove_front j n m next q d (_, front) cell t =
      let w = set_prev_first h (some i.at) none next j n q none d.second t in
      record {
        heap = free w.heap i.at;
        new_head = some j.at;
        runs = rw (node_remove, cell, t.0, sym front, w.runs) refl;
        listed = (
          q,
          Segment-free w.heap none (some j.at) (j ∷ n) q none i.at d.not_second
              (refl, w.segment.1, w.segment.2, w.segment.3),
        );
        gone = free_self w.heap i.at;
        others = λ x out.
            let (_, not_i, not_b) = outside x [] i (j ∷ n) out in
            free_other w.heap i.at x not_i
            ∙ w.others x
                (λ e. has_ne x j.at (addresses (j ∷ n)) not_b (rw (==_refl j.at) refl) (sym e));
      }

  remove_back :
      (k : Item) (a : List Item) (m next q : Option ℕ)
      → Parts (addresses (k ∷ a)) i.at (addresses [])
      → Segment h none head (k ∷ a) m (some i.at)
      → h i.at ≡ some (record { prev = m; next = next; data_of = i.value })
      → Segment h (some i.at) next [] q none
      → Removed h head (k ∷ a) i []
  unfolding node_remove
  remove_back k a m next q d s cell (back, _) =
      let w = set_next_last h none head k a m (some i.at) none d.first s in
      record {
        heap = free w.heap i.at;
        new_head = head;
        runs = rw (node_remove, cell, back, w.is_last, w.runs) refl;
        listed = (
          m,
          Segment-append (free w.heap i.at) none head (k ∷ a) [] m none m none
              (Segment-free w.heap none head (k ∷ a) m none i.at d.not_first w.segment)
              (refl, refl),
        );
        gone = free_self w.heap i.at;
        others = λ x out.
            let (not_a, not_i, _) = outside x (k ∷ a) i [] out in
            free_other w.heap i.at x not_i
            ∙ w.others x (λ e. has_ne x w.last (addresses (k ∷ a)) not_a w.among (sym e));
      }

  remove_middle :
      (k : Item) (a : List Item) (j : Item) (n : List Item) (m next q : Option ℕ)
      → Parts (addresses (k ∷ a)) i.at (addresses (j ∷ n))
      → Segment h none head (k ∷ a) m (some i.at)
      → h i.at ≡ some (record { prev = m; next = next; data_of = i.value })
      → Segment h (some i.at) next (j ∷ n) q none
      → Removed h head (k ∷ a) i (j ∷ n)
  unfolding node_remove
  remove_middle k a j n m next q d s cell t =
      let w = set_next_last h none head k a m (some i.at) (some j.at) d.first s in
      let t' =
        Segment-agree h w.heap (some i.at) next (j ∷ n) q none
          (λ b later.
            w.others b (has_ne w.last b (addresses (j ∷ n)) (d.apart w.last w.among) later))
          t in
      let v = set_prev_first w.heap (some i.at) (some w.last) next j n q none d.second t' in
      let s' =
        subst (λ (o : Option ℕ). Segment w.heap none head (k ∷ a) o (some j.at)) w.is_last
          w.segment in
      record {
        heap = free v.heap i.at;
        new_head = head;
        runs = rw (node_remove, cell, t.0, w.is_last, w.runs, v.runs) refl;
        listed = (
          q,
          Segment-append (free v.heap i.at) none head (k ∷ a) (j ∷ n) (some w.last) (some j.at) q
              none
              (Segment-free v.heap none head (k ∷ a) (some w.last) (some j.at) i.at d.not_first (
                Segment-agree w.heap v.heap none head (k ∷ a) (some w.last) (some j.at)
                  (λ b early. v.others b (λ e.
                    has_ne b j.at (addresses (j ∷ n)) (d.apart b early) (rw (==_refl j.at) refl)
                      (sym e)))
                  s'))
              (Segment-free v.heap (some w.last) (some j.at) (j ∷ n) q none i.at d.not_second
                (refl, v.segment.1, v.segment.2, v.segment.3)),
        );
        gone = free_self v.heap i.at;
        others = λ x out.
            let (not_a, not_i, not_b) = outside x (k ∷ a) i (j ∷ n) out in
            free_other v.heap i.at x not_i
            ∙ v.others x
                (λ e. has_ne x j.at (addresses (j ∷ n)) not_b (rw (==_refl j.at) refl) (sym e))
            ∙ w.others x (λ e. has_ne x w.last (addresses (k ∷ a)) not_a w.among (sym e));
      }

removed :
    (h : Heap) (head : Option ℕ) (k : List Item) (i : Item) (n : List Item) (m next q : Option ℕ)
    → Parts (addresses k) i.at (addresses n)
    → Segment h none head k m (some i.at)
    → h i.at ≡ some (record { prev = m; next = next; data_of = i.value })
    → Segment h (some i.at) next n q none
    → Removed h head k i n
removed h head [] i [] m next q d s cell t = remove_only h head i [] m next q d s cell t
removed h head [] i (j ∷ n) m next q d s cell t = remove_front h head i j n m next q d s cell t
removed h head (k ∷ l) i [] m next q d s cell t = remove_back h head i k l m next q d s cell t
removed h head (k ∷ l) i (j ∷ n) m next q d s cell t =
    remove_middle h head i k l j n m next q d s cell t

pub node_remove_total :
    (h : Heap) (head : Option ℕ) (a : List Item) (i : Item) (b : List Item)
    → Listed h head (a ++ i ∷ b)
    → distinct (addresses (a ++ i ∷ b)) ≡ true
    → Removed h head a i b
node_remove_total h head a i b (q, s) once =
    let (m, c, before, (here, next, cell, after)) = Segment-split h none head a (i ∷ b) q none s in
    let d =
      parts (addresses a) i.at (addresses b)
        (ap distinct (sym (addresses-append a (i ∷ b))) ∙ once) in
    removed h head a i b m next q d
      (subst (λ (o : Option ℕ). Segment h none head a m o) here before) cell after

-- On a doubly linked list whose nodes have different addresses, `node_remove` of one of them
-- succeeds, with a new head that points to the list without that node; the node is freed, and what
-- stands at an address outside the list is not touched.
pub node_remove_lem :
    (h : Heap) (head : Option ℕ) (a : List Item) (i : Item) (b : List Item) (x : ℕ)
    → Listed h head (a ++ i ∷ b)
    → distinct (addresses (a ++ i ∷ b)) ≡ true
    → has x (addresses (a ++ i ∷ b)) ≡ false
    → (h' : Heap) × (head' : Option ℕ) × (node_remove h head i.at ≡ some (h', head'))
      × Listed h' head' (a ++ b)
      × (h' i.at ≡ none)
      × (h' x ≡ h x)
node_remove_lem h head a i b x listed once out =
    let r = node_remove_total h head a i b listed once in
    (r.heap, r.new_head, r.runs, r.listed, r.gone, r.others x out)

-- With fuel for each node of a list that is not empty, `node_push_back` of a new node, whose
-- pointers are null and whose address no node of the list has, succeeds and leaves the list with
-- the node at its end, behind the same head; what stands at an address outside the list is not
-- touched.
pub node_push_back_lem :
    (fuel : ℕ) (h : Heap) (i : Item) (l : List Item) (n : Item) (x : ℕ)
    → Listed h (some i.at) (i ∷ l)
    → distinct (addresses (i ∷ l ++ n ∷ [])) ≡ true
    → h n.at ≡ some (record { prev = none; next = none; data_of = n.value })
    → length (i ∷ l) ≤ fuel
    → has x (addresses (i ∷ l ++ n ∷ [])) ≡ false
    → (h' : Heap) × (node_push_back fuel h i.at n.at ≡ some h')
      × Listed h' (some i.at) (i ∷ l ++ n ∷ [])
      × (h' x ≡ h x)
unfolding node_push_back set_prev
node_push_back_lem fuel h i l n x (q, s) once fresh enough out =
    let d =
      parts (addresses (i ∷ l)) n.at []
        (ap distinct (sym (addresses-append (i ∷ l) (n ∷ []))) ∙ once) in
    let w = set_next_last h none (some i.at) i l q none (some n.at) d.first s in
    let before =
      subst (λ (o : Option ℕ). Segment w.heap none (some i.at) (i ∷ l) o (some n.at)) w.is_last
        w.segment in
    let new = has_ne n.at w.last (addresses (i ∷ l)) d.not_first w.among in
    let v : Node = record { prev = some w.last; next = none; data_of = n.value } in
    let h' = store w.heap n.at v in
    let (not_l, not_n, _) = outside x (i ∷ l) n [] out in
    (
      h',
      rw
          (
            node_push_back,
            last_node_lem fuel h none i l q enough s ∙ w.is_last,
            w.runs,
            set_prev,
            w.others n.at (λ e. new (sym e)) ∙ fresh,
          )
          refl,
      (
        some n.at,
        Segment-append h' none (some i.at) (i ∷ l) (n ∷ []) (some w.last) (some n.at) (some n.at)
            none
            (Segment-agree w.heap h' none (some i.at) (i ∷ l) (some w.last) (some n.at)
              (λ b among.
                store_other w.heap n.at b v (has_ne n.at b (addresses (i ∷ l)) d.not_first among))
              before)
            (refl, none, store_self w.heap n.at v, (refl, refl)),
      ),
      store_other w.heap n.at x v not_n
          ∙ w.others x (λ e. has_ne x w.last (addresses (i ∷ l)) not_l w.among (sym e)),
    )
