-- ===== src/Nodes/Writes.antt =====
-- The two ends of a part of a list are changed.
use osnt_plus.Prelude.{
  ℕ, suc, ◌+◌, ◌≤◌, ◌≡◌, ◌≢◌, refl, sym, ap, ◌∙◌, true, false, Option, none, some, List, [], ◌∷◌,
  ◌++◌, ◌==◌, ==_iff, ==_refl, ==_false, arith, Bool-cases, inl, inr, has, distinct, has-append,
  length, zero,
}
use osnt_plus.Nodes.{Node, Heap, store, set_next, set_prev, last_node, node_length}
use osnt_plus.Nodes.Segments.{Item, addresses, Segment, store_self, store_other, Segment-agree}

pub has_ne : (x b : ℕ) (l : List ℕ) → has x l ≡ false → has b l ≡ true → b ≢ x
has_ne x b l h k e = clash (sym h ∙ ap (λ (y : ℕ). has y l) (sym e) ∙ k)
  where
    clash : false ≡ true → ⊥
    clash p = cc

-- What a list with distinct addresses says of its parts.
pub record Parts (xs : List ℕ) (y : ℕ) (ys : List ℕ) : Type 0 where
  pub first : distinct xs ≡ true
  pub second : distinct ys ≡ true
  pub not_first : has y xs ≡ false
  pub not_second : has y ys ≡ false
  pub apart : (b : ℕ) → has b xs ≡ true → has b ys ≡ false

pub parts : (xs : List ℕ) (y : ℕ) (ys : List ℕ) → distinct (xs ++ y ∷ ys) ≡ true → Parts xs y ys
parts [] y ys h = record {
  first = refl;
  second = ground arith;
  not_first = refl;
  not_second = ground arith;
  apart = λ b k. ground arith;
}
parts (x ∷ xs) y ys h =
    let rest = parts xs y ys (ground arith) in
    let spread = has-append x xs (y ∷ ys) in
    record {
      first = ground (arith, spread, rest.first);
      second = rest.second;
      not_first = ground (arith, spread, rest.not_first);
      not_second = rest.not_second;
      apart = λ b k. elim (Bool-cases (x == b)) [
        | inl here ↦ rw (sym ((==_iff x b).0 here)) (ground (arith, spread))
        | inr other ↦ rest.apart b (rw other at k)
      ];
    }

-- The next pointer of the last node changes.
pub record NextSet (h : Heap) (p cur : Option ℕ) (items : List Item) (q e : Option ℕ) : Type 0 where
  pub last : ℕ
  pub is_last : q ≡ some last
  pub among : has last (addresses items) ≡ true
  pub heap : Heap
  pub runs : set_next h last e ≡ some heap
  pub segment : Segment heap p cur items q e
  pub others : (b : ℕ) → b ≢ last → heap b ≡ h b

pub set_next_last :
    (h : Heap) (p cur : Option ℕ) (i : Item) (n : List Item) (q e e' : Option ℕ)
    → distinct (addresses (i ∷ n)) ≡ true
    → Segment h p cur (i ∷ n) q e
    → NextSet h p cur (i ∷ n) q e'
unfolding set_next
set_next_last h p cur i [] q e e' once (here, next, cell, (_, end)) =
    let v : Node = record { prev = p; next = e'; data_of = i.value } in
    record {
      last = i.at;
      is_last = sym end;
      among = rw (==_refl i.at) refl;
      heap = store h i.at v;
      runs = rw (set_next, cell) refl;
      segment = (here, e', store_self h i.at v, (refl, end));
      others = λ b other. store_other h i.at b v other;
    }
set_next_last h p cur i (j ∷ n) q e e' once (here, next, cell, rest) =
    let r = set_next_last h (some i.at) next j n q e e' (ground arith) rest in
    let new = has_ne i.at r.last (addresses (j ∷ n)) (ground arith) r.among in
    record {
      last = r.last;
      is_last = r.is_last;
      among = rw (==_false i.at r.last (λ same. new (sym same))) r.among;
      heap = r.heap;
      runs = r.runs;
      segment = (here, next, r.others i.at (λ same. new (sym same)) ∙ cell, r.segment);
      others = r.others;
    }

-- The previous pointer of the first node changes.
pub record PrevSet (h : Heap) (p cur : Option ℕ) (i : Item) (n : List Item) (q e : Option ℕ)
    : Type 0 where
  pub heap : Heap
  pub runs : set_prev h i.at p ≡ some heap
  pub segment : Segment heap p cur (i ∷ n) q e
  pub others : (b : ℕ) → b ≢ i.at → heap b ≡ h b

pub set_prev_first :
    (h : Heap) (p p' cur : Option ℕ) (i : Item) (n : List Item) (q e : Option ℕ)
    → distinct (addresses (i ∷ n)) ≡ true
    → Segment h p cur (i ∷ n) q e
    → PrevSet h p' cur i n q e
unfolding set_prev
set_prev_first h p p' cur i n q e once (here, next, cell, rest) =
    let v : Node = record { prev = p'; next = next; data_of = i.value } in
    record {
      heap = store h i.at v;
      runs = rw (set_prev, cell) refl;
      segment = (
        here,
        next,
        store_self h i.at v,
        Segment-agree h (store h i.at v) (some i.at) next n q e
            (λ b k. store_other h i.at b v (has_ne i.at b (addresses n) (ground arith) k)) rest,
      );
      others = λ b other. store_other h i.at b v other;
    }

-- The loops, with fuel for each node.
pub last_node_lem :
    (fuel : ℕ) (h : Heap) (p : Option ℕ) (i : Item) (n : List Item) (q : Option ℕ)
    → length (i ∷ n) ≤ fuel
    → Segment h p (some i.at) (i ∷ n) q none
    → last_node fuel h i.at ≡ q
unfolding last_node
last_node_lem zero h p i n q enough s = absurd (omega arith)
last_node_lem (suc fuel) h p i [] q enough (here, next, cell, (end, last)) =
    rw (last_node, cell, end) last
last_node_lem (suc fuel) h p i (j ∷ n) q enough (here, next, cell, (at, next', cell', rest)) =
    rw (last_node, cell, at)
      (last_node_lem fuel h (some i.at) j n q (omega arith) (refl, next', cell', rest))

pub node_length_lem :
    (fuel : ℕ) (h : Heap) (p cur : Option ℕ) (items : List Item) (q : Option ℕ) (len : ℕ)
    → length items ≤ fuel
    → Segment h p cur items q none
    → node_length fuel h cur len ≡ some (len + length items)
unfolding node_length
node_length_lem fuel h p cur [] q len enough (end, last) =
    rw (end, node_length) (ap some {x = len} {y = len + 0} (omega arith))
node_length_lem zero h p cur (i ∷ n) q len enough s = absurd (omega arith)
node_length_lem (suc fuel) h p cur (i ∷ n) q len enough (here, next, cell, rest) =
    rw (here, node_length, cell)
      (node_length_lem fuel h (some i.at) next n q (len + 1) (omega arith) rest
        ∙ ap some {x = len + 1 + length n} {y = len + suc (length n)} (omega arith))
