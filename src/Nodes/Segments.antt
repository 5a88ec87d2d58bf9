-- ===== src/Nodes/Segments.antt =====
-- A list in the heap, and a part of one.
use osnt_plus.Prelude.{
  ℕ, ◌≡◌, ◌≢◌, refl, ◌∙◌, Bool, true, ◌||◌, Option, none, some, List, [], ◌∷◌, ◌++◌, ◌==◌, ==_refl,
  ==_false, arith, has,
}
use osnt_plus.Nodes.{Node, Heap, store, free}

-- A node's address and its data
pub record Item : Type 0 where
  pub at : ℕ
  pub value : ℕ

abbrev pub addresses : List Item → List ℕ
addresses [] = []
addresses (i ∷ n) = i.at ∷ addresses n

-- The nodes from `cur` on, behind `p`, are those of the items; the last is `q` and its next is `e`.
abbrev pub Segment : Heap → Option ℕ → Option ℕ → List Item → Option ℕ → Option ℕ → Type 0
Segment h p cur [] q e = (cur ≡ e) × (p ≡ q)
Segment h p cur (i ∷ n) q e =
    (cur ≡ some i.at)
    × (next : Option ℕ) × (h i.at ≡ some (record { prev = p; next = next; data_of = i.value }))
    × Segment h (some i.at) next n q e

-- The list that `head` points to.
abbrev pub Listed : Heap → Option ℕ → List Item → Type 0
Listed h head items = (q : Option ℕ) × Segment h none head items q none

pub store_self : (h : Heap) (a : ℕ) (v : Node) → store h a v a ≡ some v
unfolding store
store_self h a v = rw (==_refl a) refl

pub store_other : (h : Heap) (a b : ℕ) (v : Node) → b ≢ a → store h a v b ≡ h b
unfolding store
store_other h a b v other = rw (==_false b a other) refl

pub free_other : (h : Heap) (a b : ℕ) → b ≢ a → free h a b ≡ h b
unfolding free
free_other h a b other = rw (==_false b a other) refl

-- Heaps that agree on the items' addresses.
pub Segment-agree :
    (h h' : Heap) (p cur : Option ℕ) (items : List Item) (q e : Option ℕ)
    → ((b : ℕ) → has b (addresses items) ≡ true → h' b ≡ h b)
    → Segment h p cur items q e
    → Segment h' p cur items q e
Segment-agree h h' p cur [] q e same s = s
Segment-agree h h' p cur (i ∷ n) q e same (here, next, cell, rest) = (
  here,
  next,
  same i.at (rw (==_refl i.at) refl) ∙ cell,
  Segment-agree h h' (some i.at) next n q e (λ b later. same b (right (i.at == b) later)) rest,
)
  where
    right : (b : Bool) {c : Bool} → c ≡ true → (b || c) ≡ true
    right b later = ground arith

pub Segment-append :
    (h : Heap) (p cur : Option ℕ) (a b : List Item) (m c q e : Option ℕ)
    → Segment h p cur a m c
    → Segment h m c b q e
    → Segment h p cur (a ++ b) q e
Segment-append h p cur [] b m c q e (ec, em) t = rw (ec, em) t
Segment-append h p cur (i ∷ a) b m c q e (here, next, cell, rest) t =
    (here, next, cell, Segment-append h (some i.at) next a b m c q e rest t)

pub Segment-split :
    (h : Heap) (p cur : Option ℕ) (a b : List Item) (q e : Option ℕ)
    → Segment h p cur (a ++ b) q e
    → (m c : Option ℕ) × Segment h p cur a m c × Segment h m c b q e
Segment-split h p cur [] b q e s = (p, cur, (refl, refl), s)
Segment-split h p cur (i ∷ a) b q e (here, next, cell, rest) =
    let (m, c, s, t) = Segment-split h (some i.at) next a b q e rest in
    (m, c, (here, next, cell, s), t)
