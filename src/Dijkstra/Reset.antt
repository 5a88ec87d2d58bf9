-- ===== src/Dijkstra/Reset.antt =====
-- The list that the loop starts from: the graph is as before, our router is at 0, and every other
-- router is open and infinitely far.
use osnt_plus.Prelude.{
  ℕ, zero, suc, ◌+◌, ◌≡◌, ◌≢◌, refl, sym, ap, ◌∙◌, inl, inr, true, false, some, List, [], ◌∷◌,
  arith, get_elem?, Bool-cases, some_eq, some≢none, ◌==◌, ==_iff,
}
use osnt_plus.State.{PwospfRouter}
use osnt_plus.Dijkstra.{infinity, reset, reset_all, get_router_by_rid}
use osnt_plus.Dijkstra.Nearest.{is_open}
use osnt_plus.Dijkstra.Relaxation.{SameGraph}

-- Where `reset` leads.
module _ (our : ℕ) where
  reset_ids : (r : PwospfRouter) → (reset our r).router_id ≡ r.router_id
  unfolding reset
  reset_ids r = ground arith

  reset_interfaces : (r : PwospfRouter) → (reset our r).interface_list ≡ r.interface_list
  unfolding reset
  reset_interfaces r = ground arith

  pub reset_ours :
      (r : PwospfRouter)
      → r.router_id ≡ our
      → (is_open (reset our r) ≡ false) × ((reset our r).distance ≡ 0)
  unfolding reset
  reset_ours r h = ground arith

  pub reset_others :
      (r : PwospfRouter)
      → r.router_id ≢ our
      → r.router_id ≢ 0
      → (is_open (reset our r) ≡ true) × ((reset our r).distance ≡ infinity)
  unfolding reset
  reset_others r h k = ground arith

  pub get_elem?-reset_all :
      (n : List PwospfRouter) (k : ℕ) (r : PwospfRouter)
      → get_elem? n k ≡ some r
      → get_elem? (reset_all our n) k ≡ some (reset our r)
  unfolding reset_all
  get_elem?-reset_all [] k r h = absurd (some≢none h)
  get_elem?-reset_all (x ∷ n) zero r h = ap (λ (y : PwospfRouter). some (reset our y)) (some_eq h)
  get_elem?-reset_all (x ∷ n) (suc k) r h = get_elem?-reset_all n k r h

  pub before_reset :
      (n : List PwospfRouter) (k : ℕ) (r : PwospfRouter)
      → get_elem? (reset_all our n) k ≡ some r
      → (r0 : PwospfRouter) × (get_elem? n k ≡ some r0) × (reset our r0 ≡ r)
  unfolding reset_all
  before_reset [] k r h = absurd (some≢none h)
  before_reset (x ∷ n) zero r h = (x, refl, some_eq h)
  before_reset (x ∷ n) (suc k) r h = before_reset n k r h

  pub get_router_by_rid-reset_all :
      (rid : ℕ) (n : List PwospfRouter) (j : ℕ)
      → get_router_by_rid rid (reset_all our n) j ≡ get_router_by_rid rid n j
  unfolding get_router_by_rid reset_all
  get_router_by_rid-reset_all rid [] j = refl
  get_router_by_rid-reset_all rid (x ∷ n) j =
      rw (reset_ids x, get_router_by_rid-reset_all rid n (j + 1)) refl

  pub reset_graph : (n : List PwospfRouter) → SameGraph n (reset_all our n)
  reset_graph n = record {
    ids = λ rid j. get_router_by_rid-reset_all rid n j;
    forth = λ k r h. (reset our r, get_elem?-reset_all n k r h, reset_interfaces r);
    back = λ k r h.
        let (r0, h0, e) = before_reset n k r h in
        (r0, h0, sym (reset_interfaces r0) ∙ ap (λ (x : PwospfRouter). x.interface_list) e);
  }

pub found_router :
    (rid : ℕ) (n : List PwospfRouter) (j k : ℕ)
    → get_router_by_rid rid n j ≡ some k
    → (m : ℕ) × (k ≡ j + m) × (r : PwospfRouter) × (get_elem? n m ≡ some r) × (r.router_id ≡ rid)
unfolding get_router_by_rid
found_router rid [] j k h = absurd (some≢none h)
found_router rid (x ∷ n) j k h = elim (Bool-cases (x.router_id == rid)) [
  | inl mine ↦
      let e = some_eq (rw (mine, get_router_by_rid) at h) in
      (0, omega arith, x, refl, (==_iff x.router_id rid).0 mine)
  | inr other ↦
      let (m, e, r, g, i) = found_router rid n (j + 1) k (rw (other, get_router_by_rid) at h) in
      (suc m, omega arith, r, g, i)
]
