-- ===== src/Dijkstra/Shortest.antt =====
-- The main theorem on `compute_rtable`'s loop: the distances are those of the shortest walks.
use osnt_plus.Prelude.{
  ℕ, zero, suc, ◌≤◌, ◌<◌, ◌≡◌, ◌≢◌, sym, ap, ◌∙◌, ◌⊎◌, inl, inr, Bool, true, false, some, List, [],
  ◌∷◌, arith, get_elem?, length, Bool-cases, some_eq, some≢none,
}
use osnt_plus.State.{PwospfRouter}
use osnt_plus.Dijkstra.{
  infinity, reset, reset_all, get_router_by_rid, get_shortest, settle, search_loop, shortest_paths,
}
use osnt_plus.Dijkstra.Nearest.{is_open, NoneNearer, get_shortest_lem}
use osnt_plus.Dijkstra.Paths.{shortest_paths_total}
use osnt_plus.Dijkstra.Relaxation.{Walk, start, step}
use osnt_plus.Dijkstra.Reset.{
  reset_ours, reset_others, get_elem?-reset_all, before_reset, get_router_by_rid-reset_all,
  reset_graph, found_router,
}
use osnt_plus.Dijkstra.Distances.{Sound, RelaxedFrom, Sound-after, relaxed_after}

clash : {b : Bool} → b ≡ false → b ≡ true → ⊥
clash e h = cc

NoneNearer-get :
    (d : ℕ) (n : List PwospfRouter) (k : ℕ) (b : PwospfRouter)
    → NoneNearer d n
    → get_elem? n k ≡ some b
    → is_open b ≡ true
    → d ≤ b.distance
NoneNearer-get d [] k b all h o = absurd (some≢none h)
NoneNearer-get d (x ∷ n) zero b all h o = rw (← some_eq h) (all.0 (ap is_open (some_eq h) ∙ o))
NoneNearer-get d (x ∷ n) (suc k) b all h o = NoneNearer-get d n k b all.1 h o

module _ (g : List PwospfRouter) (s : ℕ) where
  -- The invariant of the loop
  abbrev Good : List PwospfRouter → Type 0
  Good routers = Sound g s routers × ((u : ℕ) → RelaxedFrom g s routers u)

  settle-Good :
      (routers : List PwospfRouter) (w : ℕ) (r : PwospfRouter)
      → Sound g s routers
      → get_elem? routers w ≡ some r
      → r.distance < infinity
      → ((k : ℕ) (b : PwospfRouter)
          → get_elem? routers k ≡ some b
          → is_open b ≡ true
          → r.distance ≤ b.distance)
      → ((k : ℕ) (a : PwospfRouter)
          → get_elem? routers k ≡ some a
          → is_open a ≡ false
          → a.distance ≤ r.distance)
      → ((u : ℕ) → u ≢ w → RelaxedFrom g s routers u)
      → Good (settle w routers)
  unfolding settle
  settle-Good routers w r sound h lt nearest last relaxed =
      rw (h, settle)
        (
          Sound-after g s routers w r sound h lt nearest last relaxed,
          relaxed_after g s routers w r sound h lt nearest last relaxed,
        )

  search_loop-Good :
      (fuel : ℕ) (routers out : List PwospfRouter)
      → Good routers
      → search_loop fuel (get_shortest routers) routers ≡ some out
      → Good out
  unfolding search_loop
  search_loop-Good zero routers out good h = elim (get_shortest_lem routers) [
    | inl (e, _) ↦ rw (← some_eq (rw (e, search_loop) at h)) good
    | inr (k, e, f) ↦ absurd (some≢none (rw (e, search_loop) at h))
  ]
  search_loop-Good (suc fuel) routers out good h = elim (get_shortest_lem routers) [
    | inl (e, _) ↦ rw (← some_eq (rw (e, search_loop) at h)) good
    | inr (k, e, f) ↦
        search_loop-Good fuel (settle k routers) out
          (settle-Good routers k f.r good.0 f.held f.nearer
            (λ j b hb o. NoneNearer-get f.r.distance routers j b f.least hb o)
            (λ j a ha o. good.0.ordered j k a f.r ha f.held o f.unsettled) (λ u _. good.1 u))
          (rw (e, search_loop) at h)
  ]

  -- No walk is shorter than the distance.
  shortest :
      (out : List PwospfRouter)
      → Good out
      → NoneNearer infinity out
      → {k n : ℕ} → Walk g s k n
      → (r : PwospfRouter) → get_elem? out k ≡ some r
      → r.distance ≤ n
  shortest out good all start r h = omega (arith, (good.0.source r h).1)
  shortest out good all {k} (step {u} {v} {n} walk edge) r h =
      let (a, ha, _) = good.0.graph.forth u edge.r edge.held in
      let near = shortest out good all walk a ha in
      elim (Bool-cases (is_open a)) [
        | inl o ↦ omega (arith, good.0.bounded k r h, NoneNearer-get infinity out u a all ha o)
        | inr o ↦ omega (arith, good.1 u k a r ha o edge h)
      ]

-- Our router stands at one position only.
abbrev pub OneOurs : ℕ → ℕ → List PwospfRouter → Type 0
OneOurs our s routers =
    (j : ℕ) (r : PwospfRouter) → get_elem? routers j ≡ some r → r.router_id ≡ our → j ≡ s

-- Every router has an id.
abbrev pub AllNamed : List PwospfRouter → Type 0
AllNamed routers = (j : ℕ) (r : PwospfRouter) → get_elem? routers j ≡ some r → r.router_id ≢ 0

module _ (our s : ℕ) (routers : List PwospfRouter) (ours : get_router_by_rid our routers 0 ≡ some s)
    (one : OneOurs our s routers) (named : AllNamed routers) where
  abbrev first : List PwospfRouter
  first = reset_all our routers

  at_s : (x : PwospfRouter) × (get_elem? first s ≡ some x) × (is_open x ≡ false) × (x.distance ≡ 0)
  at_s =
      let (m, e, r, h, i) = found_router our routers 0 s ours in
      let same : s ≡ m = omega (arith, e) in
      let here = ap (λ (k : ℕ). get_elem? routers k) same ∙ h in
      let (o, z) = reset_ours our r i in
      (reset our r, get_elem?-reset_all our routers s r here, o, z)

  kinds :
      (k : ℕ) (r : PwospfRouter)
      → get_elem? first k ≡ some r
      → ((k ≡ s) × (is_open r ≡ false) × (r.distance ≡ 0))
        ⊎ ((is_open r ≡ true) × (r.distance ≡ infinity))
  kinds k r h =
      let (r0, h0, e) = before_reset our routers k r h in
      elim (same_id r0.router_id) [
        | inl mine ↦
            let (o, z) = reset_ours our r0 mine in
            inl (
              one k r0 h0 mine,
              sym (ap is_open e) ∙ o,
              sym (ap (λ (x : PwospfRouter). x.distance) e) ∙ z,
            )
        | inr other ↦
            let (o, z) = reset_others our r0 other (named k r0 h0) in
            inr (sym (ap is_open e) ∙ o, sym (ap (λ (x : PwospfRouter). x.distance) e) ∙ z)
      ]
    where
      same_id : (id : ℕ) → (id ≡ our) ⊎ (id ≢ our)
      same_id id = ground arith

  settled_zero :
      (k : ℕ) (a : PwospfRouter)
      → get_elem? first k ≡ some a
      → is_open a ≡ false
      → (k ≡ s) × (a.distance ≡ 0)
  settled_zero k a h o = elim (kinds k a h) [
    | inl (e, _, z) ↦ (e, z)
    | inr (o', _) ↦ absurd (clash o o')
  ]

  first-Sound : Sound routers s first
  first-Sound = record {
    graph = reset_graph our routers;
    walks = λ k r h lt. elim (kinds k r h) [
      | inl (e, _, z) ↦ rw (e, z) start
      | inr (_, z) ↦ absurd (omega arith)
    ];
    bounded =
        λ k r h. elim (kinds k r h) [ inl (_, _, z) ↦ omega arith | inr (_, z) ↦ omega arith ];
    source = λ r h.
        let (x, hx, o, z) = at_s in
        let e = some_eq (sym hx ∙ h) in
        (sym (ap is_open e) ∙ o, sym (ap (λ (y : PwospfRouter). y.distance) e) ∙ z);
    ordered = λ j k a b ha hb oa ob. omega (arith, (settled_zero j a ha oa).1);
  }

  first-Good : Good routers s (settle s first)
  first-Good =
      let (x, hx, o, z) = at_s in
      settle-Good routers s first s x first-Sound hx (omega arith) (λ k b hb ob. omega arith)
        (λ k a ha oa. omega (arith, (settled_zero k a ha oa).1))
        (λ u other v a b ha oa edge hb. absurd (other (settled_zero u a ha oa).0))

  infinite_or_reached :
      (out : List PwospfRouter)
      → Good routers s out
      → (k : ℕ) (r : PwospfRouter) → get_elem? out k ≡ some r
      → (r.distance ≡ infinity) ⊎ Walk routers s k r.distance
  infinite_or_reached out good k r h = elim (finite_or_not r.distance (good.0.bounded k r h)) [
    | inl e ↦ inl e
    | inr lt ↦ inr (good.0.walks k r h lt)
  ]
    where
      finite_or_not : (d : ℕ) → d ≤ infinity → (d ≡ infinity) ⊎ (d < infinity)
      finite_or_not d h = ground arith

  -- Where every router has an id and ours stands at position `s` only, the loop ends within one
  -- round for each router and one more, and then the distance of each router is infinite or the
  -- length of a walk from ours over active interfaces, and no walk from ours is shorter.
  pub shortest_paths_lem :
      (fuel : ℕ)
      → length routers < fuel
      → (out : List PwospfRouter) × (shortest_paths fuel our routers ≡ some out)
        × ((k : ℕ) (r : PwospfRouter)
            → get_elem? out k ≡ some r
            → ((r.distance ≡ infinity) ⊎ Walk routers s k r.distance)
              × ((n : ℕ) → Walk routers s k n → r.distance ≤ n))
  unfolding shortest_paths search_loop
  shortest_paths_lem zero h = absurd (omega arith)
  shortest_paths_lem (suc fuel) h =
      let e = get_router_by_rid-reset_all our our routers 0 ∙ ours in
      let (out, ended, all) = shortest_paths_total (suc fuel) our routers s h e in
      let good =
        search_loop-Good routers s fuel (settle s first) out first-Good
          (rw (e, search_loop) at ended) in
      (
        out,
        ended,
        λ k r hr. (
          infinite_or_reached out good k r hr,
          λ n walk. shortest routers s out good all walk r hr,
        ),
      )
