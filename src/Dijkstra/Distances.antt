-- ===== src/Dijkstra/Distances.antt =====
-- The distances that the loop leaves are the lengths of the shortest walks over active interfaces.
use osnt_plus.Prelude.{
  ℕ, suc, ◌+◌, ◌≤◌, ◌<◌, ◌≡◌, ◌≢◌, refl, sym, ap, ◌∙◌, ◌⊎◌, inl, inr, Bool, true, false, some, List,
  arith, get_elem?, set, Bool-cases, some_eq,
}
use osnt_plus.State.{PwospfRouter}
use osnt_plus.Dijkstra.{infinity, relax_all}
use osnt_plus.Dijkstra.Nearest.{is_open}
use osnt_plus.Dijkstra.Paths.{settled}
use osnt_plus.Dijkstra.Relaxation.{
  Edge, Walk, step, SameGraph, SameGraph-trans, SameGraph-set, get_elem?-set_same,
  get_elem?-set_other, same_position, Fate, Relaxed, Leads, relax_all-Relaxed,
}

-- `g` is the graph and `s` the position of our router.
module _ (g : List PwospfRouter) (s : ℕ) where
  pub record Sound (routers : List PwospfRouter) : Type 0 where
    pub graph : SameGraph g routers
    pub walks :
        (k : ℕ) (r : PwospfRouter)
        → get_elem? routers k ≡ some r
        → r.distance < infinity
        → Walk g s k r.distance
    pub bounded : (k : ℕ) (r : PwospfRouter) → get_elem? routers k ≡ some r → r.distance ≤ infinity
    pub source :
        (r : PwospfRouter) → get_elem? routers s ≡ some r → (is_open r ≡ false) × (r.distance ≡ 0)
    pub ordered :
        (j k : ℕ) (a b : PwospfRouter)
        → get_elem? routers j ≡ some a
        → get_elem? routers k ≡ some b
        → is_open a ≡ false
        → is_open b ≡ true
        → a.distance ≤ b.distance

  -- No edge out of `u`, if it is settled, leads further than one hop.
  abbrev pub RelaxedFrom : List PwospfRouter → ℕ → Type 0
  RelaxedFrom routers u =
      (v : ℕ) (a b : PwospfRouter)
      → get_elem? routers u ≡ some a
      → is_open a ≡ false
      → Edge g u v
      → get_elem? routers v ≡ some b
      → b.distance ≤ a.distance + 1

  -- The round that settles `r`, at position `w`.
  module _ (routers : List PwospfRouter) (w : ℕ) (r : PwospfRouter) (before : Sound routers)
      (at_w : get_elem? routers w ≡ some r) (finite : r.distance < infinity)
      (nearest : (k : ℕ) (b : PwospfRouter)
        → get_elem? routers k ≡ some b
        → is_open b ≡ true
        → r.distance ≤ b.distance)
      (last : (k : ℕ) (a : PwospfRouter)
        → get_elem? routers k ≡ some a
        → is_open a ≡ false
        → a.distance ≤ r.distance)
      (relaxed : (u : ℕ) → u ≢ w → RelaxedFrom routers u) where
    abbrev marked : List PwospfRouter
    marked = set routers w (settled r)

    abbrev after : List PwospfRouter
    after = relax_all r.router_id r.distance r.interface_list marked

    marked_graph : SameGraph g marked
    marked_graph =
        SameGraph-trans before.graph (SameGraph-set routers w r (settled r) at_w refl refl)

    interfaces_lead : Leads g r.router_id w r.distance finite r.interface_list
    interfaces_lead j i v h t =
        let (r0, h0, e) = before.graph.back w r at_w in
        record { r = r0; held = h0; j = j; i = i; interface = rw e h; leads = t }

    round : Relaxed g r.router_id w r.distance finite r.interface_list marked after
    round =
        relax_all-Relaxed g r.router_id w r.distance finite r.interface_list marked marked_graph
          interfaces_lead

    -- Where a router of the new list comes from.
    abbrev Origin : ℕ → PwospfRouter → Type 0
    Origin k x2 =
        ((k ≡ w) × (is_open x2 ≡ false) × (x2.distance ≡ r.distance))
        ⊎ ((x : PwospfRouter) × (k ≢ w)
            × (get_elem? routers k ≡ some x)
            × Fate g r.router_id w r.distance finite k x x2)

    origin : (k : ℕ) (x2 : PwospfRouter) → get_elem? after k ≡ some x2 → Origin k x2
    origin k x2 h =
        let (x1, h1, f) = round.fate k x2 h in
        elim (same_position k w) [
          | inl here ↦
              let same =
                some_eq (sym (get_elem?-set_same routers w r (settled r) at_w) ∙ (rw here at h1)) in
              let (o, e) = of_settled k x1 x2 same f in inl (here, o, e)
          | inr other ↦
              inr (x1, other, sym (get_elem?-set_other routers w k (settled r) other) ∙ h1, f)
        ]
      where
        of_settled :
            (k : ℕ) (x1 x2 : PwospfRouter)
            → settled r ≡ x1
            → Fate g r.router_id w r.distance finite k x1 x2
            → (is_open x2 ≡ false) × (x2.distance ≡ r.distance)
        of_settled k x1 x2 e (o, inl d) =
            (o ∙ sym (ap is_open e), d ∙ sym (ap (λ (x : PwospfRouter). x.distance) e))
        of_settled k x1 x2 e (o, inr (o1, _, _, _)) = absurd (clash (ap is_open e ∙ o1))
          where
            clash : false ≡ true → ⊥
            clash e = cc

    clash : {b : Bool} → b ≡ false → b ≡ true → ⊥
    clash e h = cc

    -- A router that is settled afterwards and is not the new one was settled before, as near.
    was_settled :
        (k : ℕ) (x x2 : PwospfRouter)
        → is_open x2 ≡ false
        → Fate g r.router_id w r.distance finite k x x2
        → (is_open x ≡ false) × (x2.distance ≡ x.distance)
    was_settled k x x2 h (o, inl e) = (sym o ∙ h, e)
    was_settled k x x2 h (o, inr (o1, _, _, _)) = absurd (clash (sym o ∙ h) o1)

    no_farther :
        (k : ℕ) (x x2 : PwospfRouter)
        → Fate g r.router_id w r.distance finite k x x2
        → x2.distance ≤ x.distance
    no_farther k x x2 (o, inl e) = omega arith
    no_farther k x x2 (o, inr (_, lt, e, _)) = omega arith

    reach :
        (k : ℕ) (x2 : PwospfRouter) → Origin k x2 → x2.distance < infinity → Walk g s k x2.distance
    reach k x2 (inl (here, _, e)) lt = rw (here, e) (before.walks w r at_w finite)
    reach k x2 (inr (x, _, h, (_, inl e))) lt = rw e (before.walks k x h (omega arith))
    reach k x2 (inr (x, _, h, (_, inr (_, _, e, edge)))) lt =
        rw (e ∙ plus_one) (step (before.walks w r at_w finite) edge)
      where
        plus_one : r.distance + 1 ≡ suc r.distance
        plus_one = omega arith

    below_infinity : (k : ℕ) (x2 : PwospfRouter) → Origin k x2 → x2.distance ≤ infinity
    below_infinity k x2 (inl (_, _, e)) = omega arith
    below_infinity k x2 (inr (x, _, h, f)) =
        omega (arith, no_farther k x x2 f, before.bounded k x h)

    still_source : (x2 : PwospfRouter) → Origin s x2 → (is_open x2 ≡ false) × (x2.distance ≡ 0)
    still_source x2 (inl (here, o, e)) = (o, e ∙ (before.source r (rw here at_w)).1)
    still_source x2 (inr (x, _, h, f)) =
        let (o, d) = before.source x h in
        let (_, e) = was_settled s x x2 (f.0 ∙ o) f in (f.0 ∙ o, e ∙ d)

    in_order :
        (j k : ℕ) (a b : PwospfRouter)
        → Origin j a
        → Origin k b
        → is_open a ≡ false
        → is_open b ≡ true
        → a.distance ≤ b.distance
    in_order j k a b oa (inl (_, o, _)) ha hb = absurd (clash o hb)
    in_order j k a b (inl (_, _, ea)) (inr (x, _, h, (o, inl e))) ha hb =
        omega (arith, nearest k x h (sym o ∙ hb))
    in_order j k a b (inl (_, _, ea)) (inr (x, _, h, (o, inr (_, _, e, _)))) ha hb = omega arith
    in_order j k a b (inr (y, _, hy, fy)) (inr (x, _, h, (o, inl e))) ha hb =
        let (oy, ey) = was_settled j y a ha fy in
        omega (arith, before.ordered j k y x hy h oy (sym o ∙ hb))
    in_order j k a b (inr (y, _, hy, fy)) (inr (x, _, h, (o, inr (_, _, e, _)))) ha hb =
        let (oy, ey) = was_settled j y a ha fy in omega (arith, last j y hy oy)

    -- An edge out of the new router
    out_of_w :
        (v : ℕ) (b : PwospfRouter)
        → Edge g w v
        → get_elem? after v ≡ some b
        → b.distance ≤ r.distance + 1
    out_of_w v b edge h = elim (Bool-cases (is_open b)) [
      | inl o ↦
          let (r', h', ifs) = before.graph.forth w edge.r edge.held in
          round.reached edge.j edge.i v b (interface_of r' h' ifs) edge.leads h o
      | inr o ↦ settled_near (origin v b h) o
    ]
      where
        interface_of :
            (r' : PwospfRouter)
            → get_elem? routers w ≡ some r'
            → r'.interface_list ≡ edge.r.interface_list
            → get_elem? r.interface_list edge.j ≡ some edge.i
        interface_of r' h' ifs = rw (some_eq (sym at_w ∙ h'), ifs) edge.interface

        settled_near : Origin v b → is_open b ≡ false → b.distance ≤ r.distance + 1
        settled_near (inl (_, _, e)) o = omega arith
        settled_near (inr (x, _, hx, f)) o =
            let (ox, e) = was_settled v x b o f in omega (arith, last v x hx ox)

    pub relaxed_after : (u : ℕ) → RelaxedFrom after u
    relaxed_after u v a b ha oa edge hb = go (origin u a ha) (origin v b hb)
      where
        go : Origin u a → Origin v b → b.distance ≤ a.distance + 1
        go (inl (here, _, e)) ob = omega (arith, out_of_w v b (rw here at edge) hb)
        go (inr (y, other, hy, fy)) (inl (there, _, e)) =
            let (oy, ey) = was_settled u y a oa fy in
            omega (arith, relaxed u other v y r hy oy edge (rw there at_w))
        go (inr (y, other, hy, fy)) (inr (x, _, hx, fx)) =
            let (oy, ey) = was_settled u y a oa fy in
            omega (arith, relaxed u other v y x hy oy edge hx, no_farther v x b fx)

    pub Sound-after : Sound after
    Sound-after = record {
      graph = SameGraph-trans marked_graph round.graph;
      walks = λ k x h. reach k x (origin k x h);
      bounded = λ k x h. below_infinity k x (origin k x h);
      source = λ x h. still_source x (origin s x h);
      ordered = λ j k a b ha hb. in_order j k a b (origin j a ha) (origin k b hb);
    }
