-- ===== src/Dijkstra/Relaxation.antt =====
-- One round of the loop: what `update_neighbor_distance` does to each router, on the graph of the
-- active interfaces.
use osnt_plus.Prelude.{
  ℕ, zero, suc, ◌+◌, ◌%◌, ◌^◌, ◌≤◌, ◌<◌, ◌≡◌, ◌≢◌, refl, sym, ap, ◌∙◌, ◌⊎◌, inl, inr, true, false,
  not, ◌&&◌, Option, none, some, List, [], ◌∷◌, arith, ◌==◌, if◌then◌else◌, get_elem?, set, some_eq,
  some≢none,
}
use osnt_plus.State.{PwospfInterface, PwospfRouter}
use osnt_plus.Dijkstra.{infinity, get_router_by_rid, is_closer, relax, relax_all}
use osnt_plus.Dijkstra.Nearest.{is_open}
use osnt_plus.Dijkstra.Paths.{target, closer, Improved, relax-cases}

-- An active interface of the router at `u` leads to the router at `v`.
pub record Edge (routers : List PwospfRouter) (u v : ℕ) : Type 0 where
  pub r : PwospfRouter
  pub held : get_elem? routers u ≡ some r
  pub j : ℕ
  pub i : PwospfInterface
  pub interface : get_elem? r.interface_list j ≡ some i
  pub leads : target i routers ≡ some v

-- A walk of `n` hops from `s`.
pub data Walk (routers : List PwospfRouter) (s : ℕ) : ℕ → ℕ → Type 0 where
  start : Walk routers s s 0
  step : {u v n : ℕ} → Walk routers s u n → Edge routers u v → Walk routers s v (suc n)

-- The same routers with the same interfaces; distances and marks may differ.
pub record SameGraph (a b : List PwospfRouter) : Type 0 where
  pub ids : (rid j : ℕ) → get_router_by_rid rid b j ≡ get_router_by_rid rid a j
  pub forth :
      (k : ℕ) (r : PwospfRouter)
      → get_elem? a k ≡ some r
      → (r' : PwospfRouter) × (get_elem? b k ≡ some r') × (r'.interface_list ≡ r.interface_list)
  pub back :
      (k : ℕ) (r : PwospfRouter)
      → get_elem? b k ≡ some r
      → (r' : PwospfRouter) × (get_elem? a k ≡ some r') × (r'.interface_list ≡ r.interface_list)

pub SameGraph-refl : (a : List PwospfRouter) → SameGraph a a
SameGraph-refl a = record {
  ids = λ rid j. refl;
  forth = λ k r h. (r, h, refl);
  back = λ k r h. (r, h, refl);
}

pub SameGraph-trans : {a b c : List PwospfRouter} → SameGraph a b → SameGraph b c → SameGraph a c
SameGraph-trans {a} {b} {c} f g = record {
  ids = λ rid j. g.ids rid j ∙ f.ids rid j;
  forth = λ k r h.
      let (x, hx, ex) = f.forth k r h in let (y, hy, ey) = g.forth k x hx in (y, hy, ey ∙ ex);
  back = λ k r h.
      let (x, hx, ex) = g.back k r h in let (y, hy, ey) = f.back k x hx in (y, hy, ey ∙ ex);
}

-- Reading a list after a change at `k`.
pub get_elem?-set_same :
    (n : List PwospfRouter) (k : ℕ) (v v' : PwospfRouter)
    → get_elem? n k ≡ some v
    → get_elem? (set n k v') k ≡ some v'
get_elem?-set_same [] k v v' h = absurd (some≢none h)
get_elem?-set_same (x ∷ n) zero v v' h = refl
get_elem?-set_same (x ∷ n) (suc k) v v' h = get_elem?-set_same n k v v' h

pub get_elem?-set_other :
    (n : List PwospfRouter) (k j : ℕ) (v' : PwospfRouter)
    → j ≢ k
    → get_elem? (set n k v') j ≡ get_elem? n j
get_elem?-set_other [] k j v' h = refl
get_elem?-set_other (x ∷ n) zero zero v' h = absurd (h refl)
get_elem?-set_other (x ∷ n) zero (suc j) v' h = refl
get_elem?-set_other (x ∷ n) (suc k) zero v' h = refl
get_elem?-set_other (x ∷ n) (suc k) (suc j) v' h =
    get_elem?-set_other n k j v' (λ e. h (ap (λ (m : ℕ). suc m) e))

get_router_by_rid-set :
    (rid : ℕ) (n : List PwospfRouter) (k j : ℕ) (v v' : PwospfRouter)
    → get_elem? n k ≡ some v
    → v'.router_id ≡ v.router_id
    → get_router_by_rid rid (set n k v') j ≡ get_router_by_rid rid n j
unfolding get_router_by_rid
get_router_by_rid-set rid [] k j v v' h same = refl
get_router_by_rid-set rid (x ∷ n) zero j v v' h same =
    ap (λ (id : ℕ). if id == rid then some j else get_router_by_rid rid n (j + 1))
      (same ∙ sym (ap (λ (r : PwospfRouter). r.router_id) (some_eq h)))
get_router_by_rid-set rid (x ∷ n) (suc k) j v v' h same =
    ap (λ (o : Option ℕ). if x.router_id == rid then some j else o)
      (get_router_by_rid-set rid n k (j + 1) v v' h same)

pub same_position : (j k : ℕ) → (j ≡ k) ⊎ (j ≢ k)
same_position j k = ground arith

pub SameGraph-set :
    (n : List PwospfRouter) (k : ℕ) (v v' : PwospfRouter)
    → get_elem? n k ≡ some v
    → v'.router_id ≡ v.router_id
    → v'.interface_list ≡ v.interface_list
    → SameGraph n (set n k v')
SameGraph-set n k v v' h same ifs = record {
  ids = λ rid j. get_router_by_rid-set rid n k j v v' h same;
  forth = λ j r e. elim (same_position j k) [
    | inl here ↦ (
      v',
      rw here (get_elem?-set_same n k v v' h),
      ifs ∙ ap (λ (x : PwospfRouter). x.interface_list) (some_eq (sym h ∙ (rw here at e))),
    )
    | inr other ↦ (r, get_elem?-set_other n k j v' other ∙ e, refl)
  ];
  back = λ j r e. elim (same_position j k) [
    | inl here ↦ (
      v,
      rw here h,
      sym ifs
          ∙ ap (λ (x : PwospfRouter). x.interface_list)
              (some_eq (sym (get_elem?-set_same n k v v' h) ∙ (rw here at e))),
    )
    | inr other ↦ (r, sym (get_elem?-set_other n k j v' other) ∙ e, refl)
  ];
}

pub target-SameGraph :
    {a b : List PwospfRouter} (i : PwospfInterface) → SameGraph a b → target i b ≡ target i a
target-SameGraph i f =
    ap (λ (o : Option ℕ). if not (i.router_id == 0) && i.is_active then o else none)
      (f.ids i.router_id 0)

-- `g` is the graph, and `w` the position of the router whose interfaces are gone
-- through, at distance `d`; `id` is its id.
module _ (g : List PwospfRouter) (id w d : ℕ) (finite : d < infinity) where
  -- What became of the router `r` at position `k`.
  abbrev pub Fate : ℕ → PwospfRouter → PwospfRouter → Type 0
  Fate k r r' =
      (is_open r' ≡ is_open r)
      × ((r'.distance ≡ r.distance)
          ⊎ ((is_open r ≡ true) × (d + 1 < r.distance) × (r'.distance ≡ d + 1) × Edge g w k))

  pub record Relaxed (n : List PwospfInterface) (routers routers' : List PwospfRouter)
      : Type 0 where
    pub graph : SameGraph routers routers'
    pub fate :
        (k : ℕ) (r' : PwospfRouter)
        → get_elem? routers' k ≡ some r'
        → (r : PwospfRouter) × (get_elem? routers k ≡ some r) × Fate k r r'
    pub reached :
        (j : ℕ) (i : PwospfInterface) (k : ℕ) (r' : PwospfRouter)
        → get_elem? n j ≡ some i
        → target i g ≡ some k
        → get_elem? routers' k ≡ some r'
        → is_open r' ≡ true
        → r'.distance ≤ d + 1

  no_wrap : (d + 1) % 2 ^ 32 ≡ d + 1
  no_wrap = omega arith

  far : (r : PwospfRouter) → is_closer d r ≡ false → is_open r ≡ true → r.distance ≤ d + 1
  far r h o = ground (arith, no_wrap)

  near : (r : PwospfRouter) → is_closer d r ≡ true → (is_open r ≡ true) × (d + 1 < r.distance)
  near r h = ground (arith, no_wrap)

  abbrev pub Leads : List PwospfInterface → Type 0
  Leads n =
      (j : ℕ) (i : PwospfInterface) (v : ℕ)
      → get_elem? n j ≡ some i
      → target i g ≡ some v
      → Edge g w v

  relax-Relaxed :
      (i : PwospfInterface) (routers : List PwospfRouter)
      → SameGraph g routers
      → ((v : ℕ) → target i g ≡ some v → Edge g w v)
      → Relaxed (i ∷ []) routers (relax id d i routers)
  relax-Relaxed i routers same edge = elim (relax-cases id d i routers) [
    | inl (u, unchanged) ↦ rw u (record {
      graph = SameGraph-refl routers;
      fate = λ k r h. (r, h, (refl, inl refl));
      reached = λ j i' k r hj t h o. far r (unchanged k r (here_too j i' k hj t) h) o;
    })
    | inr c ↦ rw c.result (record {
      graph = SameGraph-set routers c.k c.v (closer id d c.v) c.held refl refl;
      fate = λ k r h. elim (same_position k c.k) [
        | inl here ↦
            let e = changed c k r here h in
            let t = sym (target-SameGraph i same) ∙ c.found ∙ ap (λ (x : ℕ). some x) (sym here) in
            let (o, lt) = near c.v c.test in
            (
              c.v,
              rw here c.held,
              (
                sym (ap is_open e),
                inr (o, lt, sym (ap (λ (x : PwospfRouter). x.distance) e) ∙ no_wrap, edge k t),
              ),
            )
        | inr other ↦ (
          r,
          sym (get_elem?-set_other routers c.k k (closer id d c.v) other) ∙ h,
          (refl, inl refl),
        )
      ];
      reached = λ j i' k r hj t h o.
          let here = sym (some_eq (sym c.found ∙ here_too j i' k hj t)) in
          omega (arith, ap (λ (x : PwospfRouter). x.distance) (changed c k r here h), no_wrap);
    })
  ]
    where
      here_too :
          (j : ℕ) (i' : PwospfInterface) (k : ℕ)
          → get_elem? (i ∷ []) j ≡ some i'
          → target i' g ≡ some k
          → target i routers ≡ some k
      here_too zero i' k hj t = target-SameGraph i same ∙ (rw (← some_eq hj) at t)
      here_too (suc j) i' k hj t = absurd (some≢none hj)

      changed :
          (c : Improved id d i routers) (k : ℕ) (r : PwospfRouter)
          → k ≡ c.k
          → get_elem? (set routers c.k (closer id d c.v)) k ≡ some r
          → closer id d c.v ≡ r
      changed c k r here h =
          some_eq
            (sym (get_elem?-set_same routers c.k c.v (closer id d c.v) c.held) ∙ (rw here at h))

  pub relax_all-Relaxed :
      (n : List PwospfInterface) (routers : List PwospfRouter)
      → SameGraph g routers
      → Leads n
      → Relaxed n routers (relax_all id d n routers)
  unfolding relax_all
  relax_all-Relaxed [] routers same edges = record {
    graph = SameGraph-refl routers;
    fate = λ k r h. (r, h, (refl, inl refl));
    reached = λ j i k r hj t h o. absurd (some≢none hj);
  }
  relax_all-Relaxed (i ∷ n) routers same edges =
      let one = relax-Relaxed i routers same (λ v t. edges 0 i v refl t) in
      let rest =
        relax_all-Relaxed n (relax id d i routers) (SameGraph-trans same one.graph)
          (λ j x v h t. edges (suc j) x v h t) in
      record {
        graph = SameGraph-trans one.graph rest.graph;
        fate = λ k r'' h.
            let (r', h', a) = rest.fate k r'' h in
            let (r, h0, b) = one.fate k r' h' in (r, h0, (a.0 ∙ b.0, both k r r' r'' a.1 b));
        reached = λ j x k r hj t h o. elim (head_or_tail j x hj) [
          | inl same_i ↦
              let (r', h', a) = rest.fate k r h in
              no_farther k r' r a.1
                (one.reached 0 i k r' refl (rw (← same_i) at t) h' (sym a.0 ∙ o))
          | inr (j', hj') ↦ rest.reached j' x k r hj' t h o
        ];
      }
    where
      head_or_tail :
          (j : ℕ) (x : PwospfInterface)
          → get_elem? (i ∷ n) j ≡ some x
          → (i ≡ x) ⊎ ((j' : ℕ) × (get_elem? n j' ≡ some x))
      head_or_tail zero x h = inl (some_eq h)
      head_or_tail (suc j) x h = inr (j, h)

      no_farther :
          (k : ℕ) (r' r'' : PwospfRouter)
          → (r''.distance ≡ r'.distance)
            ⊎ ((is_open r' ≡ true) × (d + 1 < r'.distance) × (r''.distance ≡ d + 1) × Edge g w k)
          → r'.distance ≤ d + 1
          → r''.distance ≤ d + 1
      no_farther k r' r'' (inl e) h = omega arith
      no_farther k r' r'' (inr (_, _, e, _)) h = omega arith

      both :
          (k : ℕ) (r r' r'' : PwospfRouter)
          → (r''.distance ≡ r'.distance)
            ⊎ ((is_open r' ≡ true) × (d + 1 < r'.distance) × (r''.distance ≡ d + 1) × Edge g w k)
          → Fate k r r'
          → (r''.distance ≡ r.distance)
            ⊎ ((is_open r ≡ true) × (d + 1 < r.distance) × (r''.distance ≡ d + 1) × Edge g w k)
      both k r r' r'' (inl e) (s, inl e') = inl (e ∙ e')
      both k r r' r'' (inl e) (s, inr (o, lt, e', edge)) = inr (o, lt, e ∙ e', edge)
      both k r r' r'' (inr (o, lt, e, edge)) (s, inl e') = inr (sym s ∙ o, omega arith, e, edge)
      both k r r' r'' (inr (_, lt, e, edge)) (s, inr (_, _, e', _)) = absurd (omega arith)
