-- ===== src/Dijkstra/Routes/Reached.antt =====
-- `build_route_wrapper_list` has a route for every interface of every router.
use osnt_plus.Prelude.{
  ℕ, zero, suc, ◌+◌, ◌%◌, ◌≤◌, ◌≡◌, refl, ap, ◌∙◌, Bool, true, false, ◌&&◌, ◌||◌, some, List, [],
  ◌∷◌, ◌++◌, leb, ◌==◌, ==_refl, Bool-cases, Option-cases, get_elem?, set, bit_and, arith, All,
  All-imp, inl, inr, some_eq, some≢none,
}
use osnt_plus.State.{PwospfInterface, PwospfRouter}
use osnt_plus.Dijkstra.Routes.{
  RouteWrapper, get_route_wrapper, next_router, new_wrapper, shorter, add_route_wrapper,
  add_route_wrappers, build_route_wrapper_list,
}

abbrev pub leads_to : PwospfInterface → RouteWrapper → Bool
leads_to i w = w.entry.ip == bit_and i.subnet i.mask && w.entry.mask == i.mask

-- A route to the interface's subnet of at most that distance
abbrev pub reached : List RouteWrapper → PwospfInterface → ℕ → Bool
reached [] i d = false
reached (w ∷ n) i d = (leads_to i w && leb w.distance d) || reached n i d

reached-append :
    (a b : List RouteWrapper) (i : PwospfInterface) (d : ℕ)
    → reached (a ++ b) i d ≡ (reached a i d || reached b i d)
reached-append [] b i d = refl
reached-append (w ∷ a) b i d = elim (Bool-cases (leads_to i w && leb w.distance d)) [
  | inl here ↦ rw here refl
  | inr later ↦ rw later (reached-append a b i d)
]

-- What `get_route_wrapper` finds.
found_wrapper :
    (head : List RouteWrapper) (i : PwospfInterface) (j m : ℕ)
    → get_route_wrapper head i.subnet i.mask j ≡ some m
    → (k : ℕ) × (m ≡ j + k)
      × (w : RouteWrapper) × (get_elem? head k ≡ some w)
      × (leads_to i w ≡ true)
unfolding get_route_wrapper
found_wrapper [] i j m h = absurd (some≢none h)
found_wrapper (w ∷ n) i j m h = elim (Bool-cases (leads_to i w)) [
  | inl here ↦ (0, omega (arith, some_eq (rw (get_route_wrapper, here) at h)), w, refl, here)
  | inr later ↦
      let (k, e, v, at, mine) = found_wrapper n i (j + 1) m (rw (get_route_wrapper, later) at h) in
      (suc k, omega arith, v, at, mine)
]

reached_at :
    (head : List RouteWrapper) (k : ℕ) (w : RouteWrapper) (i : PwospfInterface) (d : ℕ)
    → get_elem? head k ≡ some w
    → leads_to i w ≡ true
    → leb w.distance d ≡ true
    → reached head i d ≡ true
reached_at [] k w i d at mine near = absurd (some≢none at)
reached_at (x ∷ n) zero w i d at mine near = rw (some_eq at, mine, near) refl
reached_at (x ∷ n) (suc k) w i d at mine near =
    right (leads_to i x && leb x.distance d) (reached_at n k w i d at mine near)
  where
    right : (b : Bool) {c : Bool} → c ≡ true → (b || c) ≡ true
    right b later = ground arith

-- A wrapper gets shorter.
reached-set :
    (head : List RouteWrapper) (k : ℕ) (w w' : RouteWrapper) (i : PwospfInterface) (d : ℕ)
    → get_elem? head k ≡ some w
    → leads_to i w' ≡ leads_to i w
    → w'.distance ≤ w.distance
    → reached head i d ≡ true
    → reached (set head k w') i d ≡ true
reached-set [] k w w' i d at same less h = h
reached-set (x ∷ n) zero w w' i d at same less h =
    closer (leads_to i w) (rw same refl) (rw (some_eq at) at h)
  where
    closer :
        (b : Bool)
        → leads_to i w' ≡ b
        → ((b && leb w.distance d) || reached n i d) ≡ true
        → ((leads_to i w' && leb w'.distance d) || reached n i d) ≡ true
    closer b e known = rw e (ground (arith, known))
reached-set (x ∷ n) (suc k) w w' i d at same less h =
    elim (Bool-cases (leads_to i x && leb x.distance d)) [
      | inl here ↦ rw here refl
      | inr later ↦ rw later (reached-set n k w w' i d at same less (rw later at h))
    ]

set_at :
    (head : List RouteWrapper) (k : ℕ) (w w' : RouteWrapper)
    → get_elem? head k ≡ some w
    → get_elem? (set head k w') k ≡ some w'
set_at [] k w w' at = absurd (some≢none at)
set_at (x ∷ n) zero w w' at = refl
set_at (x ∷ n) (suc k) w w' at = set_at n k w w' at

shrinks : (d : ℕ) → d % 65536 ≤ d
shrinks d = omega arith

small : (d : ℕ) → leb (d % 65536) d ≡ true
small d = ground (arith, shrinks d)

-- The walk from each of the router's interfaces ends.
abbrev pub Ends : ℕ → List PwospfRouter → PwospfRouter → Type 0
Ends fuel routers r =
    All (λ i. (rid : ℕ) × (next_router fuel routers r i ≡ some rid)) r.interface_list

-- No route gets lost.
abbrev Keeps : List RouteWrapper → List RouteWrapper → Type 0
Keeps a b = (i : PwospfInterface) (d : ℕ) → reached a i d ≡ true → reached b i d ≡ true

module _ (fuel our_rid : ℕ) (routers : List PwospfRouter) where
  add_one :
      (r : PwospfRouter) (i : PwospfInterface) (head : List RouteWrapper) (rid : ℕ)
      → next_router fuel routers r i ≡ some rid
      → (ws : List RouteWrapper) × (add_route_wrapper fuel our_rid routers r i head ≡ some ws)
        × (reached ws i r.distance ≡ true)
        × Keeps head ws
  unfolding add_route_wrapper new_wrapper shorter
  add_one r i head rid ends = elim (Option-cases (get_route_wrapper head i.subnet i.mask 0)) [
    | inl new ↦
        let w = new_wrapper our_rid r i rid in
        (
          head ++ w ∷ [],
          simp (add_route_wrapper, new, ends) refl,
          reached-append head (w ∷ []) i r.distance
              ∙ last (reached head i r.distance)
                  (rw (==_refl (bit_and i.subnet i.mask), ==_refl i.mask, small r.distance) refl),
          λ j d known. reached-append head (w ∷ []) j d ∙ rw known refl,
        )
    | inr (k, finds) ↦
        let (m, e, w, at, mine) = found_wrapper head i 0 k finds in
        let held = ap (get_elem? head) {x = k} {y = m} (omega arith) ∙ at in
        elim (Bool-cases (leb w.distance r.distance)) [
          | inl near ↦ (
            head,
            simp (add_route_wrapper, finds, held, near) refl,
            reached_at head k w i r.distance held mine near,
            λ j d known. known,
          )
          | inr far ↦
              let w' = shorter our_rid r rid w in
              let keeps : Keeps head (set head k w') = λ j d known.
                reached-set head k w w' j d held refl (ground (arith, far, shrinks r.distance))
                  known in
              (
                set head k w',
                simp (add_route_wrapper, finds, held, far, ends) refl,
                reached_at (set head k w') k w' i r.distance (set_at head k w w' held) mine
                    (small r.distance),
                keeps,
              )
        ]
  ]
    where
      last : (b : Bool) {c : Bool} → c ≡ true → (b || c) ≡ true
      last b later = ground arith

  add_each :
      (r : PwospfRouter) (ifs : List PwospfInterface) (head : List RouteWrapper)
      → All (λ i. (rid : ℕ) × (next_router fuel routers r i ≡ some rid)) ifs
      → (ws : List RouteWrapper) × (add_route_wrappers fuel our_rid routers r ifs head ≡ some ws)
        × All (λ i. reached ws i r.distance ≡ true) ifs
        × Keeps head ws
  unfolding add_route_wrappers
  add_each r [] head ends = (head, refl, tt, λ i d known. known)
  add_each r (i ∷ n) head ends =
      let (ws1, runs1, here, keeps1) = add_one r i head ends.0.0 ends.0.1 in
      let (ws, runs, rest, keeps) = add_each r n ws1 ends.1 in
      (
        ws,
        rw (add_route_wrappers, runs1) runs,
        (keeps i r.distance here, rest),
        λ j d known. keeps j d (keeps1 j d known),
      )

  build :
      (left : List PwospfRouter) (head : List RouteWrapper)
      → All (Ends fuel routers) left
      → (ws : List RouteWrapper) × (build_route_wrapper_list fuel our_rid routers left head
          ≡ some ws)
        × All (λ r. All (λ i. reached ws i r.distance ≡ true) r.interface_list) left
        × Keeps head ws
  unfolding build_route_wrapper_list
  build [] head ends = (head, refl, tt, λ i d known. known)
  build (r ∷ n) head ends =
      let (ws1, runs1, here, keeps1) = add_each r r.interface_list head ends.0 in
      let (ws, runs, rest, keeps) = build n ws1 ends.1 in
      (
        ws,
        rw (build_route_wrapper_list, runs1) runs,
        (
          All-imp (λ i. reached ws1 i r.distance ≡ true) (λ i. reached ws i r.distance ≡ true)
              r.interface_list (λ i known. keeps i r.distance known) here,
          rest,
        ),
        λ j d known. keeps j d (keeps1 j d known),
      )

-- Where the walk towards our router from each interface of each router ends,
-- `build_route_wrapper_list` succeeds, and for every interface of every router the list has a route
-- to its subnet that is no longer than the router's distance.
pub build_route_wrapper_list_lem :
    (fuel our_rid : ℕ) (routers : List PwospfRouter)
    → All (Ends fuel routers) routers
    → (ws : List RouteWrapper) × (build_route_wrapper_list fuel our_rid routers routers []
        ≡ some ws)
      × All (λ r. All (λ i. reached ws i r.distance ≡ true) r.interface_list) routers
build_route_wrapper_list_lem fuel our_rid routers ends =
    let (ws, runs, all, _) = build fuel our_rid routers routers [] ends in (ws, runs, all)
