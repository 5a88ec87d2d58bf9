-- ===== src/Dijkstra/Paths.antt =====
-- The loop of Dijkstra's algorithm ends: the number of open routers falls in each round.
use osnt_plus.Prelude.{
  ℕ, zero, suc, ◌+◌, ◌%◌, ◌^◌, ◌≤◌, ◌<◌, ◌≡◌, refl, sym, ap, ◌∙◌, ◌⊎◌, inl, inr, Bool, true, false,
  not, ◌&&◌, Option, none, some, List, [], ◌∷◌, arith, ◌==◌, if◌then◌else◌, get_elem?, set, length,
  tally, tally-le-length, Bool-cases, Option-cases, some_eq, some≢none,
}
use osnt_plus.State.{PwospfInterface, PwospfRouter}
use osnt_plus.Dijkstra.{
  infinity, reset_all, get_router_by_rid, get_shortest, is_closer, relax, relax_all, settle,
  search_loop, shortest_paths,
}
use osnt_plus.Dijkstra.Nearest.{is_open, NoneNearer, get_shortest_lem}

abbrev pub open_count : List PwospfRouter → ℕ
open_count = tally is_open

abbrev flag : Bool → ℕ
flag true = 1
flag false = 0

swap_flags :
    (a b : Bool) (m : ℕ) → (if b then 1 else 0) + m + flag a ≡ (if a then 1 else 0) + m + flag b
swap_flags a b m = ground arith

open_count-set :
    (n : List PwospfRouter) (k : ℕ) (v v' : PwospfRouter)
    → get_elem? n k ≡ some v
    → open_count (set n k v') + flag (is_open v) ≡ open_count n + flag (is_open v')
open_count-set [] k v v' h = absurd (some≢none h)
open_count-set (r ∷ n) zero v v' h =
    rw (some_eq h) (swap_flags (is_open v) (is_open v') (open_count n))
open_count-set (r ∷ n) (suc k) v v' h = grown (is_open r) (open_count-set n k v v' h)
  where
    grown :
        (b : Bool)
        → open_count (set n k v') + flag (is_open v) ≡ open_count n + flag (is_open v')
        → (if b then 1 else 0) + open_count (set n k v') + flag (is_open v)
          ≡ (if b then 1 else 0) + open_count n + flag (is_open v')
    grown b e = omega arith

-- A change that leaves the flag leaves the count.
open_count-keep :
    (n : List PwospfRouter) (k : ℕ) (v v' : PwospfRouter)
    → get_elem? n k ≡ some v
    → is_open v' ≡ is_open v
    → open_count (set n k v') ≡ open_count n
open_count-keep n k v v' h same = omega (arith, open_count-set n k v v' h, ap flag same)

-- The router that an interface leads to: its position, where the interface is active.
abbrev pub target : PwospfInterface → List PwospfRouter → Option ℕ
target i routers =
    if not (i.router_id == 0) && i.is_active then get_router_by_rid i.router_id routers 0 else none

module _ (w distance : ℕ) where
  -- A neighbour with its new distance
  abbrev pub closer : PwospfRouter → PwospfRouter
  closer v = record v { distance = (distance + 1) % 2 ^ 32; prev_router = some w }

  -- A round that changes the list.
  pub record Improved (i : PwospfInterface) (routers : List PwospfRouter) : Type 0 where
    pub k : ℕ
    pub v : PwospfRouter
    pub found : target i routers ≡ some k
    pub held : get_elem? routers k ≡ some v
    pub test : is_closer distance v ≡ true
    pub result : relax w distance i routers ≡ set routers k (closer v)

  abbrev pub Unimproved : PwospfInterface → List PwospfRouter → Type 0
  Unimproved i routers =
      (relax w distance i routers ≡ routers)
      × ((k : ℕ) (v : PwospfRouter)
          → target i routers ≡ some k
          → get_elem? routers k ≡ some v
          → is_closer distance v ≡ false)

  relax-target :
      (i : PwospfInterface) (routers : List PwospfRouter)
      → relax w distance i routers ≡ elim (target i routers) [
        | none ↦ routers
        | some k ↦ elim (get_elem? routers k) [
          | none ↦ routers
          | some v ↦ if is_closer distance v then set routers k (closer v) else routers
        ]
      ]
  unfolding relax
  relax-target i routers = elim (Bool-cases (not (i.router_id == 0) && i.is_active)) [
    | inl leads ↦ rw leads refl
    | inr leads ↦ rw leads refl
  ]

  pub relax-cases :
      (i : PwospfInterface) (routers : List PwospfRouter)
      → Unimproved i routers ⊎ Improved i routers
  relax-cases i routers = elim (Option-cases (target i routers)) [
    | inl t ↦ inl (relax-target i routers ∙ rw t refl, λ k v f _. absurd (some≢none (sym t ∙ f)))
    | inr (k, t) ↦ elim (Option-cases (get_elem? routers k)) [
      | inl g ↦ inl (
        relax-target i routers ∙ rw (t, g) refl,
        λ j v f h. absurd (some≢none (sym g ∙ (rw (← some_eq (sym t ∙ f)) at h))),
      )
      | inr (v, g) ↦ elim (Bool-cases (is_closer distance v)) [
        | inl c ↦ inr (record {
          k = k;
          v = v;
          found = t;
          held = g;
          test = c;
          result = relax-target i routers ∙ rw (t, g, c) refl;
        })
        | inr c ↦ inl (
          relax-target i routers ∙ rw (t, g, c) refl,
          λ j u f h.
              ap (is_closer distance) (some_eq (sym h ∙ (rw (some_eq (sym t ∙ f)) at g))) ∙ c,
        )
      ]
    ]
  ]

  open_count-relax :
      (i : PwospfInterface) (routers : List PwospfRouter)
      → open_count (relax w distance i routers) ≡ open_count routers
  open_count-relax i routers = elim (relax-cases i routers) [
    | inl (same, _) ↦ ap open_count same
    | inr c ↦ ap open_count c.result ∙ open_count-keep routers c.k c.v (closer c.v) c.held refl
  ]

  open_count-relax_all :
      (n : List PwospfInterface) (routers : List PwospfRouter)
      → open_count (relax_all w distance n routers) ≡ open_count routers
  unfolding relax_all
  open_count-relax_all [] routers = refl
  open_count-relax_all (i ∷ n) routers =
      open_count-relax_all n (relax w distance i routers) ∙ open_count-relax i routers

abbrev pub settled : PwospfRouter → PwospfRouter
settled r = record r { shortest_path_found = true }

-- A round settles the router that was chosen.
open_count-settle :
    (w : ℕ) (routers : List PwospfRouter) (r : PwospfRouter)
    → get_elem? routers w ≡ some r
    → open_count (settle w routers) + flag (is_open r) ≡ open_count routers
unfolding settle
open_count-settle w routers r h =
    rw (h, settle)
      (omega (
        arith,
        open_count-relax_all r.router_id r.distance r.interface_list (set routers w (settled r)),
        open_count-set routers w r (settled r) h,
      ))

search_loop_total :
    (fuel : ℕ) (routers : List PwospfRouter)
    → open_count routers ≤ fuel
    → (out : List PwospfRouter) × (search_loop fuel (get_shortest routers) routers ≡ some out)
      × (get_shortest out ≡ none)
unfolding search_loop
search_loop_total zero routers h = elim (get_shortest_lem routers) [
  | inl (e, _) ↦ (routers, rw (e, search_loop) refl, e)
  | inr (k, e, f) ↦
      absurd (omega (arith, open_count-settle k routers f.r f.held, ap flag f.unsettled))
]
search_loop_total (suc fuel) routers h = elim (get_shortest_lem routers) [
  | inl (e, _) ↦ (routers, rw (e, search_loop) refl, e)
  | inr (k, e, f) ↦
      rw (e, search_loop)
        (search_loop_total fuel (settle k routers)
          (omega (arith, open_count-settle k routers f.r f.held, ap flag f.unsettled)))
]

open_count-settle_le :
    (w : ℕ) (routers : List PwospfRouter) → open_count (settle w routers) ≤ open_count routers
unfolding settle
open_count-settle_le w routers = elim (Option-cases (get_elem? routers w)) [
  | inl out ↦ rw (out, settle) (omega arith)
  | inr (r, h) ↦ omega (arith, open_count-settle w routers r h)
]

length-reset_all :
    (our : ℕ) (routers : List PwospfRouter) → length (reset_all our routers) ≡ length routers
unfolding reset_all
length-reset_all our [] = refl
length-reset_all our (r ∷ n) = omega (arith, length-reset_all our n)

all_settled : (out : List PwospfRouter) → get_shortest out ≡ none → NoneNearer infinity out
all_settled out e = elim (get_shortest_lem out) [
  | inl (_, all) ↦ all
  | inr (k, found, _) ↦ absurd (some≢none (sym e ∙ found))
]

-- With one round for each router and one more, the loop of Dijkstra's algorithm ends. Where our
-- router is in the list, no router with a finite distance is left open.
pub shortest_paths_total :
    (fuel our_router_id : ℕ) (routers : List PwospfRouter) (k : ℕ)
    → length routers < fuel
    → get_router_by_rid our_router_id (reset_all our_router_id routers) 0 ≡ some k
    → (out : List PwospfRouter) × (shortest_paths fuel our_router_id routers ≡ some out)
      × NoneNearer infinity out
unfolding shortest_paths search_loop
shortest_paths_total zero our routers k h e = absurd (omega arith)
shortest_paths_total (suc fuel) our routers k h e =
    let start = reset_all our routers in
    let (out, ended, none_left) = search_loop_total fuel (settle k start) (
      omega (
        arith,
        open_count-settle_le k start,
        tally-le-length is_open start,
        length-reset_all our routers,
      )) in
    (out, rw (e, search_loop) ended, all_settled out none_left)
