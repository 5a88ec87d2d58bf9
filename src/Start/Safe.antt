-- ===== src/Start/Safe.antt =====
-- The start succeeds, and the routing protocol is safe from there on.
use osnt_plus.Prelude.{
  ℕ, ◌<◌, ◌≡◌, refl, ◌⊎◌, inl, inr, Bool, true, false, none, some, List, [], ◌∷◌, ◌++◌, arith,
  ==_refl, All, All-imp, tally, tally-append, map, Bool-cases, bit_and, if◌then◌else◌,
}
use mathlib.Core.List.{append-nil}
use osnt_plus.Prelude.Int.{ℤ}
use osnt_plus.State.{IfaceEntry, PwospfInterface, RouterState, lock_free, with_lock}
use osnt_plus.Packet.{Packet}
use osnt_plus.Pwospf.Hello.{on_subnet}
use osnt_plus.Pwospf.WellFormed.{WellFormed, Ready}
use osnt_plus.Pwospf.Events.{Event, AllFit, run, run-WellFormed}
use osnt_plus.Start.Lines.{has_default, read_lines_lem, default_route_missing, default_route_found}
use osnt_plus.Start.Fresh.{
  IsUsable, Fresh, Aside-WellFormed, init_total, add_filter-Aside, add_interfaces_total,
}
use osnt_plus.Start.{
  Tables, VnsIf, RtableLine, line_route, read_lines, init_rtable, connected, our_first,
  init_router_list, init_ospf, start, all_routers, pwospf_name,
}

connected-linked :
    (l : List IfaceEntry) → All (λ iface. 0 < tally (on_subnet iface) (connected l)) l
unfolding connected
connected-linked [] = tt
connected-linked (ie ∷ n) = (
  ground (arith, ==_refl (bit_and ie.ip ie.mask), ==_refl ie.mask),
  All-imp (λ iface. 0 < tally (on_subnet iface) (connected n))
      (λ iface. 0 < tally (on_subnet iface) (connected (ie ∷ n))) n (λ iface h. ground (arith, h))
      (connected-linked n),
)

-- The state once the routers are listed, with further interfaces of ours.
module _ (rs : RouterState) (now : ℕ) (extra : List PwospfInterface) where
  abbrev listed : RouterState
  listed = record rs {
    pwospf_router_list =
        record (our_first now rs) { interface_list = connected rs.if_list ++ extra } ∷ [];
  }

  listed-WellFormed : WellFormed listed
  listed-WellFormed = record {
    ours = rw (==_refl rs.router_id) refl;
    once = refl;
    linked = rw (==_refl rs.router_id) (
        All-imp (λ iface. 0 < tally (on_subnet iface) (connected rs.if_list))
          (λ iface. 0 < tally (on_subnet iface) (connected rs.if_list ++ extra)) rs.if_list
          (λ iface h. omega (arith, tally-append (on_subnet iface) (connected rs.if_list) extra, h))
          (connected-linked rs.if_list));
  }

module _ (now : ℕ) (lines : List RtableLine) (rs : RouterState) (fresh : Fresh rs) where
  abbrev first_listed : RouterState
  first_listed = record rs { pwospf_router_list = our_first now rs ∷ [] }

  routes_read : read_lines (map some lines) rs.rtable ≡ some (map line_route lines)
  routes_read = rw fresh.no_routes (read_lines_lem lines [])

  -- What `init_rtable` makes of the state that `init_router_list` leaves.
  init_rtable-WellFormed :
      has_default lines ≡ false
      → (rs' : RouterState) × (init_rtable (map some lines) first_listed ≡ some rs')
        × WellFormed rs'
  unfolding init_rtable
  init_rtable-WellFormed plain =
      let read : RouterState = record rs { rtable = map line_route lines; dijkstra_dirty = true } in
      (
        record read { pwospf_router_list = our_first now rs ∷ [] },
        rw (init_rtable, routes_read, default_route_missing lines plain) refl,
        rw append-nil at (listed-WellFormed read now []),
      )

  init_rtable-none : has_default lines ≡ true → init_rtable (map some lines) first_listed ≡ none
  unfolding init_rtable with_lock
  init_rtable-none default =
      let (pi, found) = default_route_found lines default in
      rw (init_rtable, routes_read, found, fresh.no_lock) refl

if-Ready : (b : Bool) (x y : RouterState) → Ready x → Ready y → Ready (if b then x else y)
if-Ready true x y hx hy = hx
if-Ready false x y hx hy = hy

module _ (strcmp : List ℕ → List ℕ → ℤ) (t : Tables) where
  init_ospf-Ready : (rs : RouterState) → WellFormed rs → Ready (init_ospf strcmp t rs)
  unfolding init_ospf
  init_ospf-Ready rs wf =
      let timed : RouterState = record rs {
        pwospf_hello_interval = 5;
        pwospf_lsu_interval = 30;
        pwospf_lsu_broadcast = true;
        pwospf_router_list_lock = lock_free;
      } in
      let same : WellFormed timed = record { ours = wf.ours; once = wf.once; linked = wf.linked } in
      let aside = add_filter-Aside strcmp t timed all_routers pwospf_name in
      if-Ready rs.is_netfpga _ _
        (record { sound = Aside-WellFormed timed _ aside same; free = aside.lock_eq })
        (record { sound = same; free = refl })

  init_router_list_first :
      (now : ℕ) (rs : RouterState)
      → rs.pwospf_router_list ≡ []
      → init_router_list now rs ≡ some (record rs { pwospf_router_list = our_first now rs ∷ [] })
  unfolding init_router_list
  init_router_list_first now rs e = rw (init_router_list, e) refl

  -- Where every interface is one of the CPU's or has a port, and every line of the file of routes
  -- is read: if a line is the default route, the start fails, as it locks a mutex that is not yet
  -- allocated; if none is, the start succeeds, and so do the handlers of any events of the routing
  -- protocol after it that fit the states in which they come, and the state that they end in is
  -- well-formed, with the mutex of the router list free.
  pub run-start :
      (now : ℕ) (rands : List ℕ) (ifs : List VnsIf) (lines : List RtableLine)
      (output : Packet → List ℕ → Bool) (events : List Event)
      → All IsUsable ifs
      → ((rs : RouterState)
          → start strcmp t now rands ifs (map some lines) ≡ some rs
          → AllFit output events rs)
      → ((has_default lines ≡ true) × (start strcmp t now rands ifs (map some lines) ≡ none))
        ⊎ ((has_default lines ≡ false)
            × ((rs rs' : RouterState) × (start strcmp t now rands ifs (map some lines) ≡ some rs)
                × (run output events rs ≡ some rs')
                × WellFormed rs'
                × (rs'.pwospf_router_list_lock ≡ lock_free)))
  unfolding start
  run-start now rands ifs lines output events usable fit =
      let (rs0, e0, fresh0) = init_total t rands in
      let (rs1, e1, fresh) = add_interfaces_total strcmp t ifs rs0 usable fresh0 in
      let e2 = init_router_list_first now rs1 fresh.no_routers in
      elim (Bool-cases (has_default lines)) [
        | inl default ↦
            inl (default, rw (start, e0, e1, e2, init_rtable-none now lines rs1 fresh default) refl)
        | inr plain ↦
            let (rs3, e3, wf) = init_rtable-WellFormed now lines rs1 fresh plain in
            let rs4 = init_ospf strcmp t rs3 in
            let starts : start strcmp t now rands ifs (map some lines) ≡ some rs4 =
              rw (start, e0, e1, e2, e3) refl in
            let ready = init_ospf-Ready rs3 wf in
            let (rs', runs, wf', free') =
              run-WellFormed output events rs4 (fit rs4 starts) ready.free ready.sound in
            inr (plain, (rs4, rs', starts, runs, wf', free'))
      ]
