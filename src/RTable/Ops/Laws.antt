-- ===== src/RTable/Ops/Laws.antt =====
-- What the operations on the routing table guarantee.
use mathlib.Core.List.{Perm}
use osnt_plus.Prelude.{
  ℕ, ◌≡◌, ◌≢◌, refl, sym, ap, ◌∙◌, Bool, true, false, not, ◌||◌, none, some, List, [], ◌∷◌, ◌++◌,
  if◌then◌else◌, All, All-imp, keep, tally, arith, inl, inr, Bool-cases,
}
use osnt_plus.State.{RtableEntry, RouterState, RegWrite}
use osnt_plus.RTable.{sort_rtable}
use osnt_plus.RTable.Sort.{IsOrdered, sort_rtable_lem, All-sort_rtable}
use osnt_plus.RTable.Hardware.{one_hot_port}
use osnt_plus.RTable.Hardware.Rows.{KnownPorts, write_rtable_to_hw_total}
use osnt_plus.RTable.Ops.{
  new_route, same_route, del_loop, on_iface, deactivate_loop, activate_loop,
  trigger_rtable_modified, add_route, del_route, deactivate_routes,
}

-- Loops
del_loop_lem :
    (dest mask : ℕ) (r : List RtableEntry)
    → del_loop dest mask r
      ≡ (keep (λ e. not (same_route dest mask e)) r, tally (same_route dest mask) r)
unfolding del_loop
del_loop_lem dest mask [] = refl
del_loop_lem dest mask (e ∷ n) = ground (arith, del_loop_lem dest mask n)

-- Every entry, active or not, is on an interface with a port number.
abbrev pub AllPorts : List RtableEntry → Type 0
AllPorts = All (λ e. one_hot_port e.iface ≢ none)

AllPorts-known : (r : List RtableEntry) → AllPorts r → KnownPorts r
AllPorts-known r = All-imp _ _ r (λ e k _. k)

module _ {ℓ} (P : RtableEntry → Type ℓ) where
  All-if :
      (b : Bool) (xs ys : List RtableEntry)
      → (b ≡ true → All P xs)
      → (b ≡ false → All P ys)
      → All P (if b then xs else ys)
  All-if true xs ys f g = f refl
  All-if false xs ys f g = g refl

  All-keep : (p : RtableEntry → Bool) (r : List RtableEntry) → All P r → All P (keep p r)
  All-keep p [] k = tt
  All-keep p (e ∷ n) k =
      All-if (p e) (e ∷ keep p n) (keep p n) (λ _. (k.0, All-keep p n k.1)) (λ _. All-keep p n k.1)

  -- What holds of each entry, switched off or not, holds after `deactivate_routes`.
  All-deactivate :
      (Q : RtableEntry → Type ℓ) (interface : List ℕ) (r : List RtableEntry)
      → ((e : RtableEntry) → Q e → on_iface interface e ≡ true → P (record e { is_active = false }))
      → ((e : RtableEntry) → Q e → on_iface interface e ≡ false → P e)
      → All Q r
      → All P (deactivate_loop interface r)
  unfolding deactivate_loop
  All-deactivate Q interface [] off on h = tt
  All-deactivate Q interface (e ∷ n) off on h =
      let rest = All-deactivate Q interface n off on h.1 in
      All-if (on_iface interface e) _ _
        (λ t. All-if e.is_static _ _ (λ _. (off e h.0 t, rest)) (λ _. rest))
        (λ f. (on e h.0 f, rest))

-- Switching an entry on or off leaves its interface as it is.
pub AllPorts-deactivate :
    (interface : List ℕ) (r : List RtableEntry)
    → AllPorts r
    → AllPorts (deactivate_loop interface r)
AllPorts-deactivate interface r h =
    All-deactivate _ (λ e. one_hot_port e.iface ≢ none) interface r (λ e k _. k) (λ e k _. k) h

iface-activate :
    (b : Bool) (e : RtableEntry) → (if b then record e { is_active = true } else e).iface ≡ e.iface
iface-activate true e = refl
iface-activate false e = refl

pub AllPorts-activate :
    (interface : List ℕ) (r : List RtableEntry) → AllPorts r → AllPorts (activate_loop interface r)
unfolding activate_loop
AllPorts-activate interface [] h = tt
AllPorts-activate interface (e ∷ n) h =
    (rw (iface-activate (on_iface interface e) e) h.0, AllPorts-activate interface n h.1)

All-true : (r : List RtableEntry) → All (λ _. Unit {0}) r
All-true [] = tt
All-true (e ∷ n) = (tt, All-true n)

-- The entry is not an active one of the interface.
abbrev pub IsOff : List ℕ → RtableEntry → Type 0
IsOff interface e = e.is_active ≡ true → on_iface interface e ≡ false

pub deactivate_loop-IsOff :
    (interface : List ℕ) (r : List RtableEntry)
    → All (IsOff interface) (deactivate_loop interface r)
deactivate_loop-IsOff interface r =
    All-deactivate (IsOff interface) (λ _. Unit {0}) interface r (λ e _ _ on. cc) (λ e _ f _. f)
      (All-true r)

deactivate_loop-others :
    (interface : List ℕ) (r : List RtableEntry)
    → keep (λ e. not (on_iface interface e)) (deactivate_loop interface r)
      ≡ keep (λ e. not (on_iface interface e)) r
unfolding deactivate_loop
deactivate_loop-others interface [] = refl
deactivate_loop-others interface (e ∷ n) = ground (arith, deactivate_loop-others interface n)

-- On the interface, static routes are active.
abbrev pub StaticUp : List ℕ → RtableEntry → Type 0
StaticUp interface e = on_iface interface e ≡ true → e.is_static ≡ true → e.is_active ≡ true

module _ (width address : ℕ) where
  -- On a device, every entry must be on a known port.
  abbrev pub PortsOk : RouterState → List RtableEntry → Type 0
  PortsOk rs r = rs.is_netfpga ≡ true → AllPorts r

  -- The state after a change that left the table `r`: the table sorted, the mode as it was.
  abbrev pub Leaves : RouterState → List RtableEntry → RouterState → Type 0
  Leaves rs r rs' =
      (rs'.rtable ≡ sort_rtable r)
      × Perm rs'.rtable r
      × IsOrdered rs'.rtable
      × PortsOk rs' rs'.rtable
      × (rs'.is_netfpga ≡ rs.is_netfpga)

  -- What a trigger leaves of the state.
  pub trigger_shape :
      (rs : RouterState)
      → PortsOk rs rs.rtable
      → (log : List RegWrite) × (trigger_rtable_modified width address rs
          ≡ some (record rs { rtable = sort_rtable rs.rtable; writes = log }))
  unfolding trigger_rtable_modified
  trigger_shape rs ok = elim (Bool-cases rs.is_netfpga) [
    | inl on ↦
        let (log, e) =
          write_rtable_to_hw_total width address (sort_rtable rs.rtable) rs.writes
            (AllPorts-known _ (All-sort_rtable _ rs.rtable (ok on))) in
        (log, ground arith)
    | inr off ↦ (rs.writes, ground arith)
  ]

  trigger_total :
      (rs : RouterState)
      → PortsOk rs rs.rtable
      → (rs' : RouterState) × (trigger_rtable_modified width address rs ≡ some rs')
        × (rs'.rtable ≡ sort_rtable rs.rtable)
        × (rs'.is_netfpga ≡ rs.is_netfpga)
  trigger_total rs ok =
      let (log, e) = trigger_shape rs ok in
      (record rs { rtable = sort_rtable rs.rtable; writes = log }, e, refl, refl)

  trigger-Leaves :
      (rs : RouterState)
      → PortsOk rs rs.rtable
      → (rs' : RouterState) × (trigger_rtable_modified width address rs ≡ some rs')
        × Leaves rs rs.rtable rs'
  trigger-Leaves rs ok =
      let (rs', e, t, m) = trigger_total rs ok in
      let (p, o) = sort_rtable_lem rs.rtable in
      (rs', e, (t, rw t p, rw t o, (λ on. rw t (All-sort_rtable _ rs.rtable (ok (sym m ∙ on)))), m))

  -- Where every entry, the new one included, is on a known port or there is no device, `add_route`
  -- succeeds and leaves the table with the new route, sorted.
  pub add_route_lem :
      (rs : RouterState) (dest gateway mask : ℕ) (interface : List ℕ)
      → PortsOk rs (rs.rtable ++ new_route dest gateway mask interface ∷ [])
      → (rs' : RouterState) × (add_route width address rs dest gateway mask interface ≡ some rs')
        × Leaves rs (rs.rtable ++ new_route dest gateway mask interface ∷ []) rs'
  unfolding add_route
  add_route_lem rs dest gateway mask interface ok =
      trigger-Leaves
        (record rs { rtable = rs.rtable ++ new_route dest gateway mask interface ∷ [] }) ok

  -- Where every entry is on a known port or there is no device, `del_route` removes exactly the
  -- routes with that destination and mask, returns their number, and leaves the rest sorted.
  pub del_route_lem :
      (rs : RouterState) (dest mask : ℕ)
      → PortsOk rs rs.rtable
      → (rs' : RouterState) × (del_route width address rs dest mask
          ≡ some (rs', tally (same_route dest mask) rs.rtable))
        × Leaves rs (keep (λ e. not (same_route dest mask e)) rs.rtable) rs'
  unfolding del_route
  del_route_lem rs dest mask ok =
      let (rs', e, l) =
        trigger-Leaves (record rs { rtable = keep (λ e. not (same_route dest mask e)) rs.rtable })
          (λ on. All-keep _ (λ e. not (same_route dest mask e)) rs.rtable (ok on)) in
      (
        rs',
        rw (del_loop_lem dest mask rs.rtable, del_route, e)
            (ap (λ (k : ℕ). some (rs', k))
              (ap (λ (p : List RtableEntry × ℕ). p.1) (del_loop_lem dest mask rs.rtable))),
        l,
      )

  -- Where every entry is on a known port or there is no device, `deactivate_routes` leaves no
  -- active route whose interface begins with the given name, and keeps the routes of the other
  -- interfaces.
  pub deactivate_routes_lem :
      (rs : RouterState) (interface : List ℕ)
      → PortsOk rs rs.rtable
      → (rs' : RouterState) × (deactivate_routes width address rs interface ≡ some rs')
        × Leaves rs (deactivate_loop interface rs.rtable) rs'
        × All (IsOff interface) rs'.rtable
        × (keep (λ e. not (on_iface interface e)) (deactivate_loop interface rs.rtable)
            ≡ keep (λ e. not (on_iface interface e)) rs.rtable)
  unfolding deactivate_routes
  deactivate_routes_lem rs interface ok =
      let (rs', e, l) =
        trigger-Leaves (record rs { rtable = deactivate_loop interface rs.rtable })
          (λ on. AllPorts-deactivate interface rs.rtable (ok on)) in
      (
        rs',
        e,
        l,
        rw l.0 (All-sort_rtable _ _ (deactivate_loop-IsOff interface rs.rtable)),
        deactivate_loop-others interface rs.rtable,
      )

-- The routes that stay in the table when an interface goes down and comes up again.
abbrev pub stays : List ℕ → RtableEntry → Bool
stays interface e = e.is_static || not (on_iface interface e)
