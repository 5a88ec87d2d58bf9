-- ===== src/Pwospf/Events.antt =====
-- The events of the routing protocol, which the router's lock keeps apart: a packet on one of our
-- ports, and the passes of `pwospf_hello_thread`, `pwospf_lsu_thread` and `pwospf_lsu_timeout_thread`.
-- Each carries what `time` returns.
use osnt_plus.Prelude.{
  ℕ, ◌≡◌, refl, sym, ◌∙◌, Bool, true, false, Option, none, some, List, [], ◌∷◌, Bool-cases,
  Option-cases, if◌then◌else◌, inl, inr, ◌==◌, ==_iff,
}
use osnt_plus.State.{IfaceEntry, RouterState, lock_free}
use osnt_plus.Packet.{Packet}
use osnt_plus.Iface.{get_iface, iface_is_active}
use osnt_plus.Pwospf.Whole.{
  Whole, header-Whole, adverts-Whole, copy-Whole, is_pwospf_packet_valid-Checked, Checked-Whole,
}
use osnt_plus.Pwospf.{
  hello_mask, pwospf_hdr, pwospf_type, type_hello, type_lsu, is_pwospf_packet_valid,
}
use osnt_plus.Pwospf.Hello.{broadcast_pwospf_hello_packet}
use osnt_plus.Pwospf.Lsu.{process_pwospf_packet, lsu_pass, lsu_timeout_pass}
use osnt_plus.Pwospf.WellFormed.{WellFormed, Ready}
use osnt_plus.Pwospf.WellFormed.Hello.{process_pwospf_hello_packet-Ready}
use osnt_plus.Pwospf.WellFormed.Lsu.{
  process_pwospf_lsu_packet-Ready, lsu_pass-Ready, lsu_timeout_pass-Ready,
}
use osnt_plus.Pwospf.WellFormed.Timeouts.{broadcast_pwospf_hello_packet-Ready}

pub data Event : Type 0 where
  packet : ℕ → Packet → List ℕ → Event
  hello_thread lsu_thread lsu_timeout_thread : ℕ → Event

module _ (output : Packet → List ℕ → Bool) where
  -- `process_packet` drops a frame of a port that is not active.
  unfoldable pub handle : Event → RouterState → Option RouterState
  handle (packet now p interface) rs =
      if iface_is_active rs.if_list interface
      then process_pwospf_packet now rs p interface
      else some rs
  handle (hello_thread now) rs = broadcast_pwospf_hello_packet output now rs
  handle (lsu_thread now) rs = lsu_pass now rs
  handle (lsu_timeout_thread now) rs = lsu_timeout_pass now rs

  unfoldable pub run : List Event → RouterState → Option RouterState
  unfolding handle
  run [] rs = some rs
  run (e ∷ n) rs = elim (handle e rs) [ none ↦ none | some rs' ↦ run n rs' ]

active_known :
    (l : List IfaceEntry) (interface : List ℕ)
    → iface_is_active l interface ≡ true
    → (iface : IfaceEntry) × (get_iface l interface ≡ some iface)
unfolding iface_is_active
active_known l interface h = elim (Option-cases (get_iface l interface)) [
  | inl e ↦ absurd (clash (rw (iface_is_active, e) at h))
  | inr (iface, e) ↦ (iface, e)
]
  where
    clash : false ≡ true → ⊥
    clash e = cc

-- A hello packet has the mask of the port that it comes in on.
abbrev pub FitsMask : RouterState → Packet → List ℕ → Type 0
FitsMask rs p interface =
    (iface : IfaceEntry)
    → get_iface rs.if_list interface ≡ some iface
    → pwospf_type p pwospf_hdr ≡ type_hello
    → iface.mask ≡ hello_mask p pwospf_hdr

-- What is asked of an event in the state in which it comes
abbrev pub Fits : Event → RouterState → Type 0
Fits (packet now p interface) rs = Whole p × FitsMask rs p interface
Fits (hello_thread now) rs = Unit
Fits (lsu_thread now) rs = Unit
Fits (lsu_timeout_thread now) rs = Unit

-- Each event fits when it comes.
abbrev pub AllFit : (Packet → List ℕ → Bool) → List Event → RouterState → Type 0
AllFit output [] rs = Unit
AllFit output (e ∷ n) rs =
    Fits e rs × ((rs' : RouterState) → handle output e rs ≡ some rs' → AllFit output n rs')

process_pwospf_packet-Ready :
    (now : ℕ) (rs : RouterState) (p : Packet) (interface : List ℕ) (iface : IfaceEntry)
    → get_iface rs.if_list interface ≡ some iface
    → Whole p
    → FitsMask rs p interface
    → Ready rs
    → (rs' : RouterState) × (process_pwospf_packet now rs p interface ≡ some rs') × Ready rs'
unfolding process_pwospf_packet
process_pwospf_packet-Ready now rs p interface iface port whole mask ready =
    let checked = is_pwospf_packet_valid rs.area_id rs.router_id p in
    let held = header-Whole p whole in
    let after = is_pwospf_packet_valid-Checked rs.area_id rs.router_id p in
    let whole' = Checked-Whole p checked.0 after whole in
    elim (Bool-cases checked.1) [
      | inr invalid ↦ (rs, simp (process_pwospf_packet, held, invalid) refl, ready)
      | inl valid ↦ elim (Bool-cases (pwospf_type checked.0 pwospf_hdr == type_hello)) [
        | inl hello ↦
            let kind = (==_iff _ _).0 hello in
            let (rs', runs, ready') =
              process_pwospf_hello_packet-Ready now rs checked.0 interface iface port
                (whole'.hello kind) (mask iface port (sym after.type ∙ kind) ∙ sym after.mask)
                ready in
            (rs', simp (process_pwospf_packet, held, valid, hello) runs, ready')
        | inr no_hello ↦ elim (Bool-cases (pwospf_type checked.0 pwospf_hdr == type_lsu)) [
          | inl lsu ↦
              let kind = (==_iff _ _).0 lsu in
              let (rs', runs, ready') =
                process_pwospf_lsu_packet-Ready now rs checked.0
                  (adverts-Whole checked.0 whole' kind) (copy-Whole checked.0 whole' kind) ready in
              (rs', simp (process_pwospf_packet, held, valid, no_hello, lsu) runs, ready')
          | inr other ↦ (rs, simp (process_pwospf_packet, held, valid, no_hello, other) refl, ready)
        ]
      ]
    ]

module _ (output : Packet → List ℕ → Bool) where
  handle-Ready :
      (e : Event) (rs : RouterState)
      → Fits e rs
      → Ready rs
      → (rs' : RouterState) × (handle output e rs ≡ some rs') × Ready rs'
  unfolding handle
  handle-Ready (packet now p interface) rs (whole, mask) ready =
      elim (Bool-cases (iface_is_active rs.if_list interface)) [
        | inl active ↦
            let (iface, port) = active_known rs.if_list interface active in
            let (rs', runs, ready') =
              process_pwospf_packet-Ready now rs p interface iface port whole mask ready in
            (rs', rw (handle, active) runs, ready')
        | inr down ↦ (rs, rw (handle, down) refl, ready)
      ]
  handle-Ready (hello_thread now) rs fits ready =
      broadcast_pwospf_hello_packet-Ready output now rs ready
  handle-Ready (lsu_thread now) rs fits ready = lsu_pass-Ready now rs ready
  handle-Ready (lsu_timeout_thread now) rs fits ready = lsu_timeout_pass-Ready now rs ready

  run-Ready :
      (events : List Event) (rs : RouterState)
      → AllFit output events rs
      → Ready rs
      → (rs' : RouterState) × (run output events rs ≡ some rs') × Ready rs'
  unfolding run
  run-Ready [] rs fit ready = (rs, refl, ready)
  run-Ready (e ∷ n) rs fit ready =
      let (rs1, runs1, ready1) = handle-Ready e rs (fit.0) ready in
      let (rs', runs, ready') = run-Ready n rs1 (fit.1 rs1 runs1) ready1 in
      (rs', rw (run, runs1) runs, ready')

  -- From a well-formed state, in which our router is on the list, no router is there twice and each
  -- port has an interface of our router on its subnet, and with the mutex of the router list free,
  -- the handlers of any sequence of hello and update packets and of passes of the hello, update and
  -- timeout threads all succeed, where each packet holds what its length and its number of
  -- advertisements say, an update has a length of 28 at least, and a hello packet has the mask of
  -- the port that it comes in on: no assertion fails, no null pointer is followed, no byte outside
  -- the packet or its copy is touched and no handler waits for ever. The state that they end in is
  -- well-formed, with the mutex free.
  pub run-WellFormed :
      (events : List Event) (rs : RouterState)
      → AllFit output events rs
      → rs.pwospf_router_list_lock ≡ lock_free
      → WellFormed rs
      → (rs' : RouterState) × (run output events rs ≡ some rs')
        × WellFormed rs'
        × (rs'.pwospf_router_list_lock ≡ lock_free)
  run-WellFormed events rs fit free wf =
      let (rs', runs, ready') = run-Ready events rs fit (record { sound = wf; free = free }) in
      (rs', runs, ready'.sound, ready'.free)
