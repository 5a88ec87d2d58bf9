-- ===== src/Pwospf/WellFormed.antt =====
-- The state of the routing protocol as its handlers need it.
pub mod Hello
pub mod Lsu
pub mod Timeouts
use osnt_plus.Prelude.{
  has, distinct, ℕ, ◌<◌, ◌≡◌, refl, ap, ◌∙◌, Bool, true, false, Option, none, some, Bool-cases,
  if◌then◌else◌, All, All-imp, inl, inr,
}
use osnt_plus.State.{lock_free, IfaceEntry, PwospfRouter, RouterState}
use osnt_plus.Packet.{Packet}
use osnt_plus.Pwospf.Flood.{broadcast_pwospf_lsu_packet, propagate_pwospf_changes}
use osnt_plus.Pwospf.Routers.{ids, links}
use osnt_plus.Pwospf.Keeps.{Same, Same-refl, Kept, propagate_pwospf_changes-Kept}

-- Our router is on the list, no router is there twice, and each of our ports has an interface of our
-- router on its subnet.
pub record WellFormed (rs : RouterState) : Type 0 where
  pub ours : has rs.router_id (ids rs.pwospf_router_list) ≡ true
  pub once : distinct (ids rs.pwospf_router_list) ≡ true
  pub linked : All (λ iface. 0 < links iface rs.router_id rs.pwospf_router_list) rs.if_list

pub Kept-WellFormed : (rs rs' : RouterState) → Kept rs rs' → WellFormed rs → WellFormed rs'
Kept-WellFormed rs rs' kept wf = record {
  ours = rw (kept.id_eq, kept.routers.ids_eq) wf.ours;
  once = rw kept.routers.ids_eq wf.once;
  linked =
      rw (kept.id_eq, kept.if_list_eq)
        (All-imp (λ iface. 0 < links iface rs.router_id rs.pwospf_router_list)
          (λ iface. 0 < links iface rs.router_id rs'.pwospf_router_list) rs.if_list
          (λ iface h. rw (kept.routers.links_eq iface rs.router_id) h) wf.linked);
}

-- The state between two events: well-formed, and the mutex of the router list is free.
pub record Ready (rs : RouterState) : Type 0 where
  pub sound : WellFormed rs
  pub free : rs.pwospf_router_list_lock ≡ lock_free

pub Kept-Ready : (rs rs' : RouterState) → Kept rs rs' → Ready rs → Ready rs'
Kept-Ready rs rs' kept r = record {
  sound = Kept-WellFormed rs rs' kept r.sound;
  free = kept.lock_eq ∙ r.free;
}

-- The end of the handlers.
pub propagate_if-Ready :
    (b : Bool) (now : ℕ) (rs : RouterState)
    → Ready rs
    → (rs' : RouterState) × ((if b then propagate_pwospf_changes now rs else some rs) ≡ some rs')
      × Ready rs'
propagate_if-Ready false now rs r = (rs, refl, r)
propagate_if-Ready true now rs r =
    let (rs', runs, kept) = propagate_pwospf_changes-Kept now rs r.sound.ours in
    (rs', runs, Kept-Ready rs rs' kept r)

pub broadcast_if-Ready :
    (b : Bool) (rs : RouterState) (lsu : Packet) (src_ip : Option ℕ)
    → Ready rs
    → Ready (if b then broadcast_pwospf_lsu_packet rs lsu src_ip else rs)
unfolding broadcast_pwospf_lsu_packet
broadcast_if-Ready false rs lsu src_ip r = r
broadcast_if-Ready true rs lsu src_ip r = record {
  sound = record { ours = r.sound.ours; once = r.sound.once; linked = r.sound.linked };
  free = r.free;
}
