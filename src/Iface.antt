-- ===== src/Iface.antt =====
-- scone/or_iface.c: the search in the interface list.
pub mod Mac
pub mod Toggle
use osnt_plus.Prelude.{
  ℕ, Bool, true, false, ◌&&◌, ◌||◌, Option, none, some, List, [], ◌∷◌, ◌==◌, if◌then◌else◌,
}
use osnt_plus.Net.{strncmp_eq}
use osnt_plus.State.{IfaceEntry, NbrRouter}

abbrev pub sr_namelen : ℕ
sr_namelen = 32

-- `iface_match_ip`: the loop goes through the whole list.
unfoldable pub iface_match_ip : List IfaceEntry → ℕ → Bool
iface_match_ip [] ip = false
iface_match_ip (e ∷ n) ip = (e.is_active && e.ip == ip) || iface_match_ip n ip

-- `get_iface`: the first interface of that name, `none` for a null pointer.
unfoldable pub get_iface : List IfaceEntry → List ℕ → Option IfaceEntry
get_iface [] interface = none
get_iface (e ∷ n) interface =
    if strncmp_eq interface e.name sr_namelen then some e else get_iface n interface

-- `iface_update`: the new list, and whether an interface was updated.
unfoldable pub iface_update : List IfaceEntry → List ℕ → ℕ → ℕ → List IfaceEntry × Bool
iface_update [] interface ip mask = ([], false)
iface_update (e ∷ n) interface ip mask =
    let (n', updated) = iface_update n interface ip mask in
    if strncmp_eq interface e.name sr_namelen
    then (record e { ip = ip; mask = mask } ∷ n, true)
    else (e ∷ n', updated)

unfoldable pub iface_is_active : List IfaceEntry → List ℕ → Bool
unfolding get_iface
iface_is_active if_list interface = elim (get_iface if_list interface) [
  | none ↦ false
  | some e ↦ e.is_active
]

unfoldable pub get_nbr_by_rid : List NbrRouter → ℕ → Option NbrRouter
get_nbr_by_rid [] rid = none
get_nbr_by_rid (nbr ∷ n) rid = if nbr.router_id == rid then some nbr else get_nbr_by_rid n rid
