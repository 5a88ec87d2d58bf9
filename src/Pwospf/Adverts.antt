-- ===== src/Pwospf/Adverts.antt =====
-- The advertisements of a link state update: reading them, `populate_pwospf_router_interface_list`,
-- which brings a router's interfaces into line with them, and `construct_pwospf_lsu_adv`, which
-- writes them.
pub mod Sync
use osnt_plus.Prelude.{
  ℕ, zero, suc, ◌+◌, ◌*◌, Bool, true, false, not, ◌&&◌, ◌||◌, List, [], ◌∷◌, ◌++◌, ◌==◌,
  if◌then◌else◌, bit_and,
}
use osnt_plus.Net.{ntohl}
use osnt_plus.State.{PwospfInterface}
use osnt_plus.Packet.{Packet, get32, set32}
use osnt_plus.Pwospf.{lsu_data, lsu_num}

-- `struct pwospf_lsu_adv`
pub record LsuAdv : Type 0 where
  pub sub : ℕ
  pub mask : ℕ
  pub rid : ℕ

-- The advertisement at offset `at`.
unfoldable pub adv_at : Packet → ℕ → LsuAdv
adv_at p at = record { sub = get32 p at; mask = get32 p (at + 4); rid = get32 p (at + 8) }

-- `n` advertisements from `at` on
unfoldable pub adverts_at : Packet → ℕ → ℕ → List LsuAdv
adverts_at p at zero = []
adverts_at p at (suc n) = adv_at p at ∷ adverts_at p (at + 12) n

-- The advertisements of the update whose header is at `h`.
unfoldable pub adverts : Packet → ℕ → List LsuAdv
adverts p h = adverts_at p (lsu_data h) (ntohl (lsu_num p h))

-- The entry that a router without interfaces gets.
abbrev pub interface_of : LsuAdv → PwospfInterface
interface_of a = record {
  subnet = bit_and a.sub a.mask;
  mask = a.mask;
  router_id = a.rid;
  is_active = false;
}

-- The entry that is added to those there are: the subnet is masked by itself.
abbrev pub added_interface : LsuAdv → PwospfInterface
added_interface a = record (interface_of a) { subnet = bit_and a.sub a.sub }

abbrev pub is_advertised_by : PwospfInterface → LsuAdv → Bool
is_advertised_by e a = e.subnet == bit_and a.sub a.mask && e.mask == a.mask && e.router_id == a.rid

-- The inner loops: whether some entry has the advertisement, and whether some advertisement is for
-- the entry.
unfoldable pub some_entry : List PwospfInterface → LsuAdv → Bool
some_entry [] a = false
some_entry (e ∷ n) a = is_advertised_by e a || some_entry n a

unfoldable pub is_advertised : List LsuAdv → PwospfInterface → Bool
is_advertised [] e = false
is_advertised (a ∷ n) e = is_advertised_by e a || is_advertised n e

-- "check if we have new advertisements": the list, and `changed_list`
unfoldable pub add_adverts : List LsuAdv → List PwospfInterface → Bool → List PwospfInterface × Bool
add_adverts [] ifs changed = (ifs, changed)
add_adverts (a ∷ n) ifs changed =
    let known = some_entry ifs a in
    add_adverts n (if known then ifs else ifs ++ added_interface a ∷ []) (not known || changed)

-- "check if there are any missing advertisements"
unfoldable pub drop_missing :
    List LsuAdv → List PwospfInterface → Bool → List PwospfInterface × Bool
drop_missing advs [] changed = ([], changed)
drop_missing advs (e ∷ n) changed =
    let found = is_advertised advs e in
    let (n', changed') = drop_missing advs n (not found || changed) in
    (if found then e ∷ n' else n', changed')

abbrev pub interfaces_of : List LsuAdv → List PwospfInterface
interfaces_of [] = []
interfaces_of (a ∷ n) = interface_of a ∷ interfaces_of n

-- `populate_pwospf_router_interface_list`: the interfaces, and whether they changed.
unfoldable pub populate_interface_list :
    List PwospfInterface → List LsuAdv → List PwospfInterface × Bool
unfolding add_adverts drop_missing
populate_interface_list [] advs = (interfaces_of advs, true)
populate_interface_list (e ∷ n) advs =
    let (ifs, changed) = add_adverts advs (e ∷ n) false in drop_missing advs ifs changed

-- `construct_pwospf_lsu_adv`: the advertisements of the interfaces, from `at` on.
abbrev pub advert_of : PwospfInterface → LsuAdv
advert_of e = record { sub = e.subnet; mask = e.mask; rid = e.router_id }

unfoldable pub write_adv : Packet → ℕ → LsuAdv → Packet
write_adv p at a = set32 (set32 (set32 p at a.sub) (at + 4) a.mask) (at + 8) a.rid

unfoldable pub write_adverts : Packet → ℕ → List PwospfInterface → Packet
unfolding write_adv
write_adverts p at [] = p
write_adverts p at (e ∷ n) = write_adverts (write_adv p at (advert_of e)) (at + 12) n
