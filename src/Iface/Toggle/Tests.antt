-- ===== src/Iface/Toggle/Tests.antt =====
-- A router with two ports, of which the first goes down and comes up.
use osnt_plus.Prelude.{ℕ, true, false, none, List, [], ◌∷◌}
use osnt_plus.State.{IfaceEntry, RtableEntry, PwospfRouter, RouterState}
use osnt_plus.RTable.Hardware.{eth0, eth1}
use osnt_plus.Pwospf.WellFormed.{WellFormed}
use osnt_plus.Start.{zeroed}
use osnt_plus.Iface.Toggle.{own_adv}

-- 10.0.1.1 and 10.0.2.1
abbrev port : List ℕ → ℕ → IfaceEntry
port name ip = record {
  name = name;
  addr = 2 ∷ 0 ∷ 0 ∷ 0 ∷ 0 ∷ 1 ∷ [];
  ip = ip;
  mask = 16777215;
  speed = 0;
  is_active = true;
  last_sent_hello = 0;
  nbr_routers = [];
  is_wan = 0;
}

abbrev route : RtableEntry
route = record {
  ip = 65546;
  gw = 0;
  mask = 16777215;
  iface = eth0;
  is_static = true;
  is_active = true;
}

abbrev ours : PwospfRouter
ours = record {
  router_id = 16842762;
  area_id = 0;
  seq = 7;
  last_update = 100;
  distance = 0;
  shortest_path_found = false;
  interface_list = own_adv (port eth0 16842762) ∷ own_adv (port eth1 16908298) ∷ [];
  prev_router = none;
}

abbrev router : RouterState
router = record (zeroed []) {
  router_id = 16842762;
  is_netfpga = true;
  rtable = route ∷ [];
  if_list = port eth0 16842762 ∷ port eth1 16908298 ∷ [];
  pwospf_router_list = ours ∷ [];
  pwospf_lsu_broadcast = true;
}
