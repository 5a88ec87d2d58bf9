-- ===== src/State.antt =====
-- The structs of scone/or_data_types.h and the router state. A linked list of nodes is the list
-- of its data, in order; a `time_t` is a number of seconds.
use osnt_plus.Prelude.{none, ◌≡◌, refl, ℕ, Bool, List, Option, ◌∷◌, [], ◌++◌}

-- `struct rtable_entry`
pub record RtableEntry : Type 0 where
  pub ip : ℕ
  pub gw : ℕ
  pub mask : ℕ
  pub iface : List ℕ
  pub is_static : Bool
  pub is_active : Bool

-- `struct arp_cache_entry`; `is_static` is an int
pub record ArpCacheEntry : Type 0 where
  pub ip : ℕ
  pub arp_ha : List ℕ
  pub ttl : ℕ
  pub is_static : ℕ

-- `struct arp_queue_packet_entry`
pub record ArpQueuePacketEntry : Type 0 where
  pub packet : List ℕ
  pub len : ℕ

-- `struct arp_queue_entry`
pub record ArpQueueEntry : Type 0 where
  pub out_iface_name : List ℕ
  pub next_hop : ℕ
  pub requests : ℕ
  pub last_req_time : ℕ
  pub head : List ArpQueuePacketEntry

-- `struct nbr_router`
pub record NbrRouter : Type 0 where
  pub router_id : ℕ
  pub ip : ℕ
  pub last_rcvd_hello : ℕ

-- `struct iface_entry`
pub record IfaceEntry : Type 0 where
  pub name : List ℕ
  pub addr : List ℕ
  pub ip : ℕ
  pub mask : ℕ
  pub speed : ℕ
  pub is_active : Bool
  pub last_sent_hello : ℕ
  pub nbr_routers : List NbrRouter
  pub is_wan : ℕ

-- `struct pwospf_interface`
pub record PwospfInterface : Type 0 where
  pub subnet : ℕ
  pub mask : ℕ
  pub router_id : ℕ
  pub is_active : Bool

-- `struct pwospf_router`; the pointer `prev_router` is the id of the router
pub record PwospfRouter : Type 0 where
  pub router_id : ℕ
  pub area_id : ℕ
  pub seq : ℕ
  pub last_update : ℕ
  pub distance : ℕ
  pub shortest_path_found : Bool
  pub interface_list : List PwospfInterface
  pub prev_router : Option ℕ

-- `struct nat_ip_port_pair`
pub record NatIpPortPair : Type 0 where
  pub ip : ℕ
  pub port : ℕ
  pub checksum : ℕ
  pub checksum_ip : ℕ
  pub checksum_port : ℕ

-- `struct nat_entry`, without the running average of the hits (a double)
pub record NatEntry : Type 0 where
  pub nat_ext : NatIpPortPair
  pub nat_int : NatIpPortPair
  pub last_hits : ℕ
  pub last_hits_time : ℕ
  pub hits : ℕ
  pub hw_row : ℕ
  pub is_static : ℕ

-- The registers of the output port lookup that the software writes: those that reach a table row,
-- and those that hold the hardware address of a port.
pub data Reg : Type 0 where
  indirectwrdata_a_hi indirectwrdata_a_low : Reg
  indirectwrdata_b_hi indirectwrdata_b_low : Reg
  indirectaddress indirectcommand : Reg
  mac_hi mac_low : ℕ → Reg

-- `writeReg(regs, reg, value)`
pub record RegWrite : Type 0 where
  pub reg : Reg
  pub value : ℕ

-- A frame handed to `send_packet`, with the interface's name.
pub record Sent : Type 0 where
  pub packet : List ℕ
  pub iface : List ℕ

-- `struct pwospf_lsu_queue_entry`
pub record LsuQueueEntry : Type 0 where
  pub ip : ℕ
  pub iface : List ℕ
  pub packet : List ℕ
  pub len : ℕ

-- `struct sping_queue_entry`
pub record SpingQueueEntry : Type 0 where
  pub packet : List ℕ
  pub len : ℕ
  pub arrival_time : ℕ

-- `struct local_ip_filter_entry`
pub record LocalIpFilterEntry : Type 0 where
  pub ip : ℕ
  pub name : List ℕ

-- A `pthread_mutex_t *`: a null pointer, or to a mutex that is free or held
pub data Mutex : Type 0 where
  lock_absent lock_free lock_held : Mutex

-- What is run between `pthread_mutex_lock` and `pthread_mutex_unlock`: none where the pointer is null,
-- and where the mutex is held, since the lock is then waited for for ever.
unfoldable pub with_lock {ℓ} : {A : Type ℓ} → Mutex → Option A → Option A
with_lock lock_absent body = none
with_lock lock_free body = body
with_lock lock_held body = none

pub with_lock-free {ℓ} :
    {A : Type ℓ} (m : Mutex) → m ≡ lock_free → (body : Option A) → with_lock m body ≡ body
unfolding with_lock
with_lock-free m free body = rw free refl

-- The fields of `struct router_state` that the modelled parts use, with what they send out, oldest
-- first: the register writes, the frames, and in `transport` the packets that `sr_transport_input`
-- gets. `rands` is what `rand` will return.
pub record RouterState : Type 0 where
  pub router_id : ℕ
  pub arp_ttl : ℕ
  pub is_netfpga : Bool
  pub rtable : List RtableEntry
  pub arp_cache : List ArpCacheEntry
  pub arp_queue : List ArpQueueEntry
  pub if_list : List IfaceEntry
  pub pwospf_router_list : List PwospfRouter
  pub nat_table : List NatEntry
  pub writes : List RegWrite
  pub sent : List Sent
  pub area_id : ℕ
  pub pwospf_hello_interval : ℕ
  pub pwospf_lsu_interval : ℕ
  pub pwospf_lsu_broadcast : Bool
  pub pwospf_lsu_queue : List LsuQueueEntry
  pub dijkstra_dirty : Bool
  pub sping_queue : List SpingQueueEntry
  pub transport : List (List ℕ)
  pub rands : List ℕ
  pub nat_timeout : ℕ
  pub local_ip_filter_list : List LocalIpFilterEntry
  pub pwospf_router_list_lock : Mutex

unfoldable pub write_reg : Reg → ℕ → List RegWrite → List RegWrite
write_reg r v log = log ++ record { reg = r; value = v } ∷ []
