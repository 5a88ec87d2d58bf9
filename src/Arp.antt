-- ===== src/Arp.antt =====
-- scone/or_arp.c: the cache of hardware addresses and the queue of packets that wait for one, with
-- `send_packet` and `send_ip` of scone/or_main.c. `now` is what `time` returns. The parameter
-- `output` is the driver behind `sr_integ_low_level_output`: whether it takes a frame.
pub mod Cache
pub mod Delivery
pub mod Queue
pub mod Reply
pub mod Retry
mod Tests
use osnt_plus.Prelude.{
  ℕ, zero, suc, ◌+◌, ◌-◌, ◌*◌, Bool, true, false, not, ◌&&◌, Option, none, some, List, [], ◌∷◌,
  ◌++◌, ltb, ◌==◌, if◌then◌else◌, take, bit_or,
}
use osnt_plus.Net.{ntohl, ntohs}
use osnt_plus.State.{
  ArpCacheEntry, ArpQueuePacketEntry, ArpQueueEntry, IfaceEntry, RouterState, RegWrite, write_reg,
  indirectwrdata_a_hi, indirectwrdata_a_low, indirectwrdata_b_low, indirectaddress, indirectcommand,
}
use osnt_plus.Packet.{Packet, get8, get16, get32}
use osnt_plus.Headers.{blit, zeros, populate_eth_hdr, populate_arp_hdr}
use osnt_plus.Iface.{get_iface}

unfoldable pub in_arp_cache : List ArpCacheEntry → ℕ → Option ArpCacheEntry
in_arp_cache [] next_hop = none
in_arp_cache (e ∷ n) next_hop = if next_hop == e.ip then some e else in_arp_cache n next_hop

-- The entry as `update_arp_cache` leaves it.
abbrev pub cached : ℕ → ℕ → List ℕ → ℕ → ArpCacheEntry
cached now ip mac is_static = record {
  ip = ip;
  arp_ha = mac;
  ttl = if is_static == 1 then 0 else now;
  is_static = is_static;
}

-- The change of the list: the first entry of that address is updated in place, or a new one is
-- pushed to the back.
unfoldable pub update_cache_list : ℕ → List ArpCacheEntry → ℕ → List ℕ → ℕ → List ArpCacheEntry
update_cache_list now [] ip mac is_static = cached now ip mac is_static ∷ []
update_cache_list now (e ∷ n) ip mac is_static =
    if ip == e.ip
    then cached now e.ip mac is_static ∷ n
    else e ∷ update_cache_list now n ip mac is_static

-- `del_arp_cache`: the list, and how many entries were removed.
unfoldable pub del_arp_cache : List ArpCacheEntry → ℕ → List ArpCacheEntry × ℕ
del_arp_cache [] ip = ([], 0)
del_arp_cache (e ∷ n) ip =
    let (n', retval) = del_arp_cache n ip in
    if e.ip == ip then (n', retval + 1) else (e ∷ n', retval)

-- `mac_hi` and `mac_lo`: the bytes of the address put together.
abbrev pub mac_byte : List ℕ → ℕ → ℕ
mac_byte mac i = get8 mac i

-- `write_arp_cache_entry_to_hw`, with the addresses of reg_defines.h as parameters.
unfoldable pub write_arp_row : ℕ → Option ArpCacheEntry → ℕ → List RegWrite → List RegWrite
write_arp_row address entry row log =
    let stored : List RegWrite = elim entry [
      | some e ↦ write_reg indirectwrdata_b_low (ntohl e.ip) (
          write_reg indirectwrdata_a_low
            (mac_byte e.arp_ha 2 * 16777216
              + mac_byte e.arp_ha 3 * 65536
              + mac_byte e.arp_ha 4 * 256
              + mac_byte e.arp_ha 5)
            (write_reg indirectwrdata_a_hi (mac_byte e.arp_ha 0 * 256 + mac_byte e.arp_ha 1) log))
      | none ↦
          write_reg indirectwrdata_b_low 0
            (write_reg indirectwrdata_a_low 0 (write_reg indirectwrdata_a_hi 0 log))
    ] in
    write_reg indirectcommand 1 (write_reg indirectaddress (bit_or address row) stored)

-- The first loop of `write_arp_cache_to_hw`: the static entries. Returns the next row.
unfoldable pub write_static : ℕ → ℕ → List ArpCacheEntry → ℕ → List RegWrite → ℕ × List RegWrite
write_static width address [] i log = (i, log)
write_static width address (e ∷ n) i log =
    let here = ltb i width && not (e.is_static == 0) in
    write_static width address n (if here then i + 1 else i)
      (if here then write_arp_row address (some e) i log else log)

-- The second loop: the entries that are not static, and zeros for the remaining rows.
unfoldable pub write_zeros : ℕ → ℕ → ℕ → List RegWrite → List RegWrite
write_zeros address zero i log = log
write_zeros address (suc rounds) i log =
    write_zeros address rounds (i + 1) (write_arp_row address none i log)

unfoldable pub write_dynamic : ℕ → ℕ → List ArpCacheEntry → ℕ → List RegWrite → List RegWrite
unfolding write_zeros
write_dynamic width address [] i log = write_zeros address (width - i) i log
write_dynamic width address (e ∷ n) i log =
    let here = ltb i width && e.is_static == 0 in
    write_dynamic width address n (if here then i + 1 else i)
      (if here then write_arp_row address (some e) i log else log)

unfoldable pub write_arp_cache_to_hw : ℕ → ℕ → List ArpCacheEntry → List RegWrite → List RegWrite
unfolding write_static write_dynamic
write_arp_cache_to_hw width address cache log =
    let (i, log') = write_static width address cache 0 log in
    write_dynamic width address cache i log'

-- `send_packet`: a frame of less than 60 bytes is padded. Returns whether the driver took it.
unfoldable pub padded : Packet → ℕ → Packet
unfolding zeros
padded p len = if ltb len 60 then take len p ++ zeros (60 - len) else take len p

-- `get_from_arp_queue`

unfoldable pub in_arp_queue : List ArpQueueEntry → ℕ → Option ArpQueueEntry
in_arp_queue [] next_hop = none
in_arp_queue (aqe ∷ n) next_hop =
    if aqe.next_hop == next_hop then some aqe else in_arp_queue n next_hop

-- `arp_queue_entry_add_packet` on the entry that `get_from_arp_queue` found
unfoldable pub add_packet : List ArpQueueEntry → ArpQueuePacketEntry → ℕ → List ArpQueueEntry
add_packet [] aqpe next_hop = []
add_packet (aqe ∷ n) aqpe next_hop =
    if aqe.next_hop == next_hop
    then record aqe { head = aqe.head ++ aqpe ∷ [] } ∷ n
    else aqe ∷ add_packet n aqpe next_hop

-- Bytes of a packet, `n` of them from `at` on
abbrev pub slice : Packet → ℕ → ℕ → List ℕ
slice p at zero = []
slice p at (suc n) = get8 p at ∷ slice p (at + 1) n

-- The fields of an ARP packet
abbrev pub arp_op : Packet → ℕ
arp_op p = ntohs (get16 p 20)

abbrev pub arp_sha : Packet → List ℕ
arp_sha p = slice p 22 6

abbrev pub arp_sip : Packet → ℕ
arp_sip p = get32 p 28

abbrev pub arp_tip : Packet → ℕ
arp_tip p = get32 p 38

-- The reply that `send_arp_reply` builds.
unfoldable pub arp_reply : Packet → IfaceEntry → Packet
arp_reply p iface =
    let reply = populate_eth_hdr (zeros 42) (some (slice p 6 6)) iface.addr 0x0806 in
    populate_arp_hdr reply (some (arp_sha p)) (arp_sip p) iface.addr iface.ip 2

-- The interface whose address is asked for: the first in the list, active or not.
unfoldable pub iface_with_ip : List IfaceEntry → ℕ → Option IfaceEntry
iface_with_ip [] ip = none
iface_with_ip (e ∷ n) ip = if e.ip == ip then some e else iface_with_ip n ip

-- `expire_arp_cache`: an entry that is not static and older than `arp_ttl` goes. Returns whether
-- one went.
unfoldable pub expired : ℕ → ℕ → ArpCacheEntry → Bool
expired now arp_ttl e = not (e.is_static == 1) && ltb arp_ttl (now - e.ttl)

unfoldable pub expire_loop : ℕ → ℕ → List ArpCacheEntry → List ArpCacheEntry × Bool
expire_loop now arp_ttl [] = ([], false)
expire_loop now arp_ttl (e ∷ n) =
    let (n', timedout) = expire_loop now arp_ttl n in
    if expired now arp_ttl e then (n', true) else (e ∷ n', timedout)

-- `width` and `address` are the constants of the ARP table in reg_defines.h.
module _ (width address : ℕ) where
  unfoldable pub trigger_arp_cache_modified : RouterState → RouterState
  trigger_arp_cache_modified rs =
      if rs.is_netfpga
      then record rs { writes = write_arp_cache_to_hw width address rs.arp_cache rs.writes }
      else rs

  unfoldable pub update_arp_cache : ℕ → RouterState → ℕ → List ℕ → ℕ → RouterState
  update_arp_cache now rs ip mac is_static =
      trigger_arp_cache_modified
        (record rs { arp_cache = update_cache_list now rs.arp_cache ip mac is_static })

  -- The device is written only if an entry went.
  unfoldable pub expire_arp_cache : ℕ → RouterState → RouterState
  expire_arp_cache now rs =
      let (cache, timedout) = expire_loop now rs.arp_ttl rs.arp_cache in
      let rs' : RouterState = record rs { arp_cache = cache } in
      if timedout then trigger_arp_cache_modified rs' else rs'

module _ (output : Packet → List ℕ → Bool) where
  unfoldable pub send_packet : RouterState → Packet → ℕ → List ℕ → RouterState × Bool
  unfolding padded
  send_packet rs p len iface = (
    record rs { sent = rs.sent ++ record { packet = padded p len; iface = iface } ∷ [] },
    output (padded p len) iface,
  )

  -- `send_arp_request`; `none` follows a null pointer, for an interface that is not there.
  unfoldable pub send_arp_request : RouterState → ℕ → List ℕ → Option RouterState
  send_arp_request rs tip interface = elim (get_iface rs.if_list interface) [
    | none ↦ none
    | some inter ↦
        let broadcast : List ℕ = 0xFF ∷ 0xFF ∷ 0xFF ∷ 0xFF ∷ 0xFF ∷ 0xFF ∷ [] in
        let request = populate_eth_hdr (zeros 42) (some broadcast) inter.addr 0x0806 in
        let request = populate_arp_hdr request none tip inter.addr inter.ip 1 in
        some (send_packet rs request 42 interface).0
  ]

  unfoldable pub arp_queue_add : ℕ → RouterState → Packet → ℕ → List ℕ → ℕ → Option RouterState
  arp_queue_add now rs p len out_iface_name next_hop =
      let aqpe : ArpQueuePacketEntry = record { packet = p; len = len } in
      elim (in_arp_queue rs.arp_queue next_hop) [
        | some aqe ↦ some (record rs { arp_queue = add_packet rs.arp_queue aqpe next_hop })
        | none ↦ elim (send_arp_request rs next_hop out_iface_name) [
          | none ↦ none
          | some rs' ↦ some (record rs' {
            arp_queue =
                rs'.arp_queue
                ++ record {
                  out_iface_name = take 32 out_iface_name;
                  next_hop = next_hop;
                  requests = 1;
                  last_req_time = now;
                  head = aqpe ∷ [];
                }
                  ∷ [];
          })
        ]
      ]

  -- `send_ip`: the state, and the return value.
  unfoldable pub send_ip : ℕ → RouterState → Packet → ℕ → ℕ → List ℕ → Option (RouterState × ℕ)
  send_ip now rs p len next_hop out_iface = elim (in_arp_cache rs.arp_cache next_hop) [
    | some ace ↦
        let (rs', taken) = send_packet rs (blit p 0 ace.arp_ha) len out_iface in
        some (rs', if taken then 0 else 1)
    | none ↦ elim (arp_queue_add now rs p len out_iface next_hop) [
      | none ↦ none
      | some rs' ↦ some (rs', 0)
    ]
  ]

  -- `process_arp_request`, with `send_arp_reply`
  unfoldable pub process_arp_request : RouterState → Packet → RouterState
  process_arp_request rs p = elim (iface_with_ip rs.if_list (arp_tip p)) [
    | none ↦ rs
    | some iface ↦ (send_packet rs (arp_reply p iface) 42 iface.name).0
  ]

  -- The inner loop of `send_queued_packets`. `none`: without a cache entry `send_ip` would put the
  -- packet back on the list that the loop walks.
  unfoldable pub send_packets :
      RouterState → List ArpQueuePacketEntry → ℕ → List ℕ → Option RouterState
  send_packets rs [] next_hop iface = some rs
  send_packets rs (aqpe ∷ n) next_hop iface = elim (in_arp_cache rs.arp_cache next_hop) [
    | none ↦ none
    | some ace ↦
        send_packets (send_packet rs (blit aqpe.packet 0 ace.arp_ha) aqpe.len iface).0 n next_hop
          iface
  ]

  -- The outer loop: the entries that stay, and the state after the sends. The queue of the state is
  -- put in place at the end.
  unfoldable pub drain :
      RouterState → List ArpQueueEntry → ℕ → Option (List ArpQueueEntry × RouterState)
  unfolding send_packets
  drain rs [] dest_ip = some ([], rs)
  drain rs (aqe ∷ n) dest_ip = elim (dest_ip == aqe.next_hop) [
    | true ↦ elim (send_packets rs aqe.head aqe.next_hop aqe.out_iface_name) [
      | none ↦ none
      | some rs' ↦ drain rs' n dest_ip
    ]
    | false ↦ elim (drain rs n dest_ip) [ none ↦ none | some (rest, rs') ↦ some (aqe ∷ rest, rs') ]
  ]

  unfoldable pub send_queued_packets : RouterState → ℕ → Option RouterState
  send_queued_packets rs dest_ip = elim (drain rs rs.arp_queue dest_ip) [
    | none ↦ none
    | some (rest, rs') ↦ some (record rs' { arp_queue = rest })
  ]

  module _ (width address : ℕ) where
    unfoldable pub process_arp_reply : ℕ → RouterState → Packet → Option RouterState
    process_arp_reply now rs p =
        send_queued_packets (update_arp_cache width address now rs (arp_sip p) (arp_sha p) 0)
          (arp_sip p)

    unfoldable pub process_arp_packet : ℕ → RouterState → Packet → Option RouterState
    process_arp_packet now rs p =
        if arp_op p == 1
        then some (process_arp_request rs p)
        else if arp_op p == 2
        then process_arp_reply now rs p
        else some rs
