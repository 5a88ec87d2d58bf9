-- ===== src/Arp/Retry.antt =====
-- `process_arp_queue`: the requests that are sent again, and the packets that are given up. `now` is
-- what `time` returns; `none` is a failed assertion, a null pointer that is followed, or fuel that ran
-- out. An entry that joins the queue during the pass was asked for just now, so that the pass leaves
-- it alone.
mod Tests
use osnt_plus.Prelude.{
  ℕ, zero, suc, ◌+◌, ◌-◌, ◌*◌, Bool, true, false, not, ◌&&◌, ◌||◌, Option, none, some, List, [],
  ◌∷◌, ◌++◌, ltb, ◌==◌, if◌then◌else◌, get_elem?, set, length,
}
use osnt_plus.State.{ArpQueuePacketEntry, ArpQueueEntry, RouterState}
use osnt_plus.Packet.{Packet, get8, get32, set8}
use osnt_plus.Checksum.{store_ip_checksum}
use osnt_plus.Iface.{iface_match_ip}
use osnt_plus.Arp.{send_arp_request}
use osnt_plus.Icmp.{send_icmp_packet, echo_reply, echo_request, destination_unreachable}

-- Whether an error is due for a packet that is given up
unfoldable pub wants_error : RouterState → Packet → Bool
wants_error rs p =
    (not (get8 p 23 == 0x01) || get8 p 34 == echo_reply || get8 p 34 == echo_request)
    && not (iface_match_ip rs.if_list (get32 p 26))

-- The time to live is put back.
unfoldable pub restored : Packet → Packet
restored p = if ltb (get8 p 22) 255 then store_ip_checksum (set8 p 22 (get8 p 22 + 1)) else p

abbrev pub remove_at {ℓ} : {A : Type ℓ} → List A → ℕ → List A
remove_at [] k = []
remove_at (x ∷ n) zero = n
remove_at (x ∷ n) (suc k) = x ∷ remove_at n k

-- The first packet of the entry at `k` is freed.
unfoldable pub drop_packet : ℕ → RouterState → RouterState
drop_packet k rs = elim (get_elem? rs.arp_queue k) [
  | none ↦ rs
  | some aqe ↦ record rs {
    arp_queue = set rs.arp_queue k (record aqe { head = remove_at aqe.head 0 });
  }
]

module _ (output : Packet → List ℕ → Bool) where
  unfoldable pub give_up : ℕ → RouterState → Packet → Option RouterState
  give_up now rs p = elim (wants_error rs p) [
    | false ↦ some rs
    | true ↦ elim (send_icmp_packet output now rs (restored p) destination_unreachable 1) [
      | none ↦ none
      | some (rs', _) ↦ some rs'
    ]
  ]

  -- The loop over the packets of the entry at `k`. An error for one of them may join them.
  unfoldable pub give_up_all : ℕ → ℕ → RouterState → ℕ → Option RouterState
  unfolding give_up drop_packet
  give_up_all zero now rs k = none
  give_up_all (suc fuel) now rs k = elim (get_elem? rs.arp_queue k) [
    | none ↦ none
    | some aqe ↦ elim aqe.head [
      | [] ↦ some rs
      | aqpe ∷ n ↦ elim (give_up now rs aqpe.packet) [
        | none ↦ none
        | some rs' ↦ give_up_all fuel now (drop_packet k rs') k
      ]
    ]
  ]

  -- The body of the loop, for the entry at `k`: the state, and whether the entry is still there. Each
  -- error that joins the packets is given up without another.
  unfoldable pub retry_entry : ℕ → RouterState → ℕ → ArpQueueEntry → Option (RouterState × Bool)
  unfolding give_up_all
  retry_entry now rs k aqe = elim (ltb 1 (now - aqe.last_req_time)) [
    | false ↦ some (rs, true)
    | true ↦ elim (ltb aqe.requests 5) [
      | true ↦
          let asked : ArpQueueEntry = record aqe {
            last_req_time = now;
            requests = aqe.requests + 1;
          } in
          elim (send_arp_request output (record rs { arp_queue = set rs.arp_queue k asked })
            aqe.next_hop aqe.out_iface_name) [ none ↦ none | some rs' ↦ some (rs', true) ]
      | false ↦ elim (give_up_all (2 * length aqe.head + 1) now rs k) [
        | none ↦ none
        | some rs' ↦ some (record rs' { arp_queue = remove_at rs'.arp_queue k }, false)
      ]
    ]
  ]

  -- The loop, with `rounds` entries left from position `k` on
  unfoldable pub retry_loop : ℕ → ℕ → RouterState → ℕ → Option RouterState
  unfolding retry_entry
  retry_loop zero now rs k = some rs
  retry_loop (suc rounds) now rs k = elim (get_elem? rs.arp_queue k) [
    | none ↦ some rs
    | some aqe ↦ elim (retry_entry now rs k aqe) [
      | none ↦ none
      | some (rs', true) ↦ retry_loop rounds now rs' (k + 1)
      | some (rs', false) ↦ retry_loop rounds now rs' k
    ]
  ]

  unfoldable pub process_arp_queue : ℕ → RouterState → Option RouterState
  unfolding retry_loop
  process_arp_queue now rs = retry_loop (length rs.arp_queue) now rs 0
