-- ===== src/Arp/Queue.antt =====
-- The packets that wait for a hardware address: what a reply sends, and that no packet is lost.
use mathlib.Core.List.{append-nil, append_assoc}
use osnt_plus.Prelude.{
  ℕ, ◌≡◌, refl, sym, ap, ◌∙◌, Bool, true, not, some, List, [], ◌∷◌, ◌++◌, ◌==◌, ==_iff, ==_refl,
  if◌then◌else◌, keep, arith, inl, inr, Bool-cases,
}
use osnt_plus.State.{ArpCacheEntry, ArpQueuePacketEntry, ArpQueueEntry, RouterState, Sent}
use osnt_plus.Packet.{Packet}
use osnt_plus.Headers.{blit}
use osnt_plus.Arp.{
  in_arp_cache, cached, update_cache_list, padded, send_packet, send_packets, drain, arp_sip,
  arp_sha, send_queued_packets, trigger_arp_cache_modified, update_arp_cache, process_arp_reply,
}
use osnt_plus.Arp.Cache.{in_arp_cache-update_cache_list}

-- A waiting packet as it leaves: the hardware address in front.
abbrev pub delivery : List ℕ → List ℕ → ArpQueuePacketEntry → Sent
delivery mac iface aqpe = record {
  packet = padded (blit aqpe.packet 0 mac) aqpe.len;
  iface = iface;
}

-- The packets of an entry, and those of all entries for one next hop.
abbrev pub packets_of : List ℕ → List ℕ → List ArpQueuePacketEntry → List Sent
packets_of mac iface [] = []
packets_of mac iface (aqpe ∷ n) = delivery mac iface aqpe ∷ packets_of mac iface n

abbrev pub deliveries : ℕ → List ℕ → List ArpQueueEntry → List Sent
deliveries ip mac [] = []
deliveries ip mac (aqe ∷ n) =
    if ip == aqe.next_hop
    then packets_of mac aqe.out_iface_name aqe.head ++ deliveries ip mac n
    else deliveries ip mac n

-- The state after frames were sent.
abbrev pub sends : RouterState → List Sent → RouterState
sends rs frames = record rs { sent = rs.sent ++ frames }

sends-nil : (rs : RouterState) → sends rs [] ≡ rs
sends-nil rs = ap (λ (s : List Sent). record rs { sent = s }) (append-nil rs.sent)

sends-append : (rs : RouterState) (a b : List Sent) → sends (sends rs a) b ≡ sends rs (a ++ b)
sends-append rs a b = ap (λ (s : List Sent). record rs { sent = s }) (append_assoc rs.sent a b)

same_key : (a b : ℕ) → (a == b) ≡ true → a ≡ b
same_key a b h = (==_iff a b).0 h

module _ (output : Packet → List ℕ → Bool) where
  -- Once the address is cached, every packet of an entry is sent, in order.
  send_packets_lem :
      (rs : RouterState) (n : List ArpQueuePacketEntry) (next_hop : ℕ) (iface : List ℕ)
      (ace : ArpCacheEntry)
      → in_arp_cache rs.arp_cache next_hop ≡ some ace
      → send_packets output rs n next_hop iface ≡ some (sends rs (packets_of ace.arp_ha iface n))
  unfolding send_packets send_packet
  send_packets_lem rs [] next_hop iface ace h =
      ap (λ (r : RouterState). some r) (sym (sends-nil rs))
  send_packets_lem rs (aqpe ∷ n) next_hop iface ace h =
      rw (h, send_packets)
        (send_packets_lem (sends rs (delivery ace.arp_ha iface aqpe ∷ [])) n next_hop iface ace h
          ∙ ap (λ (r : RouterState). some r)
              (sends-append rs (delivery ace.arp_ha iface aqpe ∷ [])
                (packets_of ace.arp_ha iface n)))

  abbrev left : ℕ → List ArpQueueEntry → List ArpQueueEntry
  left ip = keep (λ aqe. not (ip == aqe.next_hop))

  drain_lem :
      (rs : RouterState) (q : List ArpQueueEntry) (ip : ℕ) (ace : ArpCacheEntry)
      → in_arp_cache rs.arp_cache ip ≡ some ace
      → drain output rs q ip
        ≡ some (keep (λ aqe. not (ip == aqe.next_hop)) q, sends rs (deliveries ip ace.arp_ha q))
  unfolding drain
  drain_lem rs [] ip ace h = ap (λ (r : RouterState). some ([], r)) (sym (sends-nil rs))
  drain_lem rs (aqe ∷ n) ip ace h = elim (Bool-cases (ip == aqe.next_hop)) [
    | inl mine ↦
        let sent = packets_of ace.arp_ha aqe.out_iface_name aqe.head in
        let out =
          send_packets_lem rs aqe.head aqe.next_hop aqe.out_iface_name ace
            (rw (same_key ip aqe.next_hop mine) at h) in
        rw (mine, drain, out)
          (drain_lem (sends rs sent) n ip ace h
            ∙ ap (λ (r : RouterState). some (keep (λ aqe. not (ip == aqe.next_hop)) n, r))
                (sends-append rs sent (deliveries ip ace.arp_ha n)))
    | inr other ↦ rw (other, drain, drain_lem rs n ip ace h) refl
  ]

  module _ (width address : ℕ) where
    update_arp_cache_fields :
        (now : ℕ) (rs : RouterState) (ip : ℕ) (mac : List ℕ) (is_static : ℕ)
        → let u = update_arp_cache width address now rs ip mac is_static in
          (u.arp_cache ≡ update_cache_list now rs.arp_cache ip mac is_static)
          × (u.arp_queue ≡ rs.arp_queue)
          × (u.sent ≡ rs.sent)
    unfolding update_arp_cache trigger_arp_cache_modified
    update_arp_cache_fields now rs ip mac is_static = ground arith

    updated_is_cached :
        (now : ℕ) (cache : List ArpCacheEntry) (ip : ℕ) (mac : List ℕ)
        → in_arp_cache (update_cache_list now cache ip mac 0) ip ≡ some (cached now ip mac 0)
    updated_is_cached now cache ip mac =
        in_arp_cache-update_cache_list now cache ip mac 0 ip ∙ rw (==_refl ip) refl

    -- An ARP reply caches the sender's address, sends every packet that waits for it, in the order
    -- of the queue and with the new hardware address in front, and removes exactly their entries.
    pub process_arp_reply_lem :
        (now : ℕ) (rs : RouterState) (p : Packet)
        → (rs' : RouterState) × (process_arp_reply output width address now rs p ≡ some rs')
          × (rs'.arp_cache ≡ update_cache_list now rs.arp_cache (arp_sip p) (arp_sha p) 0)
          × (rs'.arp_queue ≡ keep (λ aqe. not (arp_sip p == aqe.next_hop)) rs.arp_queue)
          × (rs'.sent ≡ rs.sent ++ deliveries (arp_sip p) (arp_sha p) rs.arp_queue)
    unfolding process_arp_reply send_queued_packets
    process_arp_reply_lem now rs p =
        let u = update_arp_cache width address now rs (arp_sip p) (arp_sha p) 0 in
        let (cache, queue, sent) = update_arp_cache_fields now rs (arp_sip p) (arp_sha p) 0 in
        let found : in_arp_cache u.arp_cache (arp_sip p)
            ≡ some (cached now (arp_sip p) (arp_sha p) 0) =
          rw cache (updated_is_cached now rs.arp_cache (arp_sip p) (arp_sha p)) in
        let out =
          drain_lem u u.arp_queue (arp_sip p) (cached now (arp_sip p) (arp_sha p) 0) found in
        (
          record (sends u (deliveries (arp_sip p) (arp_sha p) u.arp_queue)) {
            arp_queue = keep (λ aqe. not (arp_sip p == aqe.next_hop)) u.arp_queue;
          },
          rw (out, process_arp_reply, send_queued_packets) refl,
          cache,
          ap (keep (λ aqe. not (arp_sip p == aqe.next_hop))) queue,
          ap (λ (q : List ArpQueueEntry). u.sent ++ deliveries (arp_sip p) (arp_sha p) q) queue
              ∙ ap (λ (s : List Sent). s ++ deliveries (arp_sip p) (arp_sha p) rs.arp_queue) sent,
        )
