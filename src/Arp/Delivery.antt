-- ===== src/Arp/Delivery.antt =====
-- From `send_ip` to the reply: a packet for an address that is not cached waits in the queue, and is
-- sent when the address becomes known.
use mathlib.Core.List.{Mem, mem-cons_self, mem-cons_of_mem, mem-append_left, mem-append_right}
use osnt_plus.Prelude.{
  ℕ, ◌≡◌, refl, ap, Bool, true, false, not, none, some, List, [], ◌∷◌, ◌++◌, ◌==◌, ==_refl, keep,
  arith, inl, inr, Bool-cases, Option-cases, some_eq, some≢none, take,
}
use osnt_plus.State.{ArpQueuePacketEntry, ArpQueueEntry, RouterState, Sent, IfaceEntry}
use osnt_plus.Packet.{Packet}
use osnt_plus.Iface.{get_iface}
use osnt_plus.Arp.{
  in_arp_cache, in_arp_queue, add_packet, send_packet, send_arp_request, arp_queue_add, send_ip,
  arp_sip, arp_sha, process_arp_reply,
}
use osnt_plus.Arp.Queue.{delivery, packets_of, deliveries, process_arp_reply_lem}

abbrev pub waiting_packet : Packet → ℕ → ArpQueuePacketEntry
waiting_packet p len = record { packet = p; len = len }

packets_of_last :
    (mac iface : List ℕ) (h : List ArpQueuePacketEntry) (aqpe : ArpQueuePacketEntry)
    → Mem (delivery mac iface aqpe) (packets_of mac iface (h ++ aqpe ∷ []))
packets_of_last mac iface [] aqpe = mem-cons_self
packets_of_last mac iface (x ∷ h) aqpe =
    mem-cons_of_mem (delivery mac iface x) (packets_of_last mac iface h aqpe)

flip : (a b : ℕ) → (a == b) ≡ true → (b == a) ≡ true
flip a b h = ground arith

flip_no : (a b : ℕ) → (a == b) ≡ false → (b == a) ≡ false
flip_no a b h = ground arith

-- The packets of an entry for the address are among those that a reply sends.
deliveries_here :
    (ip : ℕ) (mac : List ℕ) (aqe : ArpQueueEntry) (n : List ArpQueueEntry) (x : Sent)
    → (ip == aqe.next_hop) ≡ true
    → Mem x (packets_of mac aqe.out_iface_name aqe.head)
    → Mem x (deliveries ip mac (aqe ∷ n))
deliveries_here ip mac aqe n x mine h = rw mine (mem-append_left (deliveries ip mac n) h)

deliveries_later :
    (ip : ℕ) (mac : List ℕ) (aqe : ArpQueueEntry) (n : List ArpQueueEntry) (x : Sent)
    → Mem x (deliveries ip mac n)
    → Mem x (deliveries ip mac (aqe ∷ n))
deliveries_later ip mac aqe n x h = elim (Bool-cases (ip == aqe.next_hop)) [
  | inl mine ↦ rw mine (mem-append_right (packets_of mac aqe.out_iface_name aqe.head) h)
  | inr other ↦ rw other h
]

deliveries-add_packet :
    (ip : ℕ) (mac : List ℕ) (q : List ArpQueueEntry) (aqpe : ArpQueuePacketEntry)
    (found : ArpQueueEntry)
    → in_arp_queue q ip ≡ some found
    → Mem (delivery mac found.out_iface_name aqpe) (deliveries ip mac (add_packet q aqpe ip))
unfolding in_arp_queue add_packet
deliveries-add_packet ip mac [] aqpe found h = absurd (some≢none h)
deliveries-add_packet ip mac (aqe ∷ n) aqpe found h = elim (Bool-cases (aqe.next_hop == ip)) [
  | inl mine ↦
      rw (mine, add_packet)
        (deliveries_here ip mac (record aqe { head = aqe.head ++ aqpe ∷ [] }) n
          (delivery mac found.out_iface_name aqpe) (flip aqe.next_hop ip mine)
          (rw
            (← ap (λ (e : ArpQueueEntry). e.out_iface_name)
              (some_eq (rw (mine, in_arp_queue) at h)))
            (packets_of_last mac aqe.out_iface_name aqe.head aqpe)))
  | inr other ↦
      rw (other, add_packet)
        (deliveries_later ip mac aqe (add_packet n aqpe ip) (delivery mac found.out_iface_name aqpe)
          (deliveries-add_packet ip mac n aqpe found (rw (other, in_arp_queue) at h)))
]

deliveries_pushed :
    (ip : ℕ) (mac : List ℕ) (q : List ArpQueueEntry) (aqe : ArpQueueEntry) (x : Sent)
    → (ip == aqe.next_hop) ≡ true
    → Mem x (packets_of mac aqe.out_iface_name aqe.head)
    → Mem x (deliveries ip mac (q ++ aqe ∷ []))
deliveries_pushed ip mac [] aqe x mine h = deliveries_here ip mac aqe [] x mine h
deliveries_pushed ip mac (y ∷ q) aqe x mine h =
    deliveries_later ip mac y (q ++ aqe ∷ []) x (deliveries_pushed ip mac q aqe x mine h)

-- The entry that `arp_queue_add` pushes.
abbrev new_queue_entry : ℕ → Packet → ℕ → List ℕ → ℕ → ArpQueueEntry
new_queue_entry now p len out_iface next_hop = record {
  out_iface_name = take 32 out_iface;
  next_hop = next_hop;
  requests = 1;
  last_req_time = now;
  head = waiting_packet p len ∷ [];
}

none_left :
    (ip : ℕ) (q : List ArpQueueEntry)
    → in_arp_queue (keep (λ aqe. not (ip == aqe.next_hop)) q) ip ≡ none
unfolding in_arp_queue
none_left ip [] = refl
none_left ip (aqe ∷ n) = ground (arith, none_left ip n)

module _ (output : Packet → List ℕ → Bool) where
  -- The packet waits in the queue of `rs'`, for whatever hardware address comes.
  abbrev pub Waits : RouterState → ℕ → ArpQueuePacketEntry → Type 0
  Waits rs ip aqpe =
      (iface : List ℕ) × ((mac : List ℕ)
        → Mem (delivery mac iface aqpe) (deliveries ip mac rs.arp_queue))

  send_arp_request_known :
      (rs : RouterState) (tip : ℕ) (interface : List ℕ) (inter : IfaceEntry)
      → get_iface rs.if_list interface ≡ some inter
      → (rs' : RouterState) × (send_arp_request output rs tip interface ≡ some rs')
        × (rs'.arp_queue ≡ rs.arp_queue)
  unfolding send_arp_request send_packet
  send_arp_request_known rs tip interface inter known = rw (known, send_arp_request) (_, refl, refl)

  arp_queue_add-Waits :
      (now : ℕ) (rs : RouterState) (p : Packet) (len : ℕ) (out_iface : List ℕ) (next_hop : ℕ)
      (inter : IfaceEntry)
      → get_iface rs.if_list out_iface ≡ some inter
      → (rs' : RouterState) × (arp_queue_add output now rs p len out_iface next_hop ≡ some rs')
        × Waits rs' next_hop (waiting_packet p len)
  unfolding arp_queue_add
  arp_queue_add-Waits now rs p len out_iface next_hop inter known =
      elim (Option-cases (in_arp_queue rs.arp_queue next_hop)) [
        | inr (aqe, found) ↦ (
          record rs { arp_queue = add_packet rs.arp_queue (waiting_packet p len) next_hop },
          rw (found, arp_queue_add) refl,
          (
            aqe.out_iface_name,
            λ mac. deliveries-add_packet next_hop mac rs.arp_queue (waiting_packet p len) aqe found,
          ),
        )
        | inl missing ↦
            let (asked, e, queue) = send_arp_request_known rs next_hop out_iface inter known in
            let new = new_queue_entry now p len out_iface next_hop in
            (
              record asked { arp_queue = asked.arp_queue ++ new ∷ [] },
              rw (missing, arp_queue_add, e) refl,
              (
                new.out_iface_name,
                λ mac.
                    deliveries_pushed next_hop mac asked.arp_queue new
                      (delivery mac new.out_iface_name (waiting_packet p len)) (==_refl next_hop)
                      mem-cons_self,
              ),
            )
      ]

  -- Where the outgoing interface exists and the next hop is not cached, `send_ip` succeeds and
  -- keeps the packet, and whatever reply for that next hop comes then sends it, with the reply's
  -- hardware address in front, and leaves nothing that waits for that next hop.
  pub send_ip-process_arp_reply :
      (width address now later : ℕ) (rs : RouterState) (p reply : Packet) (len : ℕ)
      (out_iface : List ℕ) (inter : IfaceEntry)
      → get_iface rs.if_list out_iface ≡ some inter
      → in_arp_cache rs.arp_cache (arp_sip reply) ≡ none
      → (rs1 rs2 : RouterState) × (iface : List ℕ) × (send_ip output now rs p len
            (arp_sip reply)
            out_iface
          ≡ some (rs1, 0))
        × (process_arp_reply output width address later rs1 reply ≡ some rs2)
        × Mem (delivery (arp_sha reply) iface (waiting_packet p len)) rs2.sent
        × (in_arp_queue rs2.arp_queue (arp_sip reply) ≡ none)
  unfolding send_ip
  send_ip-process_arp_reply width address now later rs p reply len out_iface inter known missing =
      let (rs1, added, (iface, waits)) =
        arp_queue_add-Waits now rs p len out_iface (arp_sip reply) inter known in
      let (rs2, replied, cache, queue, sent) =
        process_arp_reply_lem output width address later rs1 reply in
      (
        rs1,
        rs2,
        iface,
        rw (missing, send_ip, added) refl,
        replied,
        rw sent (mem-append_right rs1.sent (waits (arp_sha reply))),
        rw queue (none_left (arp_sip reply) rs1.arp_queue),
      )
