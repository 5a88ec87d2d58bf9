-- ===== src/Ip/Forward.antt =====
-- A packet in transit: what leaves, and on what conditions.
use osnt_plus.Prelude.{
  ◌<◌, ℕ, ◌+◌, ◌*◌, ◌/◌, ◌%◌, ◌≤◌, ◌≡◌, ◌≢◌, ◌⊎◌, refl, sym, ap, ◌∙◌, Bool, true, false, not, ◌||◌,
  none, some, List, [], ◌∷◌, ◌==◌, ==_false, arith, length, bit_and, inl, inr,
}
use osnt_plus.Net.{ntohs, strncmp_eq}
use osnt_plus.State.{IfaceEntry, ArpCacheEntry, RouterState}
use osnt_plus.Packet.{Packet, get8, get16, get32, set8}
use osnt_plus.Packet.Laws.{get8-set8_self, get8-set8_ne, length-set8}
use osnt_plus.Checksum.{ip_hdr, ip_hl, verify_checksum, store_ip_checksum}
use osnt_plus.Checksum.Header.{verify_checksum-store}
use osnt_plus.Checksum.Frame.{
  SameIp, SameIp-trans, verify_checksum-SameIp, populate_eth_hdr-SameIp, blit-SameIp,
  get8-store_ip_checksum,
}
use osnt_plus.Headers.{blit, populate_eth_hdr}
use osnt_plus.RTable.{get_next_hop}
use osnt_plus.Iface.{get_iface, iface_match_ip}
use osnt_plus.Arp.{in_arp_cache, padded, send_packet, send_ip}
use osnt_plus.Arp.Queue.{sends}
use osnt_plus.Ip.{
  ip_v, ip_off, ip_ttl, ip_proto, ip_src, ip_dst, is_packet_valid, pwospf_hello_tip, forwarded,
  nat_in, nat_out, forward_to, forward, dispatch, process_ip_packet,
}

-- What makes a packet valid.
pub record Valid (p : Packet) : Type 0 where
  pub version : ip_v p ≡ 4
  pub no_options : ip_hl p ≡ 5
  pub not_fragment :
      (not (bit_and (ntohs (ip_off p)) 0x2000 == 0) || not (bit_and (ntohs (ip_off p)) 0x1FFF == 0))
      ≡ false
  pub good_sum : verify_checksum p ip_hdr (4 * ip_hl p) ≡ 0

Valid-is_packet_valid : (p : Packet) → is_packet_valid p ≡ true → Valid p
unfolding is_packet_valid
Valid-is_packet_valid p h = record {
  version = ground arith;
  no_options = ground arith;
  not_fragment = ground arith;
  good_sum = ground arith;
}

pub is_packet_valid_of : (p : Packet) → Valid p → is_packet_valid p ≡ true
unfolding is_packet_valid
is_packet_valid_of p v = ground (arith, v.version, v.no_options, v.not_fragment, v.good_sum)

module _ (p : Packet) (iface : IfaceEntry) (mac : List ℕ) (long : 34 ≤ length p)
    (six : length iface.addr ≡ 6) (six' : length mac ≡ 6) where
  -- The frame that leaves, and the packet before its Ethernet header is filled in.
  abbrev pub frame : Packet
  frame = blit (forwarded p iface) 0 mac

  abbrev older : Packet
  older = set8 p 22 ((ip_ttl p + 255) % 256)

  frame-SameIp : SameIp (store_ip_checksum older) frame
  unfolding forwarded
  frame-SameIp =
      SameIp-trans (store_ip_checksum older)
        (populate_eth_hdr (store_ip_checksum older) none iface.addr 0x0800) frame
        (populate_eth_hdr-SameIp (store_ip_checksum older) iface.addr 0x0800 six)
        (blit-SameIp (populate_eth_hdr (store_ip_checksum older) none iface.addr 0x0800) mac six')

  byte : (j : ℕ) → 14 ≤ j → j ≢ 22 → j ≢ 24 → j ≢ 25 → get8 frame j ≡ get8 p j
  byte j h a b c =
      frame-SameIp j h
      ∙ get8-store_ip_checksum older j b c
      ∙ get8-set8_ne p 22 j ((ip_ttl p + 255) % 256) (λ e. a (sym e))

  word : (j : ℕ) → (j ≡ 20) ⊎ (26 ≤ j) → get16 frame j ≡ get16 p j
  unfolding get16
  word j h = omega (
    arith,
    byte j (omega arith) (omega arith) (omega arith) (omega arith),
    byte (j + 1) (omega arith) (omega arith) (omega arith) (omega arith),
  )

  address : (j : ℕ) → 26 ≤ j → get32 frame j ≡ get32 p j
  unfolding get32
  address j h = omega (arith, word j (inr h), word (j + 2) (inr (omega arith)))

  pub frame-ttl : ip_ttl frame ≡ (ip_ttl p + 255) % 256
  frame-ttl =
      frame-SameIp 22 (omega arith)
      ∙ get8-store_ip_checksum older 22 (omega arith) (omega arith)
      ∙ get8-set8_self p 22 ((ip_ttl p + 255) % 256) (omega arith)

  frame-Valid : Valid p → Valid frame
  frame-Valid v = record {
    version = ap (λ (b : ℕ). b / 16 % 16) first ∙ v.version;
    no_options = ap (λ (b : ℕ). b % 16) first ∙ v.no_options;
    not_fragment = rw (word 20 (inl refl)) v.not_fragment;
    good_sum =
        verify_checksum-SameIp (store_ip_checksum older) frame (4 * ip_hl frame) frame-SameIp
        ∙ ap (λ (b : ℕ). verify_checksum (store_ip_checksum older) ip_hdr (4 * (b % 16)))
            (frame-SameIp ip_hdr (omega arith))
        ∙ verify_checksum-store older (omega (arith, older_first, v.no_options))
            (omega (arith, length-set8 p 22 ((ip_ttl p + 255) % 256)));
  }
    where
      first : get8 frame ip_hdr ≡ get8 p ip_hdr
      first = byte ip_hdr (omega arith) (omega arith) (omega arith) (omega arith)

      older_first : get8 older ip_hdr ≡ get8 p ip_hdr
      older_first = get8-set8_ne p 22 ip_hdr ((ip_ttl p + 255) % 256) (omega arith)

-- A valid packet of at least 34 bytes that comes in on a port that is not a WAN port, is for none
-- of our addresses and not for the PWOSPF group, has a route by another port that is not a WAN port
-- either, whose next hop is cached, and has a time to live of 2 to 255, where the hardware
-- addresses have six bytes, is sent on that port, with the next hop's hardware address in front,
-- and nothing else changes. The packet that leaves is valid; its time to live is one less; its
-- addresses and its protocol are those that it came with.
pub process_ip_packet-forwards :
    (output : Packet → List ℕ → Bool) (now : ℕ) (rs : RouterState) (p : Packet)
    (interface next_hop_iface : List ℕ) (next_hop : ℕ) (inn out : IfaceEntry) (ace : ArpCacheEntry)
    → 34 ≤ length p
    → length out.addr ≡ 6
    → length ace.arp_ha ≡ 6
    → is_packet_valid p ≡ true
    → get_iface rs.if_list interface ≡ some inn
    → inn.is_wan ≡ 0
    → iface_match_ip rs.if_list (ip_dst p) ≡ false
    → ip_dst p ≢ pwospf_hello_tip
    → get_next_hop 32 rs.rtable (ip_dst p) ≡ some (next_hop, next_hop_iface)
    → strncmp_eq interface next_hop_iface 32 ≡ false
    → get_iface rs.if_list next_hop_iface ≡ some out
    → out.is_wan ≡ 0
    → 1 < ip_ttl p
    → ip_ttl p < 256
    → in_arp_cache rs.arp_cache next_hop ≡ some ace
    → let q = blit (forwarded p out) 0 ace.arp_ha in
      (process_ip_packet output now rs p interface
        ≡ some (sends rs (record { packet = padded q (length p); iface = next_hop_iface } ∷ [])))
      × (is_packet_valid q ≡ true)
      × (ip_ttl q + 1 ≡ ip_ttl p)
      × (ip_src q ≡ ip_src p)
      × (ip_dst q ≡ ip_dst p)
      × (ip_proto q ≡ ip_proto p)
unfolding process_ip_packet nat_in dispatch forward nat_out forward_to send_ip send_packet forwarded
process_ip_packet-forwards output now rs p interface next_hop_iface next_hop inn out ace long six
      six' valid inside lan mine hello route other outside lan' lives small known =
    (
      rw
          (
            valid,
            inside,
            nat_in,
            lan,
            dispatch,
            mine,
            ==_false _ _ hello,
            forward,
            route,
            other,
            outside,
            nat_out,
            lan',
            forward_to,
            ==_false (ip_ttl p) 1 (λ e. omega (arith, lives, e)),
            send_ip,
            known,
          )
          refl,
      is_packet_valid_of _
          (frame-Valid p out ace.arp_ha long six six' (Valid-is_packet_valid p valid)),
      omega (arith, frame-ttl p out ace.arp_ha long six six', lives, small),
      address p out ace.arp_ha long six six' 26 (omega arith),
      address p out ace.arp_ha long six six' 30 (omega arith),
      byte p out ace.arp_ha long six six' 23 (omega arith) (omega arith) (omega arith)
          (omega arith),
    )
