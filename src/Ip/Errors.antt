-- ===== src/Ip/Errors.antt =====
-- The ICMP messages that `send_icmp_packet` sends about a packet.
use osnt_plus.Prelude.{
  ℕ, zero, suc, ◌+◌, ◌^◌, ◌≤◌, ◌<◌, ◌≡◌, ◌≢◌, refl, ap, ◌∙◌, Bool, true, none, some, List, [], ◌∷◌,
  ==_false, arith, length, get_or, if◌then◌else◌,
}
use osnt_plus.State.{IfaceEntry, ArpCacheEntry, RouterState}
use osnt_plus.Packet.{Packet, get8, get32, set8}
use osnt_plus.Packet.Laws.{get8-set8_self, get8-set8_ne, get8-set16_ne, length-set8, length-set16}
use osnt_plus.Checksum.{store_ip_checksum, compute_icmp_checksum}
use osnt_plus.Checksum.Frame.{
  SameIp, SameIp-trans, populate_eth_hdr-SameIp, blit-SameIp, get8-store_ip_checksum,
}
use osnt_plus.Packet.Words.{get32_of}
use osnt_plus.Headers.{zeros, blit, bzero, populate_ip, populate_eth_hdr, populate_icmp}
use osnt_plus.Headers.Ip.{length-zeros, get8-populate_ip}
use osnt_plus.Headers.Laws.{length-blit, get8-blit, get8-blit_apart}
use osnt_plus.RTable.{get_next_hop}
use osnt_plus.Iface.{get_iface}
use osnt_plus.Arp.{in_arp_cache, slice, padded, send_packet, send_ip}
use osnt_plus.Arp.Queue.{sends}
use osnt_plus.Icmp.{
  echo_reply, icmp_packet, icmp_payload, icmp_source, store_icmp_checksum, send_icmp_packet,
}
use osnt_plus.Ip.{ip_proto, ip_dst, is_packet_valid}
use osnt_plus.Ip.Forward.{Valid, is_packet_valid_of}
use osnt_plus.Ip.Built.{built-first, built-off, built-proto, built-dest, length-built, Valid-SameIp}
use osnt_plus.Pwospf.Flood.Framed.{get_or-slice}

slice_eq :
    (p q : Packet) (a b n : ℕ)
    → ((i : ℕ) → i < n → get8 q (b + i) ≡ get8 p (a + i))
    → slice q b n ≡ slice p a n
slice_eq p q a b zero same = refl
slice_eq p q a b (suc n) same = cons (at b a 0 (omega arith) (omega arith) (omega arith)) (
    slice_eq p q (a + 1) (b + 1) n
      (λ i lt. at (b + 1 + i) (a + 1 + i) (1 + i) (omega arith) (omega arith) (omega arith)))
  where
    at : (x y i : ℕ) → x ≡ b + i → y ≡ a + i → i < suc n → get8 q x ≡ get8 p y
    at x y i ex ey lt = rw (ex, ey) (same i lt)

    cons : {x y : ℕ} {l m : List ℕ} → x ≡ y → l ≡ m → ◌≡◌ {A = List ℕ} (x ∷ l) (y ∷ m)
    cons ex el = rw (ex, el) refl

module _ (type code : ℕ) (payload : List ℕ) (source dest : ℕ) (addr mac : List ℕ)
    (six : length addr ≡ 6) (six' : length mac ≡ 6) (dest_lt : dest < 2 ^ 32) where
  abbrev pub message : Packet
  message = blit (icmp_packet type code payload source dest addr) 0 mac

  abbrev bare : Packet
  bare =
      store_icmp_checksum (populate_icmp (zeros (38 + length payload)) type code payload)
        (length payload)

  abbrev headed : Packet
  headed = populate_ip bare (4 + length payload) 0x01 source dest

  length-bare : length bare ≡ 38 + length payload
  unfolding store_icmp_checksum compute_icmp_checksum populate_icmp bzero
  length-bare =
      length-set16 _ 36 _
      ∙ length-set16 _ 36 0
      ∙ length-blit _ 38 payload
      ∙ length-set8 _ 35 code
      ∙ length-set8 _ 34 type
      ∙ length-blit _ 34 (zeros 4)
      ∙ length-zeros (38 + length payload)

  message-SameIp : SameIp (store_ip_checksum headed) message
  unfolding icmp_packet
  message-SameIp =
      SameIp-trans (store_ip_checksum headed)
        (populate_eth_hdr (store_ip_checksum headed) none addr 0x0800) message
        (populate_eth_hdr-SameIp (store_ip_checksum headed) addr 0x0800 six)
        (blit-SameIp (populate_eth_hdr (store_ip_checksum headed) none addr 0x0800) mac six')

  byte : (j : ℕ) → 14 ≤ j → j ≢ 24 → j ≢ 25 → get8 message j ≡ get8 headed j
  byte j h a b = message-SameIp j h ∙ get8-store_ip_checksum headed j a b

  pub message-Valid : Valid message
  message-Valid =
      Valid-SameIp headed message message-SameIp
        (omega (
          arith,
          length-bare,
          length-built bare (4 + length payload) 0x01 source dest (omega (arith, length-bare)),
        ))
        (built-first bare (4 + length payload) 0x01 source dest (omega (arith, length-bare)))
        (built-off bare (4 + length payload) 0x01 source dest (omega (arith, length-bare)))

  pub message-proto : ip_proto message ≡ 1
  message-proto =
      byte 23 (omega arith) (omega arith) (omega arith)
      ∙ built-proto bare (4 + length payload) 0x01 source dest (omega (arith, length-bare))

  pub message-dest : ip_dst message ≡ dest
  message-dest =
      get32_of headed message 30 30
        (λ k lt. byte (30 + k) (omega arith) (omega arith) (omega arith))
      ∙ built-dest bare (4 + length payload) 0x01 source dest (omega (arith, length-bare)) dest_lt

  -- What follows the IP header, but for the checksum
  inner :
      (j : ℕ)
      → 34 ≤ j
      → j ≢ 36
      → j ≢ 37
      → get8 message j ≡ get8 (populate_icmp (zeros (38 + length payload)) type code payload) j
  unfolding store_icmp_checksum compute_icmp_checksum
  inner j h a b =
      byte j (omega arith) (omega arith) (omega arith)
      ∙ get8-populate_ip bare (4 + length payload) 0x01 source dest j h
      ∙ get8-set16_ne _ 36 j _ (omega arith) (omega arith)
      ∙ get8-set16_ne _ 36 j 0 (omega arith) (omega arith)

  abbrev cleared : Packet
  cleared = bzero (zeros (38 + length payload)) 34 4

  length-cleared : length cleared ≡ 38 + length payload
  unfolding bzero
  length-cleared =
      length-blit (zeros (38 + length payload)) 34 (zeros 4) ∙ length-zeros (38 + length payload)

  pub message-type : get8 message 34 ≡ type
  unfolding populate_icmp
  message-type =
      inner 34 (omega arith) (omega arith) (omega arith)
      ∙ get8-blit_apart _ 38 34 payload (omega arith)
      ∙ get8-set8_ne _ 35 34 code (omega arith)
      ∙ get8-set8_self cleared 34 type (omega (arith, length-cleared))

  pub message-code : get8 message 35 ≡ code
  unfolding populate_icmp
  message-code =
      inner 35 (omega arith) (omega arith) (omega arith)
      ∙ get8-blit_apart _ 38 35 payload (omega arith)
      ∙ get8-set8_self (set8 cleared 34 type) 35 code
          (omega (arith, length-cleared, length-set8 cleared 34 type))

  pub message-payload : (i : ℕ) → i < length payload → get8 message (38 + i) ≡ get_or payload i 0
  unfolding populate_icmp
  message-payload i lt =
      inner (38 + i) (omega arith) (omega arith) (omega arith)
      ∙ get8-blit (set8 (set8 cleared 34 type) 35 code) 38 i payload
          (omega (
            arith,
            length-cleared,
            length-set8 cleared 34 type,
            length-set8 (set8 cleared 34 type) 35 code,
          ))
          lt

quoted :
    (src : Packet) (type : ℕ)
    → type ≢ echo_reply
    → icmp_payload src type ≡ 0 ∷ 0 ∷ 0 ∷ 0 ∷ slice src 14 28
unfolding icmp_payload
quoted src type error = rw (==_false type echo_reply error) refl

get_or-quoted :
    (src : Packet) (i : ℕ)
    → i < 28
    → get_or (0 ∷ 0 ∷ 0 ∷ 0 ∷ slice src 14 28) (4 + i) 0 ≡ get8 src (14 + i)
get_or-quoted src i lt =
    ap (λ (j : ℕ). get_or (0 ∷ 0 ∷ 0 ∷ 0 ∷ slice src 14 28) j 0) {x = 4 + i}
      {y = suc (suc (suc (suc i)))} (omega arith)
    ∙ get_or-slice src 14 28 i lt

-- A frame for a next hop that is cached.
abbrev delivered : (Packet → List ℕ → Bool) → RouterState → Packet → List ℕ → ℕ → RouterState × ℕ
delivered output rs p name len = (
  sends rs (record { packet = padded p len; iface = name } ∷ []),
  if output (padded p len) name then 0 else 1,
)

send_ip-cached :
    (output : Packet → List ℕ → Bool) (now : ℕ) (rs : RouterState) (p : Packet) (len next_hop : ℕ)
    (name : List ℕ) (ace : ArpCacheEntry)
    → in_arp_cache rs.arp_cache next_hop ≡ some ace
    → send_ip output now rs p len next_hop name
      ≡ some (delivered output rs (blit p 0 ace.arp_ha) name len)
unfolding send_ip send_packet
send_ip-cached output now rs p len next_hop name ace cached = rw (send_ip, cached) refl

-- Where there is a route to the sender of a packet, its port exists, the next hop is cached,
-- hardware addresses have six bytes and the sender's address is a 32-bit number, an ICMP message
-- other than an echo reply is sent on that port and nothing else changes; the return value says
-- whether the driver took it. The message is a valid IP packet of ICMP for the sender, of the given
-- type and code, and quotes the packet's first 28 bytes from its IP header on.
pub send_icmp_packet-error :
    (output : Packet → List ℕ → Bool) (now : ℕ) (rs : RouterState) (src : Packet) (type code : ℕ)
    (next_hop : ℕ) (name : List ℕ) (iface : IfaceEntry) (ace : ArpCacheEntry)
    → get_next_hop 32 rs.rtable (get32 src 26) ≡ some (next_hop, name)
    → get_iface rs.if_list name ≡ some iface
    → in_arp_cache rs.arp_cache next_hop ≡ some ace
    → length iface.addr ≡ 6
    → length ace.arp_ha ≡ 6
    → get32 src 26 < 2 ^ 32
    → type ≢ echo_reply
    → let message =
        blit
          (icmp_packet type code
            (icmp_payload src type)
            (icmp_source src type code iface)
            (get32 src 26)
            iface.addr)
          0
          ace.arp_ha in
      (send_icmp_packet output now rs src type code
        ≡ some (
          sends rs (record { packet = padded message 70; iface = iface.name } ∷ []),
          if output (padded message 70) iface.name then 0 else 1,
        ))
      × (is_packet_valid message ≡ true)
      × (ip_proto message ≡ 1)
      × (ip_dst message ≡ get32 src 26)
      × (get8 message 34 ≡ type)
      × (get8 message 35 ≡ code)
      × (slice message 42 28 ≡ slice src 14 28)
unfolding send_icmp_packet
send_icmp_packet-error output now rs src type code next_hop name iface ace route port cached six
      six' lt error =
    let payload = icmp_payload src type in
    let source = icmp_source src type code iface in
    let dest = get32 src 26 in
    let size = ap length (quoted src type error) in
    (
      rw (send_icmp_packet, route, port, ==_false type echo_reply error)
          (send_ip-cached output now rs (icmp_packet type code payload source dest iface.addr)
              (38 + length payload) next_hop iface.name ace cached
            ∙ ap
                (λ (n : ℕ). some (
                  delivered output rs
                    (message type code payload source dest iface.addr ace.arp_ha six six' lt)
                    iface.name n))
                {x = 38 + length payload} {y = 70} (omega (arith, size))),
      is_packet_valid_of _
          (message-Valid type code payload source dest iface.addr ace.arp_ha six six' lt),
      message-proto type code payload source dest iface.addr ace.arp_ha six six' lt,
      message-dest type code payload source dest iface.addr ace.arp_ha six six' lt,
      message-type type code payload source dest iface.addr ace.arp_ha six six' lt,
      message-code type code payload source dest iface.addr ace.arp_ha six six' lt,
      slice_eq src (message type code payload source dest iface.addr ace.arp_ha six six' lt) 14 42
          28
          (λ i small.
            ap (get8 (message type code payload source dest iface.addr ace.arp_ha six six' lt))
              {x = 42 + i} {y = 38 + (4 + i)} (omega arith)
            ∙ message-payload type code payload source dest iface.addr ace.arp_ha six six' lt
                (4 + i) (omega (arith, size))
            ∙ ap (λ (l : List ℕ). get_or l (4 + i) 0) (quoted src type error)
            ∙ get_or-quoted src i small),
    )
