-- ===== src/Headers.antt =====
-- The `populate_*` functions of scone/or_utils.c, which fill in the headers of a packet. The
-- offsets are those of a frame: the Ethernet header at 0, ARP or IP at 14, what IP carries at 34.
-- Addresses are in network order, ports, lengths and types in host order.
pub mod Ip
pub mod Laws
use osnt_plus.Prelude.{ℕ, zero, suc, ◌+◌, ◌*◌, ◌/◌, ◌%◌, Option, none, some, List, [], ◌∷◌, ◌++◌}
use osnt_plus.Net.{htons, htonl}
use osnt_plus.Packet.{Packet, set8, set16, set32}

-- `memcpy(packet + at, bytes, n)`
unfoldable pub blit : Packet → ℕ → List ℕ → Packet
blit p at [] = p
blit p at (b ∷ bytes) = blit (set8 p at b) (at + 1) bytes

-- `calloc` or `bzero` of `n` bytes
unfoldable pub zeros : ℕ → Packet
zeros zero = []
zeros (suc n) = 0 ∷ zeros n

unfoldable pub bzero : Packet → ℕ → ℕ → Packet
unfolding zeros
bzero p at n = blit p at (zeros n)

-- `memcpy` from a pointer that may be null
unfoldable pub blit? : Packet → ℕ → Option (List ℕ) → Packet
unfolding blit
blit? p at none = p
blit? p at (some bytes) = blit p at bytes

unfoldable pub populate_eth_hdr : Packet → Option (List ℕ) → List ℕ → ℕ → Packet
populate_eth_hdr p dhost shost type = set16 (blit (blit? p 0 dhost) 6 shost) 12 (htons type)

unfoldable pub populate_arp_hdr : Packet → Option (List ℕ) → ℕ → List ℕ → ℕ → ℕ → Packet
populate_arp_hdr p arp_tha arp_tip arp_sha arp_sip op =
    let p = set16 p 14 (htons 0x0001) in
    let p = set16 p 16 (htons 0x0800) in
    let p = set8 p 18 6 in
    let p = set8 p 19 4 in
    let p = set16 p 20 (htons op) in
    let p = blit p 22 arp_sha in
    let p = set32 p 28 arp_sip in let p = blit? p 32 arp_tha in set32 p 38 arp_tip

-- `uint16_t` length: 20 + payload_size
unfoldable pub populate_ip : Packet → ℕ → ℕ → ℕ → ℕ → Packet
populate_ip p payload_size protocol source_ip dest_ip =
    let p = bzero p 14 20 in
    let p = set8 p 14 0x45 in
    let p = set16 p 20 (htons 0x4000) in
    let p = set16 p 16 (htons ((20 + payload_size) % 65536)) in
    let p = set8 p 22 0x40 in
    let p = set8 p 23 protocol in let p = set32 p 26 source_ip in set32 p 30 dest_ip

unfoldable pub populate_icmp : Packet → ℕ → ℕ → List ℕ → Packet
populate_icmp p icmp_type icmp_code payload =
    let p = bzero p 34 4 in
    let p = set8 p 34 icmp_type in let p = set8 p 35 icmp_code in blit p 38 payload
