-- ===== src/Arp/Reply.antt =====
-- The packet that answers an ARP request.
use osnt_plus.Prelude.{ℕ, ◌^◌, ◌<◌, ◌≡◌, refl, [], ◌∷◌, arith}
use osnt_plus.Net.{ntohs}
use osnt_plus.State.{IfaceEntry}
use osnt_plus.Packet.{Packet, get8, get16, get32, set8, set16, set32}
use osnt_plus.Headers.{blit, zeros, blit?, populate_eth_hdr, populate_arp_hdr}
use osnt_plus.Arp.{arp_reply, arp_op, arp_sha, arp_sip, arp_tip, slice}

-- Where the interface has a hardware address of six bytes and its address and the sender's are
-- 32-bit numbers, the answer to an ARP request goes from the interface to the sender of the frame,
-- is a reply, names the interface's hardware and protocol address as its sender, and the asking
-- address as its target.
pub arp_reply_lem :
    (p : Packet) (iface : IfaceEntry) (a b c d e f : ℕ)
    → iface.addr ≡ a ∷ b ∷ c ∷ d ∷ e ∷ f ∷ []
    → iface.ip < 2 ^ 32
    → arp_sip p < 2 ^ 32
    → let reply = arp_reply p iface in
      (slice reply 0 6 ≡ slice p 6 6)
      × (slice reply 6 6 ≡ iface.addr)
      × (arp_op reply ≡ 2)
      × (arp_sha reply ≡ iface.addr)
      × (arp_sip reply ≡ iface.ip)
      × (arp_tip reply ≡ arp_sip p)
unfolding arp_reply populate_eth_hdr populate_arp_hdr blit? zeros blit set8 set16 set32 get8 get16
    get32 ntohs
arp_reply_lem p iface a b c d e f addr ip sip =
    rw addr (refl, refl, refl, refl, omega arith, omega arith)
