-- ===== src/Checksum/Tests.antt =====
-- The checksums on an IP header.
use osnt_plus.Prelude.{◌*◌, ◌≡◌, refl, [], ◌∷◌, arith}
use osnt_plus.Packet.{Packet, get8, get16, set16}
use osnt_plus.Net.{ntohs}
use osnt_plus.Checksum.{
  ip_hdr, ip_hl, fold_complement, sum_but, compute_ip_checksum, store_ip_checksum, verify_checksum,
}
use osnt_plus.Checksum.Header.{verify_checksum-store}

-- 14 bytes of Ethernet, then a header from 10.0.1.5 to 10.7.0.1
abbrev header : Packet
header =
    0 ∷ 0 ∷ 0 ∷ 0 ∷ 0 ∷ 0 ∷ 0 ∷ 0 ∷ 0 ∷ 0 ∷ 0 ∷ 0 ∷ 8 ∷ 0 ∷ 0x45 ∷ 0 ∷ 0 ∷ 40 ∷ 0 ∷ 1 ∷ 0x40 ∷ 0
    ∷ 64 ∷ 6 ∷ 7 ∷ 9 ∷ 10 ∷ 0 ∷ 1 ∷ 5 ∷ 10 ∷ 7 ∷ 0 ∷ 1 ∷ []

header_checksum : (compute_ip_checksum header).1 ≡ 0x25C3
unfolding compute_ip_checksum sum_but fold_complement get16 set16 ntohs
header_checksum = refl

ip_hl-header : ip_hl header ≡ 5
unfolding get8
ip_hl-header = refl

verify_example :
    verify_checksum (store_ip_checksum header) ip_hdr (4 * ip_hl (store_ip_checksum header)) ≡ 0
verify_example = verify_checksum-store header (omega (arith, ip_hl-header)) (omega arith)
