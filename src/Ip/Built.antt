-- ===== src/Ip/Built.antt =====
-- The packets that the router builds itself are valid, and an ICMP error says what it is about.
use osnt_plus.Prelude.{ℕ, ◌+◌, ◌*◌, ◌/◌, ◌%◌, ◌^◌, ◌≤◌, ◌<◌, ◌≡◌, ◌≢◌, refl, ap, ◌∙◌, arith, length}
use osnt_plus.Net.{ntohs, htons}
use osnt_plus.Packet.{Packet, get8, get16, get32, set8, set16, set32}
use osnt_plus.Packet.Laws.{
  get8-set8_self, get8-set8_ne, get8-set16_ne, get16-set16_self, length-set8, length-set16,
}
use osnt_plus.Packet.Words.{
  length-set32, get8-set32_apart, get32-set32_self, get32-set32_apart, get16_of,
}
use osnt_plus.Checksum.{ip_hdr, ip_hl, verify_checksum, store_ip_checksum}
use osnt_plus.Checksum.Header.{verify_checksum-store}
use osnt_plus.Checksum.Frame.{SameIp, verify_checksum-SameIp, get8-store_ip_checksum}
use osnt_plus.Headers.{zeros, bzero, populate_ip}
use osnt_plus.Headers.Laws.{length-blit}
use osnt_plus.Ip.Forward.{Valid}

module _ (p : Packet) (n proto src dest : ℕ) (long : 34 ≤ length p) where
  abbrev base : Packet
  base = bzero p 14 20

  abbrev one : Packet
  one = set8 base 14 0x45

  abbrev two : Packet
  two = set16 one 20 (htons 0x4000)

  abbrev three : Packet
  three = set16 two 16 (htons ((20 + n) % 65536))

  abbrev four : Packet
  four = set8 three 22 0x40

  abbrev five : Packet
  five = set8 four 23 proto

  abbrev six : Packet
  six = set32 five 26 src

  abbrev seven : Packet
  seven = set32 six 30 dest

  length-base : length base ≡ length p
  unfolding bzero
  length-base = length-blit p 14 (zeros 20)

  length-five : length five ≡ length p
  length-five =
      length-set8 four 23 proto
      ∙ length-set8 three 22 0x40
      ∙ length-set16 two 16 (htons ((20 + n) % 65536))
      ∙ length-set16 one 20 (htons 0x4000)
      ∙ length-set8 base 14 0x45
      ∙ length-base

  outer : (j : ℕ) → j ≢ 22 → j ≢ 23 → j < 26 → get8 seven j ≡ get8 three j
  outer j a b lt =
      get8-set32_apart six 30 j dest (omega arith)
      ∙ get8-set32_apart five 26 j src (omega arith)
      ∙ get8-set8_ne four 23 j proto (omega arith)
      ∙ get8-set8_ne three 22 j 0x40 (omega arith)

  pub built-first : get8 (populate_ip p n proto src dest) 14 ≡ 0x45
  unfolding populate_ip
  built-first =
      outer 14 (omega arith) (omega arith) (omega arith)
      ∙ get8-set16_ne two 16 14 (htons ((20 + n) % 65536)) (omega arith) (omega arith)
      ∙ get8-set16_ne one 20 14 (htons 0x4000) (omega arith) (omega arith)
      ∙ get8-set8_self base 14 0x45 (omega (arith, length-base))

  pub built-off : get16 (populate_ip p n proto src dest) 20 ≡ 64
  unfolding populate_ip ntohs
  built-off =
      get16_of two seven 20 20
        (outer 20 (omega arith) (omega arith) (omega arith)
          ∙ get8-set16_ne two 16 20 (htons ((20 + n) % 65536)) (omega arith) (omega arith))
        (outer 21 (omega arith) (omega arith) (omega arith)
          ∙ get8-set16_ne two 16 21 (htons ((20 + n) % 65536)) (omega arith) (omega arith))
      ∙ get16-set16_self one 20 64 (omega (arith, length-base, length-set8 base 14 0x45))
          (omega arith)

  pub built-proto : get8 (populate_ip p n proto src dest) 23 ≡ proto
  unfolding populate_ip
  built-proto =
      get8-set32_apart six 30 23 dest (omega arith)
      ∙ get8-set32_apart five 26 23 src (omega arith)
      ∙ get8-set8_self four 23 proto (omega (arith, length-five, length-set8 four 23 proto))

  pub built-src : src < 2 ^ 32 → get32 (populate_ip p n proto src dest) 26 ≡ src
  unfolding populate_ip
  built-src lt =
      get32-set32_apart six 30 26 dest (omega arith)
      ∙ get32-set32_self five 26 src (omega (arith, length-five)) lt

  pub built-dest : dest < 2 ^ 32 → get32 (populate_ip p n proto src dest) 30 ≡ dest
  unfolding populate_ip
  built-dest lt =
      get32-set32_self six 30 dest (omega (arith, length-five, length-set32 five 26 src)) lt

  pub length-built : length (populate_ip p n proto src dest) ≡ length p
  unfolding populate_ip
  length-built = length-set32 six 30 dest ∙ length-set32 five 26 src ∙ length-five

-- A header without options that is not a fragment, with its checksum stored.
pub Valid-SameIp :
    (p q : Packet)
    → SameIp (store_ip_checksum p) q
    → 34 ≤ length p
    → get8 p ip_hdr ≡ 0x45
    → get16 p 20 ≡ 64
    → Valid q
unfolding ntohs
Valid-SameIp p q same long first off = record {
  version = ap (λ (b : ℕ). b / 16 % 16) head;
  no_options = ap (λ (b : ℕ). b % 16) head;
  not_fragment = rw frag refl;
  good_sum =
      verify_checksum-SameIp (store_ip_checksum p) q (4 * ip_hl q) same
      ∙ ap (λ (b : ℕ). verify_checksum (store_ip_checksum p) ip_hdr (4 * (b % 16)))
          (same ip_hdr (omega arith))
      ∙ verify_checksum-store p (omega (arith, first)) (omega (arith, long));
}
  where
    byte : (j : ℕ) → 14 ≤ j → j ≢ 24 → j ≢ 25 → get8 q j ≡ get8 p j
    byte j h a b = same j h ∙ get8-store_ip_checksum p j a b

    head : get8 q ip_hdr ≡ 0x45
    head = byte 14 (omega arith) (omega arith) (omega arith) ∙ first

    frag : get16 q 20 ≡ 64
    frag =
        get16_of p q 20 20 (byte 20 (omega arith) (omega arith) (omega arith))
          (byte 21 (omega arith) (omega arith) (omega arith))
        ∙ off
