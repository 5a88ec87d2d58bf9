-- ===== src/Checksum/Frame.antt =====
-- The IP checksum of a frame does not depend on its Ethernet header, and storing it touches only its
-- field.
use osnt_plus.Prelude.{
  ℕ, zero, suc, ◌+◌, ◌*◌, ◌/◌, ◌%◌, ◌^◌, ◌≤◌, ◌≡◌, ◌≢◌, refl, ap, ◌∙◌, arith, length, List, none,
  if◌then◌else◌, ◌==◌,
}
use osnt_plus.Net.{ntohs}
use osnt_plus.Packet.{Packet, get8, get16, get32, set16}
use osnt_plus.Packet.Laws.{get8-set16_ne, length-set16}
use osnt_plus.Checksum.{
  ip_hdr, short, sum_all, verify_checksum, compute_ip_checksum, store_ip_checksum,
}
use osnt_plus.Headers.{blit, blit?, populate_eth_hdr}
use osnt_plus.Headers.Laws.{get8-blit_apart, length-blit}

-- The two frames agree from the IP header on.
abbrev pub SameIp : Packet → Packet → Type 0
SameIp p q = (j : ℕ) → 14 ≤ j → get8 q j ≡ get8 p j

pub get16-SameIp : (p q : Packet) (j : ℕ) → SameIp p q → 14 ≤ j → get16 q j ≡ get16 p j
unfolding get16
get16-SameIp p q j same h = omega (arith, same j h, same (j + 1) (omega arith))

pub get32-SameIp : (p q : Packet) (j : ℕ) → SameIp p q → 14 ≤ j → get32 q j ≡ get32 p j
unfolding get32
get32-SameIp p q j same h =
    omega (arith, get16-SameIp p q j same h, get16-SameIp p q (j + 2) same (omega arith))

pub sum_all-SameIp :
    (p q : Packet) (rounds i sum : ℕ)
    → SameIp p q
    → sum_all q ip_hdr rounds i sum ≡ sum_all p ip_hdr rounds i sum
unfolding sum_all
sum_all-SameIp p q zero i sum same = refl
sum_all-SameIp p q (suc rounds) i sum same =
    sum_all-SameIp p q rounds (i + 1) ((sum + short q ip_hdr i) % 2 ^ 32) same
    ∙ ap (λ (w : ℕ). sum_all p ip_hdr rounds (i + 1) ((sum + ntohs w) % 2 ^ 32))
        (get16-SameIp p q (ip_hdr + 2 * i) same (omega arith))

pub verify_checksum-SameIp :
    (p q : Packet) (n : ℕ) → SameIp p q → verify_checksum q ip_hdr n ≡ verify_checksum p ip_hdr n
unfolding verify_checksum
verify_checksum-SameIp p q n same =
    ap (λ (s : ℕ). if (s / 65536 + s % 65536) % 65536 == 65535 then 0 else 1)
      (sum_all-SameIp p q (n / 2) 0 0 same)

pub populate_eth_hdr-SameIp :
    (p : Packet) (addr : List ℕ) (type : ℕ)
    → length addr ≡ 6
    → SameIp p (populate_eth_hdr p none addr type)
unfolding populate_eth_hdr blit?
populate_eth_hdr-SameIp p addr type six j h =
    get8-set16_ne (blit p 6 addr) 12 j _ (omega arith) (omega arith)
    ∙ get8-blit_apart p 6 j addr (omega arith)

pub blit-SameIp : (p : Packet) (mac : List ℕ) → length mac ≡ 6 → SameIp p (blit p 0 mac)
blit-SameIp p mac six j h = get8-blit_apart p 0 j mac (omega arith)

pub SameIp-trans : (p q r : Packet) → SameIp p q → SameIp q r → SameIp p r
SameIp-trans p q r f g = λ j h. g j h ∙ f j h

pub get8-store_ip_checksum :
    (p : Packet) (j : ℕ) → j ≢ 24 → j ≢ 25 → get8 (store_ip_checksum p) j ≡ get8 p j
unfolding store_ip_checksum compute_ip_checksum
get8-store_ip_checksum p j h k =
    get8-set16_ne (set16 p 24 0) 24 j _ h k ∙ get8-set16_ne p 24 j 0 h k

pub length-store_ip_checksum : (p : Packet) → length (store_ip_checksum p) ≡ length p
unfolding store_ip_checksum compute_ip_checksum
length-store_ip_checksum p = length-set16 (set16 p 24 0) 24 _ ∙ length-set16 p 24 0

pub length-populate_eth_hdr :
    (p : Packet) (addr : List ℕ) (type : ℕ) → length (populate_eth_hdr p none addr type) ≡ length p
unfolding populate_eth_hdr blit?
length-populate_eth_hdr p addr type = length-set16 (blit p 6 addr) 12 _ ∙ length-blit p 6 addr
