-- ===== src/Pwospf/Flood/Framed.antt =====
-- The frame that `broadcast_pwospf_lsu_packet` puts around an update carries its bytes.
use osnt_plus.Prelude.{
  ℕ, zero, suc, ◌+◌, ◌*◌, ◌<◌, ◌≡◌, refl, ap, ◌∙◌, List, arith, length, get_or, ltb, ◌||◌,
  if◌then◌else◌,
}
use osnt_plus.Net.{ntohs}
use osnt_plus.State.{IfaceEntry, NbrRouter}
use osnt_plus.Packet.{Packet, get8}
use osnt_plus.Packet.Words.{get16_of}
use osnt_plus.Checksum.{short}
use osnt_plus.Checksum.Frame.{
  populate_eth_hdr-SameIp, get8-store_ip_checksum, length-store_ip_checksum,
  length-populate_eth_hdr,
}
use osnt_plus.Headers.{zeros}
use osnt_plus.Headers.Ip.{length-zeros, get8-populate_ip, length-populate_ip}
use osnt_plus.Headers.Laws.{length-blit, get8-blit}
use osnt_plus.Arp.{slice}
use osnt_plus.Pwospf.{sum_pwospf}
use osnt_plus.Pwospf.Flood.{framed_lsu}

-- The `n` bytes from `h` on are those from `h'` on in the other packet.
abbrev pub SameBytes : Packet → ℕ → Packet → ℕ → ℕ → Type 0
SameBytes p h q h' n = (i : ℕ) → i < n → get8 q (h' + i) ≡ get8 p (h + i)

pub sum_pwospf-SameBytes :
    (p q : Packet) (h h' rounds i sum : ℕ)
    → SameBytes p h q h' (2 * (i + rounds))
    → sum_pwospf q h' rounds i sum ≡ sum_pwospf p h rounds i sum
unfolding sum_pwospf
sum_pwospf-SameBytes p q h h' zero i sum same = refl
sum_pwospf-SameBytes p q h h' (suc rounds) i sum same =
    sum_pwospf-SameBytes p q h h' rounds (i + 1)
      (if ltb i 8 || ltb 11 i then sum + short q h' i else sum) (λ j lt. same j (omega arith))
    ∙ ap
        (λ (w : ℕ).
          sum_pwospf p h rounds (i + 1) (if ltb i 8 || ltb 11 i then sum + ntohs w else sum))
        (get16_of p q (h + 2 * i) (h' + 2 * i) (same (2 * i) (omega arith)) (
          byte (h' + 2 * i + 1) (h + 2 * i + 1) (2 * i + 1) (omega arith) (omega arith)
            (omega arith)))
  where
    byte : (a b k : ℕ) → a ≡ h' + k → b ≡ h + k → k < 2 * (i + suc rounds) → get8 q a ≡ get8 p b
    byte a b k ea eb lt = rw (ea, eb) (same k lt)

-- The frame carries the update.
pub get8-framed_lsu :
    (iface : IfaceEntry) (nbr : NbrRouter) (lsu : List ℕ) (i : ℕ)
    → length iface.addr ≡ 6
    → i < length lsu
    → get8 (framed_lsu iface nbr lsu) (34 + i) ≡ get_or lsu i 0
unfolding framed_lsu
get8-framed_lsu iface nbr lsu i six lt =
    populate_eth_hdr-SameIp _ iface.addr 0x0800 six (34 + i) (omega arith)
    ∙ get8-store_ip_checksum _ (34 + i) (omega arith) (omega arith)
    ∙ get8-populate_ip _ (length lsu) 0x59 iface.ip nbr.ip (34 + i) (omega arith)
    ∙ get8-blit (zeros (34 + length lsu)) 34 i lsu (omega (arith, length-zeros (34 + length lsu)))
        lt

pub length-framed_lsu :
    (iface : IfaceEntry) (nbr : NbrRouter) (lsu : List ℕ)
    → length (framed_lsu iface nbr lsu) ≡ 34 + length lsu
unfolding framed_lsu
length-framed_lsu iface nbr lsu =
    length-populate_eth_hdr _ iface.addr 0x0800
    ∙ length-store_ip_checksum _
    ∙ length-populate_ip _ (length lsu) 0x59 iface.ip nbr.ip
    ∙ length-blit (zeros (34 + length lsu)) 34 lsu
    ∙ length-zeros (34 + length lsu)

pub length-slice : (p : Packet) (at n : ℕ) → length (slice p at n) ≡ n
length-slice p at zero = refl
length-slice p at (suc n) = ap suc (length-slice p (at + 1) n)

pub get_or-slice : (p : Packet) (at n i : ℕ) → i < n → get_or (slice p at n) i 0 ≡ get8 p (at + i)
get_or-slice p at zero i lt = absurd (omega arith)
get_or-slice p at (suc n) zero lt = ap (λ (j : ℕ). get8 p j) {x = at} {y = at + 0} (omega arith)
get_or-slice p at (suc n) (suc i) lt =
    get_or-slice p (at + 1) n i (omega arith)
    ∙ ap (λ (j : ℕ). get8 p j) {x = at + 1 + i} {y = at + suc i} (omega arith)
