-- ===== src/Pwospf/Whole.antt =====
-- Packets that hold what the handlers read, and what the check of a packet leaves of it.
use osnt_plus.Prelude.{
  ℕ, ◌+◌, ◌*◌, ◌≤◌, ◌≡◌, refl, sym, ◌∙◌, arith, length, not, Bool, true, false, if◌then◌else◌, ◌==◌,
}
use osnt_plus.Net.{htons, ntohs, ntohl}
use osnt_plus.Packet.{Packet, set16}
use osnt_plus.Packet.Laws.{length-set16, get8-set16_ne, get16-set16_apart}
use osnt_plus.NatPacket.Laws.{get32-set16_apart}
use osnt_plus.Pwospf.{
  pwospf_hdr, pwospf_ver, pwospf_len, pwospf_type, type_hello, type_lsu, lsu_num, hello_mask,
  pwospf_sum, pwospf_atype, pwospf_aid, pwospf_rid, compute_pwospf_checksum, is_pwospf_packet_valid,
}
use osnt_plus.Pwospf.Lsu.{holds_header, holds_adverts, holds_copy}

-- What a packet must hold, besides the header, for the code to read no byte behind it: what its length
-- says, the hello header, and the advertisements that an update counts, whose length is 28 at least.
pub record Whole (p : Packet) : Type 0 where
  pub header : 58 ≤ length p
  pub body : 34 + ntohs (pwospf_len p pwospf_hdr) ≤ length p
  pub hello : pwospf_type p pwospf_hdr ≡ type_hello → 66 ≤ length p
  pub update :
      pwospf_type p pwospf_hdr ≡ type_lsu
      → (28 ≤ ntohs (pwospf_len p pwospf_hdr)) × (66 + 12 * ntohl (lsu_num p pwospf_hdr) ≤ length p)

pub header-Whole : (p : Packet) → Whole p → holds_header p ≡ true
unfolding holds_header
header-Whole p w = ground (arith, w.header, w.body)

pub adverts-Whole :
    (p : Packet) → Whole p → pwospf_type p pwospf_hdr ≡ type_lsu → holds_adverts p ≡ true
unfolding holds_adverts
adverts-Whole p w kind = let (_, counted) = w.update kind in ground (arith, counted)

pub copy-Whole : (p : Packet) → Whole p → pwospf_type p pwospf_hdr ≡ type_lsu → holds_copy p ≡ true
unfolding holds_copy
copy-Whole p w kind = let (room, _) = w.update kind in ground (arith, room, w.body)

-- The check zeroes the checksum at most, which no handler reads.
pub record Checked (p q : Packet) : Type 0 where
  pub size : length q ≡ length p
  pub type : pwospf_type q pwospf_hdr ≡ pwospf_type p pwospf_hdr
  pub len : pwospf_len q pwospf_hdr ≡ pwospf_len p pwospf_hdr
  pub mask : hello_mask q pwospf_hdr ≡ hello_mask p pwospf_hdr
  pub count : lsu_num q pwospf_hdr ≡ lsu_num p pwospf_hdr

Checked-refl : (p : Packet) → Checked p p
Checked-refl p = record { size = refl; type = refl; len = refl; mask = refl; count = refl }

Checked-zeroed : (p : Packet) → Checked p (set16 p 46 0)
Checked-zeroed p = record {
  size = length-set16 p 46 0;
  type = get8-set16_ne p 46 35 0 (omega arith) (omega arith);
  len = get16-set16_apart p 46 36 0 (omega arith);
  mask = get32-set16_apart p 46 58 0 (omega arith);
  count = get32-set16_apart p 46 62 0 (omega arith);
}

-- The five tests of the check, of which the first stands before the checksum is zeroed
branches :
    (P : Packet → Type 0) (version sum atype aid rid : Bool) (p p' : Packet)
    → P p
    → P p'
    → P (
        (if◌then◌else◌ {A = Packet × Bool} version
          (p, false)
          (if sum
            then (p', false)
            else if atype
            then (p', false)
            else if aid
            then (p', false)
            else if rid
            then (p', false)
            else (p', true))).0)
branches P true sum atype aid rid p p' hp hp' = hp
branches P false true atype aid rid p p' hp hp' = hp'
branches P false false true aid rid p p' hp hp' = hp'
branches P false false false true rid p p' hp hp' = hp'
branches P false false false false true p p' hp hp' = hp'
branches P false false false false false p p' hp hp' = hp'

pub is_pwospf_packet_valid-Checked :
    (area_id router_id : ℕ) (p : Packet)
    → Checked p ((is_pwospf_packet_valid area_id router_id p).0)
unfolding is_pwospf_packet_valid compute_pwospf_checksum
is_pwospf_packet_valid-Checked area_id router_id p =
    let p' = set16 p 46 0 in
    branches (Checked p) (not (pwospf_ver p pwospf_hdr == 2))
      (not (htons (pwospf_sum p pwospf_hdr) == (compute_pwospf_checksum p pwospf_hdr).1))
      (not (ntohs (pwospf_atype p' pwospf_hdr) == 0))
      (not (ntohl (pwospf_aid p' pwospf_hdr) == area_id))
      (ntohl (pwospf_rid p' pwospf_hdr) == router_id) p p' (Checked-refl p) (Checked-zeroed p)

pub Checked-Whole : (p q : Packet) → Checked p q → Whole p → Whole q
Checked-Whole p q c w = record {
  header = rw c.size w.header;
  body = rw (c.size, c.len) w.body;
  hello = λ kind. rw c.size (w.hello (sym c.type ∙ kind));
  update = λ kind. rw (c.size, c.len, c.count) (w.update (sym c.type ∙ kind));
}
