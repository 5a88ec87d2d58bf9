-- ===== src/Pwospf.antt =====
-- scone/or_pwospf.c: the routing protocol. Here the layout of its packets, the checksum and
-- `is_pwospf_packet_valid`, with `populate_pwospf`, `populate_pwospf_hello` and
-- `populate_pwospf_lsu` of scone/or_utils.c. Its header stands at offset 34 of a frame and at offset 0
-- of a packet that is still to be framed, so the offset `h` of the header is an argument. Ids are in
-- network order, as they lie in memory.
pub mod Adverts
pub mod Duplicates
pub mod Events
pub mod Flood
pub mod Hello
pub mod Keeps
pub mod Lsu
pub mod Routers
mod Tests
pub mod WellFormed
pub mod Whole
use osnt_plus.Prelude.{
  ℕ, zero, suc, ◌+◌, ◌-◌, ◌*◌, ◌/◌, ◌%◌, ◌^◌, Bool, true, false, not, ◌&&◌, ◌||◌, Option, none,
  some, List, [], ◌∷◌, ltb, ◌==◌, if◌then◌else◌,
}
use osnt_plus.Net.{ntohl, ntohs, htonl, htons}
use osnt_plus.Packet.{Packet, get8, get16, get32, set8, set16, set32}
use osnt_plus.Checksum.{short, fold_complement}
use osnt_plus.Headers.{bzero}

-- `get_pwospf_hdr(packet, len)`, as an offset
abbrev pub pwospf_hdr : ℕ
pwospf_hdr = 34

abbrev pub type_hello : ℕ
type_hello = 1

abbrev pub type_lsu : ℕ
type_lsu = 4

-- The fields of the header at `h`, as they lie in memory
abbrev pub pwospf_ver : Packet → ℕ → ℕ
pwospf_ver p h = get8 p h

abbrev pub pwospf_type : Packet → ℕ → ℕ
pwospf_type p h = get8 p (h + 1)

abbrev pub pwospf_len : Packet → ℕ → ℕ
pwospf_len p h = get16 p (h + 2)

abbrev pub pwospf_rid : Packet → ℕ → ℕ
pwospf_rid p h = get32 p (h + 4)

abbrev pub pwospf_aid : Packet → ℕ → ℕ
pwospf_aid p h = get32 p (h + 8)

abbrev pub pwospf_sum : Packet → ℕ → ℕ
pwospf_sum p h = get16 p (h + 12)

abbrev pub pwospf_atype : Packet → ℕ → ℕ
pwospf_atype p h = get16 p (h + 14)

-- Of the hello header, which follows
abbrev pub hello_mask : Packet → ℕ → ℕ
hello_mask p h = get32 p (h + 24)

abbrev pub hello_hint : Packet → ℕ → ℕ
hello_hint p h = get16 p (h + 28)

-- Of the link state update header, which follows
abbrev pub lsu_seq : Packet → ℕ → ℕ
lsu_seq p h = get16 p (h + 24)

abbrev pub lsu_ttl : Packet → ℕ → ℕ
lsu_ttl p h = get16 p (h + 26)

abbrev pub lsu_num : Packet → ℕ → ℕ
lsu_num p h = get32 p (h + 28)

-- `get_pwospf_lsu_data`: the advertisements, 12 bytes each
abbrev pub lsu_data : ℕ → ℕ
lsu_data h = h + 32

-- The loop of `compute_pwospf_checksum`: all shorts but those of the authentication.
unfoldable pub sum_pwospf : Packet → ℕ → ℕ → ℕ → ℕ → ℕ
sum_pwospf p h zero i sum = sum
sum_pwospf p h (suc rounds) i sum =
    sum_pwospf p h rounds (i + 1) (if ltb i 8 || ltb 11 i then sum + short p h i else sum)

-- Zeroes the field, and returns the checksum in host order.
unfoldable pub compute_pwospf_checksum : Packet → ℕ → Packet × ℕ
unfolding sum_pwospf
compute_pwospf_checksum p h =
    let p' = set16 p (h + 12) 0 in
    (p', fold_complement (sum_pwospf p' h (ntohs (pwospf_len p' h) / 2) 0 0))

-- `pwospf->pwospf_sum = htons(compute_pwospf_checksum(pwospf))`
unfoldable pub store_pwospf_checksum : Packet → ℕ → Packet
store_pwospf_checksum p h =
    let (p', checksum) = compute_pwospf_checksum p h in set16 p' (h + 12) (htons checksum)

-- `is_pwospf_packet_valid`: the packet, whose checksum is zeroed if the version is right, and the
-- answer. The last test compares the sender's id in host order with ours in network order.
unfoldable pub is_pwospf_packet_valid : ℕ → ℕ → Packet → Packet × Bool
is_pwospf_packet_valid area_id router_id p =
    if not (pwospf_ver p pwospf_hdr == 2)
    then (p, false)
    else (let pckt_sum = htons (pwospf_sum p pwospf_hdr) in
        let (p', sum) = compute_pwospf_checksum p pwospf_hdr in
        if not (pckt_sum == sum)
        then (p', false)
        else if not (ntohs (pwospf_atype p' pwospf_hdr) == 0)
        then (p', false)
        else if not (ntohl (pwospf_aid p' pwospf_hdr) == area_id)
        then (p', false)
        else if ntohl (pwospf_rid p' pwospf_hdr) == router_id
        then (p', false)
        else (p', true))

-- `populate_pwospf`; `len` is a uint16_t.
unfoldable pub populate_pwospf : Packet → ℕ → ℕ → ℕ → ℕ → ℕ → Packet
populate_pwospf p h type len rid aid =
    let p = bzero p h 24 in
    let p = set8 p h 2 in
    let p = set8 p (h + 1) type in
    let p = set16 p (h + 2) (htons (len % 65536)) in
    let p = set32 p (h + 4) rid in set32 p (h + 8) (htonl aid)

unfoldable pub populate_pwospf_hello : Packet → ℕ → ℕ → ℕ → Packet
populate_pwospf_hello p h mask helloint =
    let p = bzero p (h + 24) 8 in
    let p = set32 p (h + 24) mask in let p = set16 p (h + 28) (htons helloint) in set16 p (h + 30) 0

unfoldable pub populate_pwospf_lsu : Packet → ℕ → ℕ → ℕ → Packet
populate_pwospf_lsu p h seq num =
    let p = bzero p (h + 24) 8 in
    let p = set16 p (h + 24) (htons seq) in
    let p = set16 p (h + 26) (htons 64) in set32 p (h + 28) (htonl num)
