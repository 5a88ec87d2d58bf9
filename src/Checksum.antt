-- ===== src/Checksum.antt =====
-- The Internet checksums of scone: `compute_ip_checksum` and `verify_checksum` of or_ip.c,
-- `compute_icmp_checksum` of or_icmp.c. The sum of `compute_ip_checksum` is an unsigned long of at
-- most 30 shorts, and that of ICMP one of a packet's shorts, so neither wraps; that of
-- `verify_checksum` is a uint32_t, and its wrap is written out.
pub mod Frame
pub mod Header
mod Tests
use osnt_plus.Prelude.{ℕ, zero, suc, ◌+◌, ◌-◌, ◌*◌, ◌/◌, ◌%◌, ◌^◌, ◌==◌, if◌then◌else◌}
use osnt_plus.Net.{ntohs}
use osnt_plus.Packet.{Packet, get8, get16, set16}

-- `get_ip_hdr(packet, len)`, as an offset
abbrev pub ip_hdr : ℕ
ip_hdr = 14

-- The offset of `ip_sum` in the header.
abbrev pub ip_sum : ℕ
ip_sum = ip_hdr + 10

-- The low four bits of the first byte: the first bit-field on a little-endian host.
abbrev pub ip_hl : Packet → ℕ
ip_hl p = get8 p ip_hdr % 16

-- `ntohs(s_ptr[i])` of the shorts that start at `offset`
abbrev pub short : Packet → ℕ → ℕ → ℕ
short p offset i = ntohs (get16 p (offset + 2 * i))

-- The `for` that sums the shorts but the one at `skip`.
unfoldable pub sum_but : Packet → ℕ → ℕ → ℕ → ℕ → ℕ → ℕ
sum_but p offset skip zero i sum = sum
sum_but p offset skip (suc rounds) i sum =
    sum_but p offset skip rounds (i + 1) (if i == skip then sum else sum + short p offset i)

-- "sum carries" and "ones compliment"
unfoldable pub fold_complement : ℕ → ℕ
fold_complement sum = let once = sum / 65536 + sum % 65536 in 65535 - (once + once / 65536) % 65536

-- Zeroes the field `ip_sum`, and returns the checksum in host order.
unfoldable pub compute_ip_checksum : Packet → Packet × ℕ
compute_ip_checksum p =
    let p' = set16 p ip_sum 0 in (p', fold_complement (sum_but p' ip_hdr 5 (ip_hl p' * 2) 0 0))

-- `ip->ip_sum = htons(compute_ip_checksum(ip))`
unfoldable pub store_ip_checksum : Packet → Packet
store_ip_checksum p = let (p', checksum) = compute_ip_checksum p in set16 p' ip_sum (ntohs checksum)

-- `compute_icmp_checksum(icmp, payload_len)`, with `shorts` the number of shorts of the header and
-- the payload, rounded down. Zeroes the field, and returns the checksum in host order.
unfoldable pub compute_icmp_checksum : Packet → ℕ → ℕ → Packet × ℕ
compute_icmp_checksum p icmp shorts =
    let p' = set16 p (icmp + 2) 0 in (p', fold_complement (sum_but p' icmp 1 shorts 0 0))

-- The `for` of `verify_checksum`, over a uint32_t.
unfoldable pub sum_all : Packet → ℕ → ℕ → ℕ → ℕ → ℕ
sum_all p offset zero i sum_2_comp = sum_2_comp
sum_all p offset (suc rounds) i sum_2_comp =
    sum_all p offset rounds (i + 1) ((sum_2_comp + short p offset i) % 2 ^ 32)

-- 0 if the checksum is good, 1 otherwise. `sum_1_comp` is a uint16_t.
unfoldable pub verify_checksum : Packet → ℕ → ℕ → ℕ
unfolding sum_all
verify_checksum p offset data_length =
    let sum_2_comp = sum_all p offset (data_length / 2) 0 0 in
    let sum_1_comp = (sum_2_comp / 65536 + sum_2_comp % 65536) % 65536 in
    if sum_1_comp == 65535 then 0 else 1
