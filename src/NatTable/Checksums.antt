-- ===== src/NatTable/Checksums.antt =====
-- The incremental checksum of the address translation, in one's complement arithmetic: numbers
-- modulo 65535.
use osnt_plus.Prelude.{ℕ, ◌+◌, ◌*◌, ◌%◌, ◌^◌, ◌<◌, ◌≡◌, arith}
use osnt_plus.Net.{ntohs, ntohs-lt}
use osnt_plus.Checksum.{fold_complement}
use osnt_plus.Checksum.Header.{fold_complement-lt}
use osnt_plus.State.{NatIpPortPair}
use osnt_plus.NatTable.{low_short, high_short, compute_nat_checksums, nat_checksum}

-- On shorts, `nat_checksum` adds `pos` and takes away `neg` in one's complement arithmetic, and
-- gives a short.
pub nat_checksum_lem :
    (old pos neg : ℕ)
    → old < 65536
    → pos < 65536
    → neg < 65536
    → ((nat_checksum old pos neg + neg) % 65535 ≡ (old + pos) % 65535)
      × (nat_checksum old pos neg < 65536)
unfolding nat_checksum
nat_checksum_lem old pos neg ho hp hn = ground arith

-- Swapping the bytes multiplies by 256.
ntohs-mod : (x : ℕ) → x < 65536 → ntohs x % 65535 ≡ 256 * x % 65535
unfolding ntohs
ntohs-mod x h = omega arith

fold_complement-mod : (s : ℕ) → s < 2 ^ 24 → (s + fold_complement s) % 65535 ≡ 0
unfolding fold_complement
fold_complement-mod s h = omega arith

-- A number of 16 bits and the swapped complement of its swap make up 0.
swap_back : (x s : ℕ) → s < 65536 → (256 * x + s) % 65535 ≡ 0 → (x + ntohs s) % 65535 ≡ 0
unfolding ntohs
swap_back x s h e = omega arith

-- The shorts that a cached checksum stands for.
abbrev pub ip_shorts : NatIpPortPair → ℕ
ip_shorts pair = low_short pair.ip + high_short pair.ip

cancels :
    (a b c : ℕ)
    → a < 65536
    → b < 65536
    → c < 65536
    → (a + b + c + ntohs (fold_complement (ntohs a + ntohs b + ntohs c))) % 65535 ≡ 0
cancels a b c ha hb hc = swap_back (a + b + c) (fold_complement s) (fold_complement-lt s) (
    omega (
      arith,
      ntohs-mod a ha,
      ntohs-mod b hb,
      ntohs-mod c hc,
      fold_complement-mod s (omega (arith, ntohs-lt a, ntohs-lt b, ntohs-lt c)),
    ))
  where
    s : ℕ
    s = ntohs a + ntohs b + ntohs c

cancels_two :
    (a b : ℕ)
    → a < 65536
    → b < 65536
    → (a + b + ntohs (fold_complement (ntohs a + ntohs b))) % 65535 ≡ 0
cancels_two a b ha hb = swap_back (a + b) (fold_complement s) (fold_complement-lt s) (
    omega (
      arith,
      ntohs-mod a ha,
      ntohs-mod b hb,
      fold_complement-mod s (omega (arith, ntohs-lt a, ntohs-lt b)),
    ))
  where
    s : ℕ
    s = ntohs a + ntohs b

-- Where the port is a short, the cached checksums of a pair cancel its address and port, its
-- address, and its port.
pub compute_nat_checksums_lem :
    (pair : NatIpPortPair)
    → pair.port < 65536
    → let q = compute_nat_checksums pair in
      ((ip_shorts pair + pair.port + q.checksum) % 65535 ≡ 0)
      × ((ip_shorts pair + q.checksum_ip) % 65535 ≡ 0)
      × ((pair.port + q.checksum_port) % 65535 ≡ 0)
unfolding compute_nat_checksums
compute_nat_checksums_lem pair h = (
  cancels (low_short pair.ip) (high_short pair.ip) pair.port (omega arith) (omega arith) h,
  cancels_two (low_short pair.ip) (high_short pair.ip) (omega arith) (omega arith),
  omega arith,
)

-- The cached checksums are shorts.
pub compute_nat_checksums-lt :
    (pair : NatIpPortPair)
    → let q = compute_nat_checksums pair in
      (q.checksum < 65536) × (q.checksum_ip < 65536) × (q.checksum_port < 65536)
unfolding compute_nat_checksums
compute_nat_checksums-lt pair = (ntohs-lt _, ntohs-lt _, omega arith)

-- A transport checksum that was good stays good when address and port are replaced by those of
-- another pair and the field is updated with the cached checksums of both.
pub nat_checksum_translates :
    (rest old : ℕ) (from to : NatIpPortPair)
    → old < 65536
    → from.port < 65536
    → to.port < 65536
    → (rest + ip_shorts from + from.port + old) % 65535 ≡ 0
    → let field =
        nat_checksum old
          (compute_nat_checksums to).checksum
          (compute_nat_checksums from).checksum in
      (rest + ip_shorts to + to.port + field) % 65535 ≡ 0
nat_checksum_translates rest old from to ho hf ht good =
    let (from_lt, _, _) = compute_nat_checksums-lt from in
    let (to_lt, _, _) = compute_nat_checksums-lt to in
    omega (
      arith,
      nat_checksum_lem old (compute_nat_checksums to).checksum (compute_nat_checksums from).checksum
          ho to_lt from_lt,
      compute_nat_checksums_lem from hf,
      compute_nat_checksums_lem to ht,
    )

-- An IP checksum that was good is off by the old port after an update that takes away the cached
-- checksum of address and port in place of that of the address.
pub nat_ip_checksum_off :
    (rest old : ℕ) (from to : NatIpPortPair)
    → old < 65536
    → from.port < 65536
    → to.port < 65536
    → (rest + ip_shorts from + old) % 65535 ≡ 0
    → let field =
        nat_checksum old
          (compute_nat_checksums to).checksum_ip
          (compute_nat_checksums from).checksum in
      (rest + ip_shorts to + field) % 65535 ≡ from.port % 65535
nat_ip_checksum_off rest old from to ho hf ht good =
    let (from_lt, _, _) = compute_nat_checksums-lt from in
    let (_, to_lt, _) = compute_nat_checksums-lt to in
    omega (
      arith,
      nat_checksum_lem old (compute_nat_checksums to).checksum_ip
          (compute_nat_checksums from).checksum ho to_lt from_lt,
      compute_nat_checksums_lem from hf,
      compute_nat_checksums_lem to ht,
    )
