-- ===== src/Checksum/Header.antt =====
-- A header whose checksum field was stored by the router passes its own check.
use osnt_plus.Prelude.{
  ℕ, zero, suc, ◌+◌, ◌*◌, ◌/◌, ◌%◌, ◌^◌, ◌≤◌, ◌<◌, ◌≡◌, ◌≢◌, refl, arith, ◌==◌, ==_iff,
  if◌then◌else◌, length, inl, inr, ap, ◌∙◌, Bool-cases, true, false,
}
use osnt_plus.Net.{ntohs, ntohs-lt, ntohs-ntohs}
use osnt_plus.Packet.{Packet, get16, set16}
use osnt_plus.Packet.Laws.{length-set16, get8-set16_ne, get16-set16_self, get16-set16_apart}
use osnt_plus.Checksum.{
  ip_hdr, ip_sum, ip_hl, short, sum_but, fold_complement, compute_ip_checksum, store_ip_checksum,
  sum_all, verify_checksum,
}

-- Two folds and a complement make up 0xFFFF.
fold_complement_lem :
    (s : ℕ)
    → s < 2 ^ 24
    → let total = s + fold_complement s in (total / 65536 + total % 65536) % 65536 ≡ 65535
unfolding fold_complement
fold_complement_lem s h = omega arith

pub fold_complement-lt : (s : ℕ) → fold_complement s < 65536
unfolding fold_complement
fold_complement-lt s = omega arith

-- The sum of the shorts from `i` on, but the one at `skip`.
sum_but-bound :
    (p : Packet) (offset skip rounds i sum : ℕ)
    → sum_but p offset skip rounds i sum ≤ sum + rounds * 65536
unfolding sum_but
sum_but-bound p offset skip zero i sum = omega arith
sum_but-bound p offset skip (suc rounds) i sum = ground (
  arith,
  ntohs-lt (get16 p (offset + 2 * i)),
  sum_but-bound p offset skip rounds (i + 1) (if i == skip then sum else sum + short p offset i),
)

-- The shorts of `q` are those of `p`, but that at `skip`, which is `c`.
record Patched (p q : Packet) (offset skip c : ℕ) : Type 0 where
  others : (i : ℕ) → i ≢ skip → short q offset i ≡ short p offset i
  patch : short q offset skip ≡ c

sum_but-add :
    (p : Packet) (offset skip rounds i sum c : ℕ)
    → sum_but p offset skip rounds i (sum + c) ≡ sum_but p offset skip rounds i sum + c
unfolding sum_but
sum_but-add p offset skip zero i sum c = refl
sum_but-add p offset skip (suc rounds) i sum c = elim (Bool-cases (i == skip)) [
  | inl e ↦ rw e (sum_but-add p offset skip rounds (i + 1) sum c)
  | inr e ↦
      rw (e, regroup sum c (short p offset i))
        (sum_but-add p offset skip rounds (i + 1) (sum + short p offset i) c)
]
  where
    regroup : (a b d : ℕ) → a + b + d ≡ a + d + b
    regroup a b d = omega arith

module _ (p q : Packet) (offset skip c : ℕ) (same : Patched p q offset skip c) where
  -- the uint32_t addition of one round
  add_short :
      (i sum : ℕ)
      → sum + 65536 < 2 ^ 32
      → (sum + short q offset i) % 2 ^ 32 ≡ sum + short q offset i
  add_short i sum h = omega (arith, ntohs-lt (get16 q (offset + 2 * i)))

  next_sum :
      (i sum rounds : ℕ)
      → sum + suc rounds * 65536 < 2 ^ 32
      → sum + short p offset i + rounds * 65536 < 2 ^ 32
  next_sum i sum rounds h = omega (arith, ntohs-lt (get16 p (offset + 2 * i)))

  -- Past the patched short both loops add the same.
  sum_all_past :
      (rounds i sum : ℕ)
      → skip < i
      → sum + rounds * 65536 < 2 ^ 32
      → sum_all q offset rounds i sum ≡ sum_but p offset skip rounds i sum
  unfolding sum_all sum_but
  sum_all_past zero i sum h b = refl
  sum_all_past (suc rounds) i sum h b =
      rw (add_short i sum (omega arith), same.others i (omega arith), differ)
        (sum_all_past rounds (i + 1) (sum + short p offset i) (omega arith)
          (next_sum i sum rounds b))
    where
      differ : (i == skip) ≡ false
      differ = ground arith

  -- A run over the patched short adds it once.
  sum_all_over :
      (rounds i sum : ℕ)
      → i ≤ skip
      → skip < i + rounds
      → c < 65536
      → sum + rounds * 65536 < 2 ^ 32
      → sum_all q offset rounds i sum ≡ sum_but p offset skip rounds i sum + c
  unfolding sum_all sum_but
  sum_all_over zero i sum h k lt b = absurd (omega arith)
  sum_all_over (suc rounds) i sum h k lt b = elim (Bool-cases (i == skip)) [
    | inl e ↦
        rw (e, add_short i sum (omega arith), at_skip e)
          (sum_all_past rounds (i + 1) (sum + c) (after e) (omega arith)
            ∙ sum_but-add p offset skip rounds (i + 1) sum c)
    | inr e ↦
        rw (e, add_short i sum (omega arith), same.others i (apart e))
          (sum_all_over rounds (i + 1) (sum + short p offset i) (before e) (omega arith) lt
            (next_sum i sum rounds b))
  ]
    where
      at_skip : (i == skip) ≡ true → short q offset i ≡ c
      at_skip e = rw ((==_iff i skip).0 e) same.patch

      after : (i == skip) ≡ true → skip < i + 1
      after e = omega (arith, (==_iff i skip).0 e)

      apart : (i == skip) ≡ false → i ≢ skip
      apart e = ground arith

      before : (i == skip) ≡ false → i + 1 ≤ skip
      before e = ground arith

-- The header whose field `ip_sum` holds `c` in network order.
make_header_good :
    (p : Packet) (c : ℕ)
    → ip_sum + 1 < length p
    → c < 65536
    → Patched p (set16 p ip_sum (ntohs c)) ip_hdr 5 c
make_header_good p c long lt = record {
  others = λ i ne. ap ntohs (get16-set16_apart p ip_sum (ip_hdr + 2 * i) (ntohs c) (omega arith));
  patch = rw (get16-set16_self p ip_sum (ntohs c) long (ntohs-lt c)) (ntohs-ntohs c lt);
}

pub ip_hl-set16 : (p : Packet) (v : ℕ) → ip_hl (set16 p ip_sum v) ≡ ip_hl p
ip_hl-set16 p v = omega (arith, get8-set16_ne p ip_sum ip_hdr v (omega arith) (omega arith))

-- A field that makes up the sum of the other shorts is found good.
verify_patched :
    (p : Packet)
    → 5 < ip_hl p * 2
    → ip_sum + 1 < length p
    → verify_checksum
        (set16 p ip_sum (ntohs (fold_complement (sum_but p ip_hdr 5 (ip_hl p * 2) 0 0))))
        ip_hdr
        (4 * ip_hl p)
      ≡ 0
unfolding verify_checksum
verify_patched p hl long = rw (halved, whole, fold_complement_lem s small) refl
  where
    s : ℕ
    s = sum_but p ip_hdr 5 (ip_hl p * 2) 0 0

    small : s < 2 ^ 24
    small = omega (arith, sum_but-bound p ip_hdr 5 (ip_hl p * 2) 0 0)

    halved : 4 * ip_hl p / 2 ≡ ip_hl p * 2
    halved = omega arith

    whole :
        sum_all (set16 p ip_sum (ntohs (fold_complement s))) ip_hdr (ip_hl p * 2) 0 0
        ≡ s + fold_complement s
    whole =
        sum_all_over p (set16 p ip_sum (ntohs (fold_complement s))) ip_hdr 5 (fold_complement s)
          (make_header_good p (fold_complement s) long (fold_complement-lt s)) (ip_hl p * 2) 0 0
          (omega arith) (omega arith) (fold_complement-lt s) (omega arith)

-- A header of at least five words that lies in the packet up to its checksum field passes
-- `verify_checksum` once its checksum has been computed and stored.
pub verify_checksum-store :
    (p : Packet)
    → 5 ≤ ip_hl p
    → ip_sum + 1 < length p
    → verify_checksum (store_ip_checksum p) ip_hdr (4 * ip_hl (store_ip_checksum p)) ≡ 0
unfolding store_ip_checksum compute_ip_checksum
verify_checksum-store p hl long =
    let cleared = set16 p ip_sum 0 in
    rw (ip_hl-set16 cleared) (
      verify_patched cleared (omega (arith, ip_hl-set16 p 0))
        (omega (arith, length-set16 p ip_sum 0)))
