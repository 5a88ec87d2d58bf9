-- ===== src/RTable.antt =====
-- scone/or_rtable.c: the routing table. The lookup, the sort that follows each change, the copy
-- of the table to the TCAM, and the operations on routes and interfaces.
pub mod Hardware
pub mod Lookup
pub mod Ops
pub mod Priority
pub mod Sort
mod Tests
use osnt_plus.Prelude.{
  ℕ, zero, suc, ◌+◌, ◌*◌, ◌/◌, ◌%◌, ◌^◌, ◌≡◌, Bool, true, false, not, ◌&&◌, ◌||◌, Option, none,
  some, List, [], ◌∷◌, ◌++◌, ltb, ◌==◌, if◌then◌else◌, length, bit_and, bit_or, keep, tally, map,
}
use osnt_plus.Bubble.{sort}
use osnt_plus.Net.{ntohl, strncpy, strncmp_eq}
use osnt_plus.State.{
  RtableEntry, RouterState, Reg, RegWrite, write_reg, indirectwrdata_a_hi, indirectwrdata_a_low,
  indirectwrdata_b_hi, indirectwrdata_b_low, indirectaddress, indirectcommand,
}

abbrev pub if_len : ℕ
if_len = 32

-- `((mask >> i) & 0x1)`
abbrev pub mask_bit : ℕ → ℕ → Bool
mask_bit mask i = mask / 2 ^ i % 2 == 1

-- The `for` that counts the bits of the mask: `rounds` rounds from `i` on.
unfoldable pub count_bits : ℕ → ℕ → ℕ → ℕ → ℕ
count_bits zero i mask bits_matched = bits_matched
count_bits (suc rounds) i mask bits_matched =
    count_bits rounds (i + 1) mask (if mask_bit mask i then bits_matched + 1 else bits_matched)

abbrev pub bits_of : RtableEntry → ℕ
bits_of re = count_bits 32 0 (ntohl re.mask) 0

-- `ip == dest_ip`, both under the mask of the entry
abbrev pub covers : RtableEntry → ℕ → Bool
covers re destination =
    bit_and (ntohl re.ip) (ntohl re.mask) == bit_and (ntohl destination) (ntohl re.mask)

-- The locals of the lookup. `most_bits_matched` is an int that starts at -1, here `none`.
pub record Best : Type 0 where
  pub lpm : Option RtableEntry
  pub most_bits_matched : Option ℕ

-- `bits_matched > most_bits_matched`
abbrev pub exceeds : ℕ → Option ℕ → Bool
exceeds b none = true
exceeds b (some m) = ltb m b

unfoldable pub improve : ℕ → RtableEntry → Best → Best
improve destination re best =
    if re.is_active && covers re destination && exceeds (bits_of re) best.most_bits_matched
    then record { lpm = some re; most_bits_matched = some (bits_of re) }
    else best

unfoldable pub lookup_loop : ℕ → List RtableEntry → Best → Best
lookup_loop destination [] best = best
lookup_loop destination (re ∷ n) best = lookup_loop destination n (improve destination re best)

-- `next_hop` and `next_hop_iface` for the entry that the loop found
unfoldable pub hop_of : ℕ → ℕ → Option RtableEntry → Option (ℕ × List ℕ)
hop_of len destination none = none
hop_of len destination (some re) =
    some (if re.gw == 0 then destination else re.gw, strncpy re.iface len)

-- `get_next_hop`: `none` is the return value 1, no match.
unfoldable pub get_next_hop : ℕ → List RtableEntry → ℕ → Option (ℕ × List ℕ)
unfolding lookup_loop improve hop_of
get_next_hop len rtable destination =
    hop_of len destination
      (lookup_loop destination rtable (record { lpm = none; most_bits_matched = none })).lpm

-- The test of `trigger_rtable_modified`: `b` belongs before `a`.
unfoldable pub out_of_order : RtableEntry → RtableEntry → Bool
out_of_order a b =
    ltb (ntohl a.mask) (ntohl b.mask)
    || a.mask == b.mask && ltb (ntohl a.ip) (ntohl b.ip)
    || a.mask == b.mask && a.ip == b.ip && not a.is_static && b.is_static

-- The sort of `trigger_rtable_modified`.
unfoldable pub sort_rtable : List RtableEntry → List RtableEntry
sort_rtable = sort out_of_order
