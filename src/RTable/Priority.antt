-- ===== src/RTable/Priority.antt =====
-- In the order that the sort leaves, the first match is the longest: this is why the table can be
-- copied row by row to a TCAM, where the first matching row wins.
use native.Mathlib.Nat.{le_trans}
use osnt_plus.Prelude.{
  ℕ, ◌-◌, ◌^◌, ◌≤◌, ◌<◌, ◌≡◌, refl, ap, ◌∙◌, Bool, true, false, ◌&&◌, ◌||◌, Option, none, some,
  List, [], ◌∷◌, arith, ltb, leb, ◌==◌, ==_iff, if◌then◌else◌, inl, inr, All, All-imp, Bool-cases,
  all_below, all_below_sound,
}
use osnt_plus.Net.{ntohl}
use osnt_plus.State.{RtableEntry}
use osnt_plus.RTable.{
  count_bits, bits_of, Best, exceeds, lookup_loop, hop_of, get_next_hop, out_of_order,
}
use osnt_plus.RTable.Sort.{IsOrdered}
use osnt_plus.RTable.Lookup.{matches, held, improve_yes, improve_no, nothing}

-- The first entry of the list that matches.
abbrev pub first_match : ℕ → List RtableEntry → Option RtableEntry
first_match destination [] = none
first_match destination (e ∷ n) =
    if matches destination e then some e else first_match destination n

-- A netmask of `k` leading ones, in host order.
abbrev pub prefix_mask : ℕ → ℕ
prefix_mask k = 2 ^ 32 - 2 ^ (32 - k)

abbrev pub IsPrefixMask : RtableEntry → Type 0
IsPrefixMask e = (k : ℕ) × (k < 33) × (ntohl e.mask ≡ prefix_mask k)

abbrev bits_agree : ℕ → Bool
bits_agree k = count_bits 32 0 (prefix_mask k) 0 == k

bits_table : all_below 33 bits_agree ≡ true
unfolding count_bits
bits_table = refl

bits-prefix_mask : (k : ℕ) → k < 33 → count_bits 32 0 (prefix_mask k) 0 ≡ k
bits-prefix_mask k h = (==_iff _ k).0 (all_below_sound 33 bits_agree k bits_table h)

abbrev order_agrees : ℕ → ℕ → Bool
order_agrees j k = leb k j || ltb (prefix_mask j) (prefix_mask k)

order_table : all_below 33 (λ j. all_below 33 (order_agrees j)) ≡ true
order_table = refl

read_order : (j k a b : ℕ) → (leb k j || ltb a b) ≡ true → b ≤ a → k ≤ j
read_order j k a b t h = ground arith

-- The more ones, the larger the mask.
prefix_mask_order : (j k : ℕ) → j < 33 → k < 33 → prefix_mask k ≤ prefix_mask j → k ≤ j
prefix_mask_order j k hj hk h =
    read_order j k (prefix_mask j) (prefix_mask k)
      (all_below_sound 33 (order_agrees j) k
        (all_below_sound 33 (λ j. all_below 33 (order_agrees j)) j order_table hj) hk)
      h

bits_mono :
    (a b : RtableEntry)
    → IsPrefixMask a
    → IsPrefixMask b
    → ntohl b.mask ≤ ntohl a.mask
    → bits_of b ≤ bits_of a
bits_mono a b (j, hj, ea) (k, hk, eb) h =
    rw (ea, eb, bits-prefix_mask j hj, bits-prefix_mask k hk)
      (prefix_mask_order j k hj hk (rw (ea, eb) at h))

mask_step : (a b : RtableEntry) → out_of_order a b ≡ false → ntohl b.mask ≤ ntohl a.mask
unfolding out_of_order
mask_step a b h = ground arith

tail-IsOrdered : (a : RtableEntry) (n : List RtableEntry) → IsOrdered (a ∷ n) → IsOrdered n
tail-IsOrdered a [] o = tt
tail-IsOrdered a (b ∷ n) o = o.1

-- In an ordered table no mask is larger than that of an entry before it.
masks_below :
    (a : RtableEntry) (n : List RtableEntry)
    → IsOrdered (a ∷ n)
    → All (λ b. ntohl b.mask ≤ ntohl a.mask) n
masks_below a [] o = tt
masks_below a (b ∷ n) o =
    (mask_step a b o.0, All-imp _ _ n (λ c h. le_trans h (mask_step a b o.0)) (masks_below b n o.1))

bits_below :
    (a : RtableEntry) (n : List RtableEntry)
    → IsPrefixMask a
    → All IsPrefixMask n
    → All (λ b. ntohl b.mask ≤ ntohl a.mask) n
    → All (λ b. bits_of b ≤ bits_of a) n
bits_below a [] pa p h = tt
bits_below a (b ∷ n) pa p h = (bits_mono a b pa p.0 h.0, bits_below a n pa p.1 h.1)

no_gain : (m : Bool) (b e : ℕ) → b ≤ e → (m && exceeds b (some e)) ≡ false
no_gain m b e h = ground arith

module _ (destination : ℕ) where
  -- An entry with at least as many mask bits as all that follow stays the best one.
  held_stays :
      (e : RtableEntry) (n : List RtableEntry)
      → All (λ b. bits_of b ≤ bits_of e) n
      → lookup_loop destination n (held destination e) ≡ held destination e
  unfolding lookup_loop
  held_stays e [] h = refl
  held_stays e (b ∷ n) h =
      rw (improve_no destination (held destination e) b (no_better h.0)) (held_stays e n h.1)
    where
      no_better :
          bits_of b ≤ bits_of e
          → (matches destination b && exceeds (bits_of b) (some (bits_of e))) ≡ false
      no_better le = no_gain (matches destination b) (bits_of b) (bits_of e) le

  -- what the loop finds in the rest
  abbrev after : List RtableEntry → Best → Option RtableEntry
  after n best = (lookup_loop destination n best).lpm

  lookup_loop-first_match :
      (n : List RtableEntry)
      → IsOrdered n
      → All IsPrefixMask n
      → (lookup_loop destination n nothing).lpm ≡ first_match destination n
  unfolding lookup_loop
  lookup_loop-first_match [] o p = refl
  lookup_loop-first_match (e ∷ n) o p = elim (Bool-cases (matches destination e)) [
    | inl m ↦
        rw (m, lookup_loop)
          (ap (after n) (improve_yes destination nothing e m refl)
            ∙ ap (λ (b : Best). b.lpm)
                (held_stays e n (bits_below e n p.0 p.1 (masks_below e n o))))
    | inr m ↦
        rw (m, lookup_loop)
          (ap (after n) (improve_no destination nothing e (rw m refl))
            ∙ lookup_loop-first_match n (tail-IsOrdered e n o) p.1)
  ]

-- In a table that is in the sort's order and whose masks are prefixes, the lookup returns the hop
-- of the first entry that matches.
pub get_next_hop-first_match :
    (len : ℕ) (rtable : List RtableEntry) (destination : ℕ)
    → IsOrdered rtable
    → All IsPrefixMask rtable
    → get_next_hop len rtable destination ≡ hop_of len destination (first_match destination rtable)
unfolding get_next_hop
get_next_hop-first_match len rtable destination o p =
    ap (hop_of len destination) (lookup_loop-first_match destination rtable o p)
