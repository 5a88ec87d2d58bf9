-- ===== src/Pwospf/Flood/Transit.antt =====
-- A link state update in its frame, as a receiver finds it.
use osnt_plus.Prelude.{
  ℕ, ◌+◌, ◌/◌, ◌≤◌, ◌<◌, ◌≡◌, ◌≢◌, ◌⊎◌, refl, sym, ap, ◌∙◌, true, arith, length, inl, inr, ==_false,
  ==_refl,
}
use osnt_plus.Net.{ntohl, ntohs, htons, ntohs-ntohs, ntohs-lt}
use osnt_plus.State.{IfaceEntry, NbrRouter}
use osnt_plus.Packet.{Packet, get8, get16, set16}
use osnt_plus.Packet.Laws.{get8-set16_ne, get16-set16_self, length-set16}
use osnt_plus.Packet.Words.{get16_of}
use osnt_plus.Checksum.{fold_complement}
use osnt_plus.Arp.{slice}
use osnt_plus.Pwospf.{
  pwospf_hdr, pwospf_ver, pwospf_atype, pwospf_aid, pwospf_len, pwospf_sum, pwospf_rid, sum_pwospf,
  compute_pwospf_checksum, store_pwospf_checksum, is_pwospf_packet_valid,
}
use osnt_plus.Pwospf.Flood.{framed_lsu}
use osnt_plus.Pwospf.Flood.Layout.{Fields, Fields-SameHeader}
use osnt_plus.Pwospf.Flood.Framed.{
  SameBytes, sum_pwospf-SameBytes, get8-framed_lsu, length-framed_lsu, length-slice, get_or-slice,
}

get8-store_pwospf_checksum :
    (p : Packet) (h j : ℕ)
    → j ≢ h + 12
    → j ≢ h + 12 + 1
    → get8 (store_pwospf_checksum p h) j ≡ get8 p j
unfolding store_pwospf_checksum compute_pwospf_checksum
get8-store_pwospf_checksum p h j a b =
    get8-set16_ne (set16 p (h + 12) 0) (h + 12) j _ a b ∙ get8-set16_ne p (h + 12) j 0 a b

fold_complement-lt : (sum : ℕ) → fold_complement sum < 65536
unfolding fold_complement
fold_complement-lt sum = omega arith

get8-zeroed :
    (p : Packet) (i j : ℕ) → i + 1 < length p → (j ≡ i) ⊎ (j ≡ i + 1) → get8 (set16 p i 0) j ≡ 0
unfolding get16
get8-zeroed p i j room (inl e) = rw e (omega (arith, get16-set16_self p i 0 room (omega arith)))
get8-zeroed p i j room (inr e) = rw e (omega (arith, get16-set16_self p i 0 room (omega arith)))

is_pwospf_packet_valid_of :
    (area_id router_id : ℕ) (f : Packet)
    → pwospf_ver f pwospf_hdr ≡ 2
    → htons (pwospf_sum f pwospf_hdr) ≡ (compute_pwospf_checksum f pwospf_hdr).1
    → ntohs (pwospf_atype (set16 f 46 0) pwospf_hdr) ≡ 0
    → ntohl (pwospf_aid (set16 f 46 0) pwospf_hdr) ≡ area_id
    → ntohl (pwospf_rid (set16 f 46 0) pwospf_hdr) ≢ router_id
    → is_pwospf_packet_valid area_id router_id f ≡ (set16 f 46 0, true)
unfolding is_pwospf_packet_valid compute_pwospf_checksum
is_pwospf_packet_valid_of area_id router_id f version sum no_auth area other =
    rw (version, sum, ==_refl, no_auth, area, ==_refl area_id, ==_false _ _ other) refl

-- An update that was given its checksum, and a frame around it.
module _ (p : Packet) (len rid aid seq num : ℕ) (iface : IfaceEntry) (nbr : NbrRouter)
    (fields : Fields p 0 len rid aid seq num) (sized : length p ≡ len) (long : 32 ≤ len)
    (six : length iface.addr ≡ 6) where
  abbrev update : Packet
  update = store_pwospf_checksum p 0

  abbrev pub frame : Packet
  frame = framed_lsu iface nbr (slice update 0 (ntohs (pwospf_len update 0)))

  update-Fields : Fields update 0 len rid aid seq num
  update-Fields =
      Fields-SameHeader p update 0 0 len rid aid seq num
        (λ i lt a b. get8-store_pwospf_checksum p 0 (0 + i) (omega arith) (omega arith)) fields

  carries : SameBytes update 0 frame 34 len
  carries i lt =
      get8-framed_lsu iface nbr (slice update 0 (ntohs (pwospf_len update 0))) i six
        (omega (arith, size, length-slice update 0 (ntohs (pwospf_len update 0))))
      ∙ get_or-slice update 0 (ntohs (pwospf_len update 0)) i (omega (arith, size))
    where
      size : ntohs (pwospf_len update 0) ≡ len
      size = update-Fields.size

  frame-length : length frame ≡ 34 + len
  frame-length =
      length-framed_lsu iface nbr (slice update 0 (ntohs (pwospf_len update 0)))
      ∙ ap (λ (n : ℕ). 34 + n)
          (length-slice update 0 (ntohs (pwospf_len update 0)) ∙ update-Fields.size)

  abbrev zeroed : Packet
  zeroed = set16 p 12 0

  -- The frame after the receiver zeroed the field.
  abbrev pub taken : Packet
  taken = set16 frame 46 0

  pub taken-SameBytes : SameBytes zeroed 0 taken 34 len
  taken-SameBytes i lt = elim (Option-or i) [
    | inl field ↦
        get8-zeroed frame 46 (34 + i) (omega (arith, frame-length)) (omega arith)
        ∙ sym (get8-zeroed p 12 (0 + i) (omega arith) (omega arith))
    | inr (a, b) ↦
        get8-set16_ne frame 46 (34 + i) 0 (omega arith) (omega arith)
        ∙ carries i lt
        ∙ get8-store_pwospf_checksum p 0 (0 + i) (omega arith) (omega arith)
        ∙ sym (get8-set16_ne p 12 (0 + i) 0 (omega arith) (omega arith))
  ]
    where
      Option-or : (j : ℕ) → ((j ≡ 12) ⊎ (j ≡ 13)) ⊎ ((j ≢ 12) × (j ≢ 13))
      Option-or j = ground arith

  pub taken-Fields : Fields taken 34 len rid aid seq num
  taken-Fields =
      Fields-SameHeader zeroed taken 0 34 len rid aid seq num
        (λ i lt a b. taken-SameBytes i (omega arith))
        (Fields-SameHeader p zeroed 0 0 len rid aid seq num
          (λ i lt a b. get8-set16_ne p 12 (0 + i) 0 (omega arith) (omega arith)) fields)

  zeroed-Fields : Fields zeroed 0 len rid aid seq num
  zeroed-Fields =
      Fields-SameHeader p zeroed 0 0 len rid aid seq num
        (λ i lt a b. get8-set16_ne p 12 (0 + i) 0 (omega arith) (omega arith)) fields

  same_sum : (compute_pwospf_checksum frame 34).1 ≡ (compute_pwospf_checksum p 0).1
  unfolding compute_pwospf_checksum
  same_sum = ap fold_complement (
      ap (λ (n : ℕ). sum_pwospf taken 34 (n / 2) 0 0) (taken-Fields.size ∙ sym zeroed-Fields.size)
      ∙ sum_pwospf-SameBytes zeroed taken 0 34 (ntohs (pwospf_len zeroed 0) / 2) 0 0
          (λ i lt. taken-SameBytes i (omega (arith, zeroed-Fields.size))))

  stored_sum : htons (pwospf_sum frame 34) ≡ (compute_pwospf_checksum p 0).1
  unfolding store_pwospf_checksum compute_pwospf_checksum
  stored_sum =
      ap htons (
        get16_of update frame 12 46 (carries 12 (omega arith)) (carries 13 (omega arith))
        ∙ get16-set16_self zeroed 12 _ (omega (arith, length-set16 p 12 0)) (ntohs-lt _))
      ∙ ntohs-ntohs _ (fold_complement-lt _)

  pub frame-is_packet_valid :
      (router_id : ℕ)
      → ntohl rid ≢ router_id
      → is_pwospf_packet_valid aid router_id frame ≡ (taken, true)
  unfolding ntohs
  frame-is_packet_valid router_id other =
      is_pwospf_packet_valid_of aid router_id frame
        (carries 0 (omega arith)
          ∙ get8-store_pwospf_checksum p 0 0 (omega arith) (omega arith)
          ∙ fields.version)
        (stored_sum ∙ sym same_sum) (ap ntohs taken-Fields.no_auth) taken-Fields.area
        (λ e. other (ap ntohl (sym taken-Fields.sender) ∙ e))
