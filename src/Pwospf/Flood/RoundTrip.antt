-- ===== src/Pwospf/Flood/RoundTrip.antt =====
-- What a router advertises is what its neighbour reads.
use osnt_plus.Prelude.{
  ℕ, ◌+◌, ◌*◌, ◌^◌, ◌≤◌, ◌<◌, ◌≡◌, ◌≢◌, refl, ap, ◌∙◌, true, List, arith, length, map, All,
}
use osnt_plus.Net.{ntohl, ntohs}
use osnt_plus.State.{PwospfInterface, IfaceEntry, NbrRouter}
use osnt_plus.Packet.{Packet, get8}
use osnt_plus.Packet.Laws.{get8-set16_ne, length-set8, length-set16}
use osnt_plus.Packet.Words.{length-set32}
use osnt_plus.Headers.{zeros, bzero}
use osnt_plus.Headers.Ip.{length-zeros}
use osnt_plus.Headers.Laws.{length-blit}
use osnt_plus.Arp.{slice}
use osnt_plus.Pwospf.{
  pwospf_hdr, pwospf_type, pwospf_len, pwospf_rid, lsu_seq, lsu_ttl, lsu_num, type_lsu,
  populate_pwospf, populate_pwospf_lsu, is_pwospf_packet_valid,
}
use osnt_plus.Pwospf.Adverts.{adverts, adverts_at, advert_of, write_adverts}
use osnt_plus.Pwospf.Flood.{lsu_packet, framed_lsu}
use osnt_plus.Pwospf.Flood.Layout.{
  Fields, Fits, headers, headers-Fields, Fields-SameHeader, adverts_at-SameAdverts,
  adverts_at-write_adverts, length-write_adverts, get8-write_adverts,
}
use osnt_plus.Pwospf.Flood.Transit.{taken, taken-Fields, taken-SameBytes, frame-is_packet_valid}

length-headers :
    (room len rid aid seq num : ℕ) → length (headers room len rid aid seq num) ≡ 32 + room
unfolding populate_pwospf populate_pwospf_lsu bzero
length-headers room len rid aid seq num =
    length-set32 _ 28 _
    ∙ length-set16 _ 26 _
    ∙ length-set16 _ 24 _
    ∙ length-blit _ 24 (zeros 8)
    ∙ length-set32 _ 8 _
    ∙ length-set32 _ 4 rid
    ∙ length-set16 _ 2 _
    ∙ length-set8 _ 1 type_lsu
    ∙ length-set8 _ 0 2
    ∙ length-blit _ 0 (zeros 24)
    ∙ length-zeros (32 + room)

module _ (rid aid seq : ℕ) (ifs : List PwospfInterface) (iface : IfaceEntry) (nbr : NbrRouter)
    (rid_lt : rid < 2 ^ 32) (aid_lt : aid < 2 ^ 32) (seq_lt : seq < 2 ^ 16)
    (room : 32 + 12 * length ifs < 2 ^ 16) (fits : All (λ e. Fits (advert_of e)) ifs)
    (six : length iface.addr ≡ 6) where
  abbrev size : ℕ
  size = 32 + 12 * length ifs

  abbrev bare : Packet
  bare = headers (12 * length ifs) size rid aid seq (length ifs)

  abbrev body : Packet
  body = write_adverts bare 32 ifs

  body-Fields : Fields body 0 size rid aid seq (length ifs)
  body-Fields =
      Fields-SameHeader bare body 0 0 size rid aid seq (length ifs)
        (λ i lt a b. get8-write_adverts bare 32 (0 + i) ifs (omega arith))
        (headers-Fields (12 * length ifs) size rid aid seq (length ifs) room rid_lt aid_lt seq_lt
          (omega arith))

  body-length : length body ≡ size
  body-length =
      length-write_adverts bare 32 ifs
      ∙ length-headers (12 * length ifs) size rid aid seq (length ifs)

  abbrev received : Packet
  received =
      taken body size rid aid seq (length ifs) iface nbr body-Fields body-length (omega arith) six

  received-Fields : Fields received 34 size rid aid seq (length ifs)
  received-Fields =
      taken-Fields body size rid aid seq (length ifs) iface nbr body-Fields body-length
        (omega arith) six

  read : adverts received pwospf_hdr ≡ map advert_of ifs
  unfolding adverts
  read =
      ap (adverts_at received 66) counted
      ∙ adverts_at-SameAdverts body received 32 66 (length ifs) (λ i lt.
        byte (66 + i) (32 + i) (32 + i) (omega arith) (omega arith) (omega arith) (omega arith))
      ∙ adverts_at-write_adverts bare 32 ifs
          (omega (arith, length-headers (12 * length ifs) size rid aid seq (length ifs))) fits
    where
      counted : ntohl (lsu_num received 34) ≡ length ifs
      counted = received-Fields.count

      byte :
          (a b i : ℕ) → a ≡ 34 + i → b ≡ 0 + i → i < size → 32 ≤ i → get8 received a ≡ get8 body b
      byte a b i ea eb lt past =
          rw (ea, eb)
            (taken-SameBytes body size rid aid seq (length ifs) iface nbr body-Fields body-length
                (omega arith) six i lt
              ∙ get8-set16_ne body 12 (0 + i) 0 (omega arith) (omega arith))

  -- The update that a router constructs, in the frame for a neighbour, is valid to a receiver of
  -- the same area whose id is the sender's neither as it is stored nor in host order, where ids,
  -- area and sequence number fit their fields, the update is shorter than 64 KiB and the port has a
  -- hardware address of six bytes. The receiver reads the sender's id, the sequence number, 64 as
  -- the time to live, and the subnet, mask and neighbour of each interface, in order.
  pub is_pwospf_packet_valid-framed_lsu :
      (router_id : ℕ)
      → ntohl rid ≢ router_id
      → rid ≢ router_id
      → let p = lsu_packet rid aid seq ifs in
        let (q, valid) =
          is_pwospf_packet_valid aid router_id
            (framed_lsu iface nbr (slice p 0 (ntohs (pwospf_len p 0)))) in
        (valid ≡ true)
        × (pwospf_type q pwospf_hdr ≡ type_lsu)
        × (pwospf_rid q pwospf_hdr ≡ rid)
        × (ntohs (lsu_seq q pwospf_hdr) ≡ seq)
        × (ntohs (lsu_ttl q pwospf_hdr) ≡ 64)
        × (adverts q pwospf_hdr ≡ map advert_of ifs)
  unfolding lsu_packet
  is_pwospf_packet_valid-framed_lsu router_id other not_ours =
      rw
        (frame-is_packet_valid body size rid aid seq (length ifs) iface nbr body-Fields body-length
          (omega arith) six router_id other)
        (
          refl, received-Fields.type, received-Fields.sender, received-Fields.sequence,
          received-Fields.life, read,
        )
