-- ===== src/Pwospf/Flood/Layout.antt =====
-- Where the fields of a link state update stand, and that writing the advertisements and reading
-- them are inverse.
use osnt_plus.Prelude.{
  ℕ, zero, suc, ◌+◌, ◌*◌, ◌^◌, ◌≤◌, ◌<◌, ◌≡◌, ◌≢◌, ◌⊎◌, refl, ap, ◌∙◌, List, [], ◌∷◌, ◌++◌, arith,
  length, map, inl, All,
}
use osnt_plus.Net.{ntohl, ntohs}
use osnt_plus.State.{PwospfInterface}
use osnt_plus.Packet.{Packet, get8, get16, get32, set8, set16, set32}
use osnt_plus.Packet.Words.{
  length-set32, get8-set32_apart, get32-set32_self, get32-set32_apart, get16_of, get32_of,
}
use osnt_plus.Headers.{zeros, blit, bzero}
use osnt_plus.Pwospf.{
  pwospf_ver, pwospf_type, pwospf_len, pwospf_rid, pwospf_aid, pwospf_atype, lsu_seq, lsu_ttl,
  lsu_num, type_lsu, populate_pwospf, populate_pwospf_lsu,
}
use osnt_plus.Pwospf.Adverts.{LsuAdv, adv_at, adverts_at, advert_of, write_adv, write_adverts}

zeros-add : (m n : ℕ) → zeros (m + n) ≡ zeros m ++ zeros n
unfolding zeros
zeros-add zero n = ap zeros {y = n} (omega arith)
zeros-add (suc m) n =
    ap zeros {y = suc (m + n)} (omega arith) ∙ ap (λ (p : Packet). 0 ∷ p) (zeros-add m n)

-- The update's headers, over the zeros that the advertisements will fill.
abbrev pub headers : ℕ → ℕ → ℕ → ℕ → ℕ → ℕ → Packet
headers room len rid aid seq num =
    populate_pwospf_lsu (populate_pwospf (zeros (32 + room)) 0 type_lsu len rid aid) 0 seq num

-- The values that the fields have.
pub record Fields (p : Packet) (h len rid aid seq num : ℕ) : Type 0 where
  pub version : pwospf_ver p h ≡ 2
  pub type : pwospf_type p h ≡ type_lsu
  pub size : ntohs (pwospf_len p h) ≡ len
  pub sender : pwospf_rid p h ≡ rid
  pub area : ntohl (pwospf_aid p h) ≡ aid
  pub no_auth : pwospf_atype p h ≡ 0
  pub sequence : ntohs (lsu_seq p h) ≡ seq
  pub life : ntohs (lsu_ttl p h) ≡ 64
  pub count : ntohl (lsu_num p h) ≡ num

pub headers-Fields :
    (room len rid aid seq num : ℕ)
    → len < 2 ^ 16
    → rid < 2 ^ 32
    → aid < 2 ^ 32
    → seq < 2 ^ 16
    → num < 2 ^ 32
    → Fields (headers room len rid aid seq num) 0 len rid aid seq num
unfolding populate_pwospf populate_pwospf_lsu set8 set16 set32 get8 get16 get32 bzero zeros blit
    ntohs ntohl
headers-Fields room len rid aid seq num l r a s n = rw (zeros-add 32 room) (record {
  version = refl;
  type = refl;
  size = omega arith;
  sender = omega arith;
  area = omega arith;
  no_auth = refl;
  sequence = omega arith;
  life = refl;
  count = omega arith;
})

-- The fields depend on the header's bytes but those of the checksum.
abbrev pub SameHeader : Packet → ℕ → Packet → ℕ → Type 0
SameHeader p h q h' = (i : ℕ) → i < 32 → i ≢ 12 → i ≢ 13 → get8 q (h' + i) ≡ get8 p (h + i)

pub Fields-SameHeader :
    (p q : Packet) (h h' len rid aid seq num : ℕ)
    → SameHeader p h q h'
    → Fields p h len rid aid seq num
    → Fields q h' len rid aid seq num
Fields-SameHeader p q h h' len rid aid seq num same f = record {
  version =
      byte h' h 0 (omega arith) (omega arith) (omega arith) (omega arith) (omega arith) ∙ f.version;
  type = byte (h' + 1) (h + 1) 1 refl refl (omega arith) (omega arith) (omega arith) ∙ f.type;
  size = ap ntohs (word 2 (omega arith) (omega arith)) ∙ f.size;
  sender = long 4 (omega arith) (omega arith) ∙ f.sender;
  area = ap ntohl (long 8 (omega arith) (omega arith)) ∙ f.area;
  no_auth = word 14 (omega arith) (omega arith) ∙ f.no_auth;
  sequence = ap ntohs (word 24 (omega arith) (omega arith)) ∙ f.sequence;
  life = ap ntohs (word 26 (omega arith) (omega arith)) ∙ f.life;
  count = ap ntohl (long 28 (omega arith) (omega arith)) ∙ f.count;
}
  where
    byte : (a b i : ℕ) → a ≡ h' + i → b ≡ h + i → i < 32 → i ≢ 12 → i ≢ 13 → get8 q a ≡ get8 p b
    byte a b i ea eb lt n m = rw (ea, eb) (same i lt n m)

    word : (i : ℕ) → i + 1 < 32 → (i < 11) ⊎ (13 < i) → get16 q (h' + i) ≡ get16 p (h + i)
    word i lt out =
        get16_of p q (h + i) (h' + i)
          (byte (h' + i) (h + i) i refl refl (omega arith) (omega arith) (omega arith))
          (byte (h' + i + 1) (h + i + 1) (i + 1) (omega arith) (omega arith) (omega arith)
            (omega arith) (omega arith))

    long : (i : ℕ) → i + 3 < 32 → (i < 9) ⊎ (13 < i) → get32 q (h' + i) ≡ get32 p (h + i)
    long i lt out = get32_of p q (h + i) (h' + i) (λ k small.
        byte (h' + i + k) (h + i + k) (i + k) (omega arith) (omega arith) (omega arith)
          (omega arith) (omega arith))

length-write_adv : (p : Packet) (at : ℕ) (a : LsuAdv) → length (write_adv p at a) ≡ length p
unfolding write_adv
length-write_adv p at a =
    length-set32 (set32 (set32 p at a.sub) (at + 4) a.mask) (at + 8) a.rid
    ∙ length-set32 (set32 p at a.sub) (at + 4) a.mask
    ∙ length-set32 p at a.sub

get8-write_adv :
    (p : Packet) (at j : ℕ) (a : LsuAdv)
    → (j < at) ⊎ (at + 12 ≤ j)
    → get8 (write_adv p at a) j ≡ get8 p j
unfolding write_adv
get8-write_adv p at j a h =
    get8-set32_apart (set32 (set32 p at a.sub) (at + 4) a.mask) (at + 8) j a.rid (omega arith)
    ∙ get8-set32_apart (set32 p at a.sub) (at + 4) j a.mask (omega arith)
    ∙ get8-set32_apart p at j a.sub (omega arith)

-- The three words fit.
pub record Fits (a : LsuAdv) : Type 0 where
  pub sub_lt : a.sub < 2 ^ 32
  pub mask_lt : a.mask < 2 ^ 32
  pub rid_lt : a.rid < 2 ^ 32

adv_eq :
    {x y z x' y' z' : ℕ}
    → x ≡ x'
    → y ≡ y'
    → z ≡ z'
    → ◌≡◌ {A = LsuAdv}
        (record { sub = x; mask = y; rid = z })
        (record { sub = x'; mask = y'; rid = z' })
adv_eq ex ey ez = rw (ex, ey, ez) refl

cons_eq :
    {x y : LsuAdv} {l l' : List LsuAdv} → x ≡ y → l ≡ l' → ◌≡◌ {A = List LsuAdv} (x ∷ l) (y ∷ l')
cons_eq ex el = rw (ex, el) refl

adv_at-write_adv :
    (p : Packet) (at : ℕ) (a : LsuAdv)
    → at + 12 ≤ length p
    → Fits a
    → adv_at (write_adv p at a) at ≡ a
unfolding write_adv adv_at
adv_at-write_adv p at a room fits = adv_eq sub mask rid
  where
    one : Packet
    one = set32 p at a.sub

    two : Packet
    two = set32 one (at + 4) a.mask

    sub : get32 (set32 two (at + 8) a.rid) at ≡ a.sub
    sub =
        get32-set32_apart two (at + 8) at a.rid (omega arith)
        ∙ get32-set32_apart one (at + 4) at a.mask (omega arith)
        ∙ get32-set32_self p at a.sub (omega arith) fits.sub_lt

    mask : get32 (set32 two (at + 8) a.rid) (at + 4) ≡ a.mask
    mask =
        get32-set32_apart two (at + 8) (at + 4) a.rid (omega arith)
        ∙ get32-set32_self one (at + 4) a.mask (omega (arith, length-set32 p at a.sub)) fits.mask_lt

    rid : get32 (set32 two (at + 8) a.rid) (at + 8) ≡ a.rid
    rid =
        get32-set32_self two (at + 8) a.rid
          (omega (arith, length-set32 p at a.sub, length-set32 one (at + 4) a.mask)) fits.rid_lt

pub length-write_adverts :
    (p : Packet) (at : ℕ) (ifs : List PwospfInterface) → length (write_adverts p at ifs) ≡ length p
unfolding write_adverts
length-write_adverts p at [] = refl
length-write_adverts p at (e ∷ n) =
    length-write_adverts (write_adv p at (advert_of e)) (at + 12) n
    ∙ length-write_adv p at (advert_of e)

pub get8-write_adverts :
    (p : Packet) (at j : ℕ) (ifs : List PwospfInterface)
    → j < at
    → get8 (write_adverts p at ifs) j ≡ get8 p j
unfolding write_adverts
get8-write_adverts p at j [] h = refl
get8-write_adverts p at j (e ∷ n) h =
    get8-write_adverts (write_adv p at (advert_of e)) (at + 12) j n (omega arith)
    ∙ get8-write_adv p at j (advert_of e) (inl h)

-- The advertisements depend on their bytes.
abbrev pub SameAdverts : Packet → ℕ → Packet → ℕ → ℕ → Type 0
SameAdverts p at q at' n = (i : ℕ) → i < 12 * n → get8 q (at' + i) ≡ get8 p (at + i)

adv_at-SameAdverts :
    (p q : Packet) (at at' : ℕ) → SameAdverts p at q at' 1 → adv_at q at' ≡ adv_at p at
unfolding adv_at
adv_at-SameAdverts p q at at' same =
    adv_eq (long at' at 0 (omega arith) (omega arith) (omega arith))
      (long (at' + 4) (at + 4) 4 refl refl (omega arith))
      (long (at' + 8) (at + 8) 8 refl refl (omega arith))
  where
    long : (a b i : ℕ) → a ≡ at' + i → b ≡ at + i → i + 3 < 12 → get32 q a ≡ get32 p b
    long a b i ea eb lt =
        get32_of p q b a
          (λ k small. byte (a + k) (b + k) (i + k) (omega arith) (omega arith) (omega arith))
      where
        byte : (c d m : ℕ) → c ≡ at' + m → d ≡ at + m → m < 12 → get8 q c ≡ get8 p d
        byte c d m ec ed less = rw (ec, ed) (same m (omega arith))

pub adverts_at-SameAdverts :
    (p q : Packet) (at at' n : ℕ)
    → SameAdverts p at q at' n
    → adverts_at q at' n ≡ adverts_at p at n
unfolding adverts_at
adverts_at-SameAdverts p q at at' zero same = refl
adverts_at-SameAdverts p q at at' (suc n) same =
    cons_eq (adv_at-SameAdverts p q at at' (λ i lt. same i (omega arith))) (
      adverts_at-SameAdverts p q (at + 12) (at' + 12) n (λ i lt.
        later (at' + 12 + i) (at + 12 + i) (12 + i) (omega arith) (omega arith) (omega arith)))
  where
    later : (a b i : ℕ) → a ≡ at' + i → b ≡ at + i → i < 12 * suc n → get8 q a ≡ get8 p b
    later a b i ea eb lt = rw (ea, eb) (same i lt)

-- What `construct_pwospf_lsu_adv` writes is what a receiver reads.
pub adverts_at-write_adverts :
    (p : Packet) (at : ℕ) (ifs : List PwospfInterface)
    → at + 12 * length ifs ≤ length p
    → All (λ e. Fits (advert_of e)) ifs
    → adverts_at (write_adverts p at ifs) at (length ifs) ≡ map advert_of ifs
unfolding write_adverts adverts_at
adverts_at-write_adverts p at [] room fits = refl
adverts_at-write_adverts p at (e ∷ n) room fits =
    cons_eq (adv ∙ adv_at-write_adv p at (advert_of e) (omega arith) fits.0) (
      adverts_at-write_adverts p' (at + 12) n (omega (arith, length-write_adv p at (advert_of e)))
        fits.1)
  where
    p' : Packet
    p' = write_adv p at (advert_of e)

    adv : adv_at (write_adverts p' (at + 12) n) at ≡ adv_at p' at
    adv =
        adv_at-SameAdverts p' (write_adverts p' (at + 12) n) at at
          (λ i lt. get8-write_adverts p' (at + 12) (at + i) n (omega arith))
