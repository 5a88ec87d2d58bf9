-- ===== src/NatPacket/Laws.antt =====
-- What the rewriting of TCP and UDP packets guarantees: the translated packet is found in the table
-- by the other pair of its entry, and the other end of the connection is left as it is.
use osnt_plus.Prelude.{
  ℕ, ◌+◌, ◌/◌, ◌%◌, ◌^◌, ◌≤◌, ◌<◌, ◌≡◌, ◌⊎◌, refl, ◌∙◌, inl, inr, true, ◌||◌, arith, length,
  Bool-cases,
}
use osnt_plus.State.{NatEntry}
use osnt_plus.Packet.{Packet, get8, get16, get32, set16, set32}
use osnt_plus.Packet.Laws.{length-set16, get8-set16_ne, get16-set16_self, get16-set16_apart}
use osnt_plus.NatTable.{NatType, external, internal}
use osnt_plus.NatPacket.{
  ip_p, ip_sum, ip_src, ip_dst, sport, dport, tcp_sum, udp_sum, is_tcp, is_udp, rewrite_ip,
  rewrite_port, populate_nat_packet, fix_transport, translate_in, translate_out,
}

pub length-set32 : (p : Packet) (i v : ℕ) → length (set32 p i v) ≡ length p
unfolding set32
length-set32 p i v =
    length-set16 (set16 p i (v % 65536)) (i + 2) (v / 65536 % 65536) ∙ length-set16 p i (v % 65536)

get8-set32_ne : (p : Packet) (i j v : ℕ) → (j < i) ⊎ (i + 4 ≤ j) → get8 (set32 p i v) j ≡ get8 p j
unfolding set32
get8-set32_ne p i j v h = omega (
  arith,
  get8-set16_ne (set16 p i (v % 65536)) (i + 2) j (v / 65536 % 65536) (omega arith) (omega arith),
  get8-set16_ne p i j (v % 65536) (omega arith) (omega arith),
)

pub get16-set32_apart :
    (p : Packet) (i j v : ℕ) → (i + 4 ≤ j) ⊎ (j + 2 ≤ i) → get16 (set32 p i v) j ≡ get16 p j
unfolding set32
get16-set32_apart p i j v h =
    get16-set16_apart (set16 p i (v % 65536)) (i + 2) j (v / 65536 % 65536) (omega arith)
    ∙ get16-set16_apart p i j (v % 65536) (omega arith)

get32-set32_self :
    (p : Packet) (i v : ℕ) → i + 3 < length p → v < 2 ^ 32 → get32 (set32 p i v) i ≡ v
unfolding get32 set32
get32-set32_self p i v long lt = omega (
  arith,
  get16-set16_apart (set16 p i (v % 65536)) (i + 2) i (v / 65536 % 65536) (omega arith),
  get16-set16_self p i (v % 65536) (omega arith) (omega arith),
  get16-set16_self (set16 p i (v % 65536)) (i + 2) (v / 65536 % 65536)
      (omega (arith, length-set16 p i (v % 65536))) (omega arith),
)

get32-set32_apart :
    (p : Packet) (i j v : ℕ) → (i + 4 ≤ j) ⊎ (j + 4 ≤ i) → get32 (set32 p i v) j ≡ get32 p j
unfolding get32
get32-set32_apart p i j v h =
    omega (
      arith,
      get16-set32_apart p i j v (omega arith),
      get16-set32_apart p i (j + 2) v (omega arith),
    )

pub get32-set16_apart :
    (p : Packet) (i j v : ℕ) → (i + 2 ≤ j) ⊎ (j + 4 ≤ i) → get32 (set16 p i v) j ≡ get32 p j
unfolding get32
get32-set16_apart p i j v h =
    omega (
      arith,
      get16-set16_apart p i j v (omega arith),
      get16-set16_apart p i (j + 2) v (omega arith),
    )

-- A TCP or UDP packet
abbrev pub HasPorts : Packet → Type 0
HasPorts p = (is_tcp p || is_udp p) ≡ true

-- The first 40 bytes, which hold the addresses and the ports, but for the IP checksum.
record SameEnds (p q : Packet) : Type 0 where
  protocol : get8 q ip_p ≡ get8 p ip_p
  addresses : (get32 q ip_src ≡ get32 p ip_src) × (get32 q ip_dst ≡ get32 p ip_dst)
  ports : (get16 q sport ≡ get16 p sport) × (get16 q dport ≡ get16 p dport)

SameEnds-set16 : (p : Packet) (i v : ℕ) → (i ≡ ip_sum) ⊎ (40 ≤ i) → SameEnds p (set16 p i v)
SameEnds-set16 p i v h = record {
  protocol = get8-set16_ne p i ip_p v (omega arith) (omega arith);
  addresses =
      (get32-set16_apart p i ip_src v (omega arith), get32-set16_apart p i ip_dst v (omega arith));
  ports =
      (get16-set16_apart p i sport v (omega arith), get16-set16_apart p i dport v (omega arith));
}

SameEnds-trans : {p q r : Packet} → SameEnds p q → SameEnds q r → SameEnds p r
SameEnds-trans s t = record {
  protocol = t.protocol ∙ s.protocol;
  addresses = (t.addresses.0 ∙ s.addresses.0, t.addresses.1 ∙ s.addresses.1);
  ports = (t.ports.0 ∙ s.ports.0, t.ports.1 ∙ s.ports.1);
}

SameEnds-fix :
    (p : Packet) (pos neg pos_port neg_port : ℕ)
    → HasPorts p
    → SameEnds p (fix_transport p pos neg pos_port neg_port)
unfolding fix_transport
SameEnds-fix p pos neg pos_port neg_port h = elim (Bool-cases (is_tcp p)) [
  | inl tcp ↦ rw tcp (SameEnds-set16 p tcp_sum _ (inr (omega arith)))
  | inr no_tcp ↦ rw (no_tcp, rw no_tcp at h) (SameEnds-set16 p udp_sum _ (inr (omega arith)))
]

pub populate-ports :
    (p : Packet) (ne : NatEntry) (nat_type : NatType)
    → HasPorts (rewrite_ip p ne nat_type)
    → populate_nat_packet p ne nat_type ≡ rewrite_port (rewrite_ip p ne nat_type) ne nat_type
unfolding populate_nat_packet
populate-ports p ne nat_type h = rw h refl

-- The packet `q` is `p` with the given addresses and ports.
abbrev pub Ends : Packet → ℕ → ℕ → ℕ → ℕ → Type 0
Ends q src src_port dst dst_port =
    (get32 q ip_src ≡ src)
    × (get16 q sport ≡ src_port)
    × (get32 q ip_dst ≡ dst)
    × (get16 q dport ≡ dst_port)

Ends-same : (p q : Packet) {a b c d : ℕ} → SameEnds p q → Ends p a b c d → Ends q a b c d
Ends-same p q s (e, f, g, h) = (s.addresses.0 ∙ e, s.ports.0 ∙ f, s.addresses.1 ∙ g, s.ports.1 ∙ h)

pub protocol-rewrite :
    (p : Packet) (ne : NatEntry) (nat_type : NatType)
    → get8 (rewrite_port (rewrite_ip p ne nat_type) ne nat_type) ip_p ≡ get8 p ip_p
unfolding rewrite_port rewrite_ip
protocol-rewrite p ne external =
    get8-set16_ne (set32 p ip_src ne.nat_ext.ip) sport ip_p ne.nat_ext.port (omega arith)
      (omega arith)
    ∙ get8-set32_ne p ip_src ip_p ne.nat_ext.ip (omega arith)
protocol-rewrite p ne internal =
    get8-set16_ne (set32 p ip_dst ne.nat_int.ip) dport ip_p ne.nat_int.port (omega arith)
      (omega arith)
    ∙ get8-set32_ne p ip_dst ip_p ne.nat_int.ip (omega arith)

pub protocol-rewrite_ip :
    (p : Packet) (ne : NatEntry) (nat_type : NatType)
    → get8 (rewrite_ip p ne nat_type) ip_p ≡ get8 p ip_p
unfolding rewrite_ip
protocol-rewrite_ip p ne external = get8-set32_ne p ip_src ip_p ne.nat_ext.ip (omega arith)
protocol-rewrite_ip p ne internal = get8-set32_ne p ip_dst ip_p ne.nat_int.ip (omega arith)

pub HasPorts-eq : (p q : Packet) → get8 q ip_p ≡ get8 p ip_p → HasPorts p → HasPorts q
HasPorts-eq p q e h = rw e h

-- An address at `a` and a port at `t` are stored; those at `a'` and `t'` stay.
stored_ends :
    (p : Packet) (a t a' t' ip port : ℕ)
    → a + 4 ≤ t
    → a + 4 ≤ t'
    → a' + 4 ≤ t
    → (a + 4 ≤ a') ⊎ (a' + 4 ≤ a)
    → (t + 2 ≤ t') ⊎ (t' + 2 ≤ t)
    → t + 1 < length p
    → ip < 2 ^ 32
    → port < 65536
    → let q = set16 (set32 p a ip) t port in
      (get32 q a ≡ ip) × (get16 q t ≡ port) × (get32 q a' ≡ get32 p a') × (get16 q t' ≡ get16 p t')
stored_ends p a t a' t' ip port h1 h2 h3 h4 h5 long ip_lt port_lt = (
  get32-set16_apart (set32 p a ip) t a port (inr h1) ∙ get32-set32_self p a ip (omega arith) ip_lt,
  get16-set16_self (set32 p a ip) t port (omega (arith, length-set32 p a ip)) port_lt,
  get32-set16_apart (set32 p a ip) t a' port (inr h3) ∙ get32-set32_apart p a a' ip h4,
  get16-set16_apart (set32 p a ip) t t' port h5 ∙ get16-set32_apart p a t' ip (inl h2),
)

turn : {A B C D : Type 0} → A × B × C × D → C × D × A × B
turn (a, b, c, d) = (c, d, a, b)

-- The steps after `populate_nat_packet` leave the addresses and ports alone.
translated_out :
    (p : Packet) (ne : NatEntry)
    → HasPorts p
    → SameEnds (rewrite_port (rewrite_ip p ne external) ne external) (translate_out p ne)
unfolding translate_out
translated_out p ne h =
    let ports = HasPorts-eq p (rewrite_ip p ne external) (protocol-rewrite_ip p ne external) h in
    let q = rewrite_port (rewrite_ip p ne external) ne external in
    rw (populate-ports p ne external ports) (
      SameEnds-trans (SameEnds-fix q _ _ _ _ (HasPorts-eq p q (protocol-rewrite p ne external) h))
        (SameEnds-set16 _ ip_sum _ (inl refl)))

translated_in :
    (p : Packet) (ne : NatEntry)
    → HasPorts p
    → SameEnds (rewrite_port (rewrite_ip p ne internal) ne internal) (translate_in p ne)
unfolding translate_in
translated_in p ne h =
    let ports = HasPorts-eq p (rewrite_ip p ne internal) (protocol-rewrite_ip p ne internal) h in
    let q = rewrite_port (rewrite_ip p ne internal) ne internal in
    rw (populate-ports p ne internal ports) (
      SameEnds-trans (SameEnds-fix q _ _ _ _ (HasPorts-eq p q (protocol-rewrite p ne internal) h))
        (SameEnds-set16 _ ip_sum _ (inl refl)))

-- An outgoing TCP or UDP packet leaves with the external address and port of its entry as its
-- source, and with the destination and the protocol that it came with.
pub translate_out-Ends :
    (p : Packet) (ne : NatEntry)
    → HasPorts p
    → 36 ≤ length p
    → ne.nat_ext.ip < 2 ^ 32
    → ne.nat_ext.port < 65536
    → Ends (translate_out p ne) ne.nat_ext.ip ne.nat_ext.port (get32 p ip_dst) (get16 p dport)
      × (get8 (translate_out p ne) ip_p ≡ get8 p ip_p)
translate_out-Ends p ne h long ip_lt port_lt =
    let q = rewrite_port (rewrite_ip p ne external) ne external in
    let same = translated_out p ne h in
    (
      Ends-same q (translate_out p ne) same (
          unfold rewrite_port rewrite_ip in
          stored_ends p ip_src sport ip_dst dport ne.nat_ext.ip ne.nat_ext.port (omega arith)
            (omega arith) (omega arith) (omega arith) (omega arith) (omega arith) ip_lt port_lt),
      same.protocol ∙ protocol-rewrite p ne external,
    )

-- An incoming TCP or UDP packet is delivered to the internal address and port of its entry, with
-- the source and the protocol that it came with.
pub translate_in-Ends :
    (p : Packet) (ne : NatEntry)
    → HasPorts p
    → 38 ≤ length p
    → ne.nat_int.ip < 2 ^ 32
    → ne.nat_int.port < 65536
    → Ends (translate_in p ne) (get32 p ip_src) (get16 p sport) ne.nat_int.ip ne.nat_int.port
      × (get8 (translate_in p ne) ip_p ≡ get8 p ip_p)
translate_in-Ends p ne h long ip_lt port_lt =
    let q = rewrite_port (rewrite_ip p ne internal) ne internal in
    let same = translated_in p ne h in
    (
      Ends-same q (translate_in p ne) same (
          unfold rewrite_port rewrite_ip in
          turn (
            stored_ends p ip_dst dport ip_src sport ne.nat_int.ip ne.nat_int.port (omega arith)
              (omega arith) (omega arith) (omega arith) (omega arith) (omega arith) ip_lt port_lt)),
      same.protocol ∙ protocol-rewrite p ne internal,
    )
