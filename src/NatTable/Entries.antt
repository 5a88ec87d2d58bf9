-- ===== src/NatTable/Entries.antt =====
-- The search in the table of translations, and what the choice of a port guarantees.
use native.Mathlib.Nat.{add-zero, zero-add, mod-eq_of_lt}
use osnt_plus.Prelude.{
  ℕ, zero, suc, ◌+◌, ◌%◌, ◌<◌, ◌≡◌, ◌≢◌, ◌⊎◌, inl, inr, Bool, refl, true, false, ◌&&◌, none, some,
  List, [], ◌∷◌, ◌++◌, arith, ltb, ◌==◌, ==_iff, length, All, get_elem?, Bool-cases, Option-cases,
  some_eq, some≢none, ap, sym, ◌∙◌, ltb→lt, &&_left, &&_right,
}
use osnt_plus.Net.{ntohs}
use osnt_plus.State.{NatEntry}
use osnt_plus.NatTable.{
  NatType, found_nat_table_match, find_entry, is_unique_nat_ext_port, draw_port, new_nat_entry,
  create_nat_table_entry, compute_nat_checksums,
}

-- Position `k` holds the first entry of the table that matches.
pub record IsFirst (table : List NatEntry) (ip port : ℕ) (nat_type : NatType) (k : ℕ) : Type 0 where
  pub ne : NatEntry
  pub held : get_elem? table k ≡ some ne
  pub matched : found_nat_table_match ne ip port nat_type ≡ true
  pub earlier :
      (j : ℕ) (other : NatEntry)
      → j < k
      → get_elem? table j ≡ some other
      → found_nat_table_match other ip port nat_type ≡ false

shift : (i k : ℕ) → i + 1 + k ≡ i + suc k
shift i k = omega arith

module _ (ip port : ℕ) (nat_type : NatType) where
  find_entry_lem :
      (table : List NatEntry) (i : ℕ)
      → ((find_entry table ip port nat_type i ≡ none)
          × All (λ ne. found_nat_table_match ne ip port nat_type ≡ false) table)
        ⊎ ((k : ℕ) × (find_entry table ip port nat_type i ≡ some (i + k))
            × IsFirst table ip port nat_type k)
  unfolding find_entry
  find_entry_lem [] i = inl (refl, tt)
  find_entry_lem (ne ∷ n) i = elim (Bool-cases (found_nat_table_match ne ip port nat_type)) [
    | inl yes_match ↦ inr (
      0,
      rw (yes_match, add-zero) refl,
      record {
        ne = ne;
        held = refl;
        matched = yes_match;
        earlier = λ j other h _. absurd (omega arith);
      },
    )
    | inr no_match ↦ step no_match (find_entry_lem n (i + 1))
  ]
    where
      step :
          found_nat_table_match ne ip port nat_type ≡ false
          → ((find_entry n ip port nat_type (i + 1) ≡ none)
              × All (λ ne. found_nat_table_match ne ip port nat_type ≡ false) n)
            ⊎ ((k : ℕ) × (find_entry n ip port nat_type (i + 1) ≡ some (i + 1 + k))
                × IsFirst n ip port nat_type k)
          → ((find_entry (ne ∷ n) ip port nat_type i ≡ none)
              × All (λ ne. found_nat_table_match ne ip port nat_type ≡ false) (ne ∷ n))
            ⊎ ((k : ℕ) × (find_entry (ne ∷ n) ip port nat_type i ≡ some (i + k))
                × IsFirst (ne ∷ n) ip port nat_type k)
      step no_match (inl (e, all)) = inl (rw no_match e, (no_match, all))
      step no_match (inr (k, e, f)) = inr (
        suc k,
        rw no_match (rw (shift i k) at e),
        record { ne = f.ne; held = f.held; matched = f.matched; earlier = before },
      )
        where
          before :
              (j : ℕ) (other : NatEntry)
              → j < suc k
              → get_elem? (ne ∷ n) j ≡ some other
              → found_nat_table_match other ip port nat_type ≡ false
          before zero other h same = rw (some_eq same) at no_match
          before (suc j) other h same = f.earlier j other (omega arith) same

-- `get_nat_table_entry` finds the first entry that matches, or none, and then no entry matches.
pub find_entry-IsFirst :
    (table : List NatEntry) (ip port : ℕ) (nat_type : NatType)
    → ((find_entry table ip port nat_type 0 ≡ none)
        × All (λ ne. found_nat_table_match ne ip port nat_type ≡ false) table)
      ⊎ ((k : ℕ) × (find_entry table ip port nat_type 0 ≡ some k)
          × IsFirst table ip port nat_type k)
find_entry-IsFirst table ip port nat_type = go (find_entry_lem ip port nat_type table 0)
  where
    go :
        ((find_entry table ip port nat_type 0 ≡ none)
            × All (λ ne. found_nat_table_match ne ip port nat_type ≡ false) table)
          ⊎ ((k : ℕ) × (find_entry table ip port nat_type 0 ≡ some (0 + k))
              × IsFirst table ip port nat_type k)
        → ((find_entry table ip port nat_type 0 ≡ none)
            × All (λ ne. found_nat_table_match ne ip port nat_type ≡ false) table)
          ⊎ ((k : ℕ) × (find_entry table ip port nat_type 0 ≡ some k)
              × IsFirst table ip port nat_type k)
    go (inl h) = inl h
    go (inr (k, e, f)) = inr (k, rw (zero-add k) at e, f)

-- What the test of a new port rules out: the same bits in the field of an entry.
pub is_unique_nat_ext_port-All :
    (table : List NatEntry) (port : ℕ)
    → is_unique_nat_ext_port table port ≡ true
    → All (λ ne. ne.nat_ext.port ≢ port) table
unfolding is_unique_nat_ext_port
is_unique_nat_ext_port-All [] port h = tt
is_unique_nat_ext_port-All (ne ∷ n) port h = elim (Bool-cases (ne.nat_ext.port == port)) [
  | inl same ↦ absurd (differ (rw same at h))
  | inr other ↦ (
    λ e. differ' (rw other at ((==_iff ne.nat_ext.port port).1 e)),
    is_unique_nat_ext_port-All n port (rw other at h),
  )
]
  where
    differ : false ≡ true → ⊥
    differ e = cc

    differ' : false ≡ true → ⊥
    differ' e = cc

draw_port_lem :
    (table : List NatEntry) (rands : List ℕ) {port : ℕ} {rest : List ℕ}
    → draw_port table rands ≡ some (port, rest)
    → (1024 < port) × (port < 65536) × All (λ ne. ne.nat_ext.port ≢ port) table
unfolding draw_port
draw_port_lem table [] h = absurd (some≢none h)
draw_port_lem table (r ∷ rs) {port} {rest} h =
    elim (Bool-cases (ltb 1024 (r % 65536) && is_unique_nat_ext_port table (r % 65536))) [
      | inl good ↦ taken good (ap (λ (p : ℕ × List ℕ). p.0) (some_eq (rw good at h)))
      | inr bad ↦ draw_port_lem table rs (rw bad at h)
    ]
  where
    taken :
        (ltb 1024 (r % 65536) && is_unique_nat_ext_port table (r % 65536)) ≡ true
        → r % 65536 ≡ port
        → (1024 < port) × (port < 65536) × All (λ ne. ne.nat_ext.port ≢ port) table
    taken good e = rw (← e) (
      ltb→lt 1024 (r % 65536) (&&_left _ _ good),
      omega arith,
      is_unique_nat_ext_port-All table (r % 65536) (&&_right _ _ good),
    )

-- A value of `rand()` that the loop takes.
abbrev pub usable : List NatEntry → ℕ → Bool
usable table r = ltb 1024 (r % 65536) && is_unique_nat_ext_port table (r % 65536)

draw_port-none :
    (table : List NatEntry) (rands : List ℕ)
    → draw_port table rands ≡ none
    → All (λ r. usable table r ≡ false) rands
unfolding draw_port
draw_port-none table [] h = tt
draw_port-none table (r ∷ rs) h = elim (Bool-cases (usable table r)) [
  | inl good ↦ absurd (some≢none (sym (rw good at h)))
  | inr bad ↦ (bad, draw_port-none table rs (rw bad at h))
]

-- `create_nat_table_entry` appends one entry for the packet's source and returns its position; its
-- external port is the network order of a number above 1024 that no entry has in its field. It goes
-- on drawing only where no value drawn so far is such a number.
pub create_nat_table_entry_lem :
    (now : ℕ) (rands : List ℕ) (table : List NatEntry) (ext_ip src_ip src_port : ℕ)
    → (All (λ r. usable table r ≡ false) rands
        × (create_nat_table_entry now rands table ext_ip src_ip src_port ≡ none))
      ⊎ ((port : ℕ) × (rest : List ℕ) × (1024 < port)
          × (port < 65536)
          × All (λ ne. ne.nat_ext.port ≢ port) table
          × (create_nat_table_entry now rands table ext_ip src_ip src_port
              ≡ some (
                length table,
                table ++ new_nat_entry now ext_ip port src_ip src_port ∷ [],
                rest,
              )))
unfolding create_nat_table_entry
create_nat_table_entry_lem now rands table ext_ip src_ip src_port =
    elim (Option-cases (draw_port table rands)) [
      | inl fails ↦ inl (draw_port-none table rands fails, rw (fails, create_nat_table_entry) refl)
      | inr ((port, rest), drawn) ↦
          let (low, high, unused) = draw_port_lem table rands drawn in
          inr (port, rest, low, high, unused, rw (drawn, create_nat_table_entry) refl)
    ]

draw_port_again :
    (port : ℕ) (rands : List ℕ) (ne : NatEntry)
    → 1024 < port
    → port < 65536
    → ne.nat_ext.port ≢ port
    → draw_port (ne ∷ []) (port ∷ rands) ≡ some (port, rands)
unfolding draw_port is_unique_nat_ext_port
draw_port_again port rands ne low high differs = rw (mod-eq_of_lt high) (ground arith)

new_nat_entry-port :
    (now ext_ip port src_ip src_port : ℕ)
    → (new_nat_entry now ext_ip port src_ip src_port).nat_ext.port ≡ ntohs port
unfolding new_nat_entry compute_nat_checksums
new_nat_entry-port now ext_ip port src_ip src_port = refl

-- A port in use whose two byte orders differ can be drawn again, and then two entries share an
-- external port.
pub create_nat_table_entry_duplicates :
    (now port : ℕ) (rands : List ℕ) (ne : NatEntry) (ext_ip src_ip src_port : ℕ)
    → 1024 < port
    → port < 65536
    → ntohs port ≢ port
    → ne.nat_ext.port ≡ ntohs port
    → (new : NatEntry) × (create_nat_table_entry now (port ∷ rands) (ne ∷ []) ext_ip src_ip src_port
        ≡ some (1, ne ∷ new ∷ [], rands))
      × (new.nat_ext.port ≡ ne.nat_ext.port)
unfolding create_nat_table_entry
create_nat_table_entry_duplicates now port rands ne ext_ip src_ip src_port low high differs used = (
  new_nat_entry now ext_ip port src_ip src_port,
  rw (draw_port_again port rands ne low high (λ e. differs (sym used ∙ e)), create_nat_table_entry)
      refl,
  new_nat_entry-port now ext_ip port src_ip src_port ∙ sym used,
)
