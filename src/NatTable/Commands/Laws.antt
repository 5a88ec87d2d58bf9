-- ===== src/NatTable/Commands/Laws.antt =====
-- The table after the commands.
use osnt_plus.Prelude.{
  ℕ, ◌≤◌, ◌≡◌, refl, ap, inl, inr, Bool, true, false, ◌&&◌, some, List, [], ◌∷◌, arith, ◌%◌, ◌==◌,
  ==_refl, if◌then◌else◌, length, keep, Bool-cases,
}
use osnt_plus.Net.{htons}
use osnt_plus.State.{NatEntry}
use osnt_plus.NatTable.{compute_nat_checksums}
use osnt_plus.NatTable.Commands.{
  NatArgs, static_entry, is_external, put_entry, cli_nat_add, remove_entry, cli_nat_del,
}

-- The external pairs of two entries differ, as the code compares them.
abbrev pub Differs : ℕ → ℕ → ℕ → ℕ → Type 0
Differs ip port ip' port' = (ip == ip' && port == port') ≡ false

-- The entries of an external pair
abbrev pub entries_at : ℕ → ℕ → List NatEntry → List NatEntry
entries_at ip port = keep (is_external ip port)

external_not :
    (ip port ip' port' : ℕ) (e : NatEntry)
    → is_external ip port e ≡ true
    → Differs ip port ip' port'
    → is_external ip' port' e ≡ false
unfolding is_external
external_not ip port ip' port' e here differs = ground (arith, here, differs)

length_zero : (l : List NatEntry) → length l ≤ 0 → l ≡ []
length_zero [] h = refl
length_zero (e ∷ l) h = absurd (omega arith)

module _ (ne : NatEntry) where
  abbrev own : NatEntry → Bool
  own = is_external ne.nat_ext.ip ne.nat_ext.port

  own_self : own ne ≡ true
  unfolding is_external
  own_self = rw (==_refl ne.nat_ext.ip, ==_refl ne.nat_ext.port) refl

  put_entry-own :
      (l : List NatEntry) → length (keep own l) ≤ 1 → keep own (put_entry ne l) ≡ ne ∷ []
  unfolding put_entry
  put_entry-own [] h = rw own_self refl
  put_entry-own (e ∷ l) h = elim (Bool-cases (own e)) [
    | inl here ↦
        rw (here, own_self)
          (ap (λ (k : List NatEntry). ne ∷ k)
            (length_zero (keep own l) (omega (arith, rw here at h))))
    | inr other ↦ rw (other, other) (put_entry-own l (rw other at h))
  ]

  put_entry-other :
      (ip port : ℕ)
      → Differs ne.nat_ext.ip ne.nat_ext.port ip port
      → (l : List NatEntry) → entries_at ip port (put_entry ne l) ≡ entries_at ip port l
  unfolding put_entry
  put_entry-other ip port d [] = rw (external_not _ _ ip port ne own_self d) refl
  put_entry-other ip port d (e ∷ l) = elim (Bool-cases (own e)) [
    | inl here ↦
        rw (here, external_not _ _ ip port ne own_self d, external_not _ _ ip port e here d) refl
    | inr other ↦ rw other (
        ap (λ (k : List NatEntry). if is_external ip port e then e ∷ k else k)
          (put_entry-other ip port d l))
  ]

  -- A new entry is at the end, and removing it gives back the table.
  remove_entry-put_entry :
      (l : List NatEntry)
      → keep own l ≡ []
      → remove_entry ne.nat_ext.ip ne.nat_ext.port (put_entry ne l) ≡ (l, true)
  unfolding put_entry remove_entry
  remove_entry-put_entry [] h = rw own_self refl
  remove_entry-put_entry (e ∷ l) h = elim (Bool-cases (own e)) [
    | inl here ↦ absurd (not_nil (rw here at h))
    | inr other ↦
        rw (other, other)
          (ap (λ (r : List NatEntry × Bool). (e ∷ r.0, r.1))
            (remove_entry-put_entry l (rw other at h)))
  ]
    where
      not_nil : e ∷ keep own l ≡ [] → ⊥
      not_nil h = cc

-- The arguments of a command that was read in full
abbrev pub whole : ℕ → ℕ → ℕ → ℕ → NatArgs
whole ip_ext port_ext ip_int port_int = record {
  ip_ext = some ip_ext;
  port_ext = port_ext;
  ip_int = some ip_int;
  port_int = port_int;
}

module _ (now ip_ext port_ext ip_int port_int : ℕ) (nat_table : List NatEntry) where
  -- Where at most one entry has the external address and port of a command, `cli_nat_add` leaves
  -- the new static entry as the only one that has them, and the entries of every other external
  -- pair as they were.
  pub cli_nat_add_lem :
      length (entries_at ip_ext (htons (port_ext % 65536)) nat_table) ≤ 1
      → (entries_at ip_ext
            (htons (port_ext % 65536))
            (cli_nat_add now (some (whole ip_ext port_ext ip_int port_int)) nat_table)
          ≡ static_entry now ip_ext port_ext ip_int port_int ∷ [])
        × ((ip port : ℕ)
            → Differs ip_ext (htons (port_ext % 65536)) ip port
            → entries_at ip port
                (cli_nat_add now (some (whole ip_ext port_ext ip_int port_int)) nat_table)
              ≡ entries_at ip port nat_table)
  unfolding cli_nat_add static_entry compute_nat_checksums
  cli_nat_add_lem h =
      let ne = static_entry now ip_ext port_ext ip_int port_int in
      (put_entry-own ne nat_table h, λ ip port d. put_entry-other ne ip port d nat_table)

  -- Where no entry has the external address and port of a command, `cli_nat_del` after
  -- `cli_nat_add` finds the entry and gives back the table.
  pub cli_nat_del-cli_nat_add :
      entries_at ip_ext (htons (port_ext % 65536)) nat_table ≡ []
      → cli_nat_del
          (some (whole ip_ext port_ext ip_int port_int))
          (cli_nat_add now (some (whole ip_ext port_ext ip_int port_int)) nat_table)
        ≡ (nat_table, true)
  unfolding cli_nat_add cli_nat_del static_entry compute_nat_checksums
  cli_nat_del-cli_nat_add h =
      remove_entry-put_entry (static_entry now ip_ext port_ext ip_int port_int) nat_table h
