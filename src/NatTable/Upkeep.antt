-- ===== src/NatTable/Upkeep.antt =====
-- One pass of `nat_maintenance_thread` of scone/or_nat.c. The running averages are doubles: `A` is their
-- type, `average` the new average from the hits since the last pass, the time, the time of the last hits
-- and the old average, and `less` the comparison. An entry stands with its average.
pub mod Rows
pub mod Loop
pub mod Laws
mod Tests
use osnt_plus.Prelude.{
  ℕ, zero, suc, ◌+◌, ◌-◌, ◌%◌, ◌^◌, Bool, true, false, not, ◌&&◌, Option, none, some, List, [], ◌∷◌,
  ltb, ◌==◌, if◌then◌else◌,
}
use osnt_plus.State.{NatEntry}
use osnt_plus.Bubble.{bubble_sort, inversions}

-- `hits - last_hits` is of type uint32_t.
abbrev pub new_hits : NatEntry → ℕ
new_hits ne = (ne.hits + 2 ^ 32 - ne.last_hits) % 2 ^ 32

-- New hits are noted.
abbrev pub note_hits : ℕ → NatEntry → NatEntry
note_hits now ne =
    if ne.last_hits == ne.hits then ne else record ne { last_hits_time = now; last_hits = ne.hits }

unfoldable pub is_expired : ℕ → ℕ → NatEntry → Bool
is_expired nat_timeout now ne = ne.is_static == 0 && ltb (ne.last_hits_time + nat_timeout) now

abbrev pub reset_row : NatEntry → NatEntry
reset_row ne = record ne { hw_row = 0xFF }

module _ {A : Type 0} where
  -- The `for` over the rows of the device, of which `left` are left from row `i` on; the writes to it are
  -- commented out.
  unfoldable pub number_rows : ℕ → ℕ → List (NatEntry × A) → List (NatEntry × A)
  number_rows zero i cur = cur
  number_rows (suc left) i [] = []
  number_rows (suc left) i (nat ∷ cur) =
      (record (nat.0) { hw_row = i }, nat.1) ∷ number_rows left (i + 1) cur

module _ {A : Type 0} (less : A → A → Bool) where
  abbrev pub hit_less : NatEntry × A → NatEntry × A → Bool
  hit_less a b = less a.1 b.1

module _ {A : Type 0} (average : ℕ → ℕ → ℕ → A → A) where
  unfoldable pub refresh : ℕ → NatEntry × A → NatEntry × A
  refresh now cur = (note_hits now cur.0, average (new_hits cur.0) now cur.0.last_hits_time cur.1)

  -- The `while` over the table; none where an entry expires: `node_remove` frees it, and then its
  -- `hw_row` is written.
  unfoldable pub upkeep_loop : ℕ → ℕ → List (NatEntry × A) → Option (List (NatEntry × A))
  upkeep_loop nat_timeout now [] = some []
  upkeep_loop nat_timeout now (cur ∷ next) =
      let ne = refresh now cur in
      elim (is_expired nat_timeout now ne.0) [
        | true ↦ none
        | false ↦ elim (upkeep_loop nat_timeout now next) [
          | none ↦ none
          | some rest ↦ some ((reset_row ne.0, ne.1) ∷ rest)
        ]
      ]

-- The body of the `while (1)`; none where the loop writes to a freed entry, or the fuel of the sort runs
-- out.
module _ {A : Type 0} (average : ℕ → ℕ → ℕ → A → A) (less : A → A → Bool) where
  unfoldable pub nat_maintenance_pass :
      Bool → ℕ → ℕ → List (NatEntry × A) → Option (List (NatEntry × A))
  nat_maintenance_pass is_netfpga nat_timeout now nat_table =
      elim (upkeep_loop average nat_timeout now nat_table) [
        | none ↦ none
        | some table ↦
            elim (bubble_sort (hit_less less) (inversions (hit_less less) table + 1) table) [
              | none ↦ none
              | some sorted ↦ some (if is_netfpga then number_rows 16 0 sorted else sorted)
            ]
      ]
