-- ===== src/NatTable/Upkeep/Tests.antt =====
-- An old entry, one with three new hits and a static one; an average is the number of hits
-- since the last pass.
use osnt_plus.Prelude.{
  ℕ, ◌≡◌, ◌⊎◌, refl, true, false, none, some, All, map, get_elem?, List, [], ◌∷◌, arith, ltb,
}
use osnt_plus.State.{NatEntry}
use osnt_plus.Bubble.{bubble_sort, bubble_pass, bubble, inversions}
use osnt_plus.NatTable.{new_nat_entry}
use osnt_plus.NatTable.Upkeep.{nat_maintenance_pass, upkeep_loop, number_rows, refresh, is_expired}
use osnt_plus.NatTable.Upkeep.Loop.{Expires, Stays, moved}
use osnt_plus.NatTable.Upkeep.Laws.{Upkept, nat_maintenance_pass_lem}

abbrev average : ℕ → ℕ → ℕ → ℕ → ℕ
average hits now last_hits_time avg = hits

abbrev first : NatEntry
first = new_nat_entry 7 16820416 2000 83951626 34835

abbrev hit : NatEntry
hit = record (new_nat_entry 7 16820416 2001 83951626 34835) { hits = 3 }

abbrev static : NatEntry
static = record (new_nat_entry 7 16820416 2002 83951626 34835) { is_static = 1 }

-- The entry with the hits comes to the front; with the old entry the pass faults.
passes :
    (nat_maintenance_pass average ltb true 120 200 ((static, 0) ∷ (hit, 0) ∷ [])
      ≡ some (
          (record hit { last_hits = 3; last_hits_time = 200; hw_row = 0 }, 3)
          ∷ (record static { hw_row = 1 }, 0)
          ∷ []))
    × (nat_maintenance_pass average ltb true 120 200 ((static, 0) ∷ (first, 0) ∷ []) ≡ none)
unfolding nat_maintenance_pass upkeep_loop number_rows refresh is_expired bubble_sort bubble_pass
    bubble inversions new_nat_entry
passes = (refl, refl)

ltb-asymm : (a b : ℕ) → ltb a b ≡ true → ltb b a ≡ false
ltb-asymm a b h = ground (arith, h)

ltb_trans : (a b c : ℕ) → ltb a b ≡ false → ltb b c ≡ false → ltb a c ≡ false
ltb_trans a b c h k = ground (arith, h, k)

pass_example :
    ((k : ℕ) × (e : NatEntry × ℕ) × (get_elem? ((static, 0) ∷ (hit, 0) ∷ []) k ≡ some e)
      × Expires 120 200 (e.0)
      × (nat_maintenance_pass average ltb true 120 200 ((static, 0) ∷ (hit, 0) ∷ []) ≡ none))
    ⊎ (All (λ (e : NatEntry × ℕ). Stays 120 200 (e.0)) ((static, 0) ∷ (hit, 0) ∷ [])
        × (table : List (NatEntry × ℕ)) × (nat_maintenance_pass average ltb true 120 200
              ((static, 0) ∷ (hit, 0) ∷ [])
            ≡ some table)
        × Upkept ltb true (map (moved average 120 200) ((static, 0) ∷ (hit, 0) ∷ [])) table)
pass_example =
    nat_maintenance_pass_lem average ltb ltb-asymm ltb_trans true 120 200
      ((static, 0) ∷ (hit, 0) ∷ [])
