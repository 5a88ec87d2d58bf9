-- ===== src/NatTable/Upkeep/Laws.antt =====
-- The table after a pass.
use mathlib.Core.List.{Perm}
use osnt_plus.Prelude.{
  ℕ, zero, suc, ◌+◌, ◌≡◌, ◌⊎◌, refl, inl, inr, Bool, true, false, ◌&&◌, none, some, List, [], ◌∷◌,
  arith, ltb, if◌then◌else◌, All, All-imp, map, get_elem?, Bool-cases,
}
use osnt_plus.State.{NatEntry}
use osnt_plus.Bubble.{inversions, sort}
use osnt_plus.Bubble.Laws.{IsOrdered, bubble_sort-sort, sort_lem, All-sort}
use osnt_plus.NatTable.Upkeep.{number_rows, hit_less, nat_maintenance_pass}
use osnt_plus.NatTable.Upkeep.Rows.{
  without_row, HasNoRow, without_row-id, number_rows-without_row, no_row, number_rows-row,
}
use osnt_plus.NatTable.Upkeep.Loop.{Expires, Stays, moved, moved-HasNoRow, upkeep_loop_lem}

module _ {A : Type 0} (less : A → A → Bool) where
  number_rows-IsOrdered :
      (left i : ℕ) (l : List (NatEntry × A))
      → IsOrdered (hit_less less) l
      → IsOrdered (hit_less less) (number_rows left i l)
  unfolding number_rows
  number_rows-IsOrdered zero i l h = h
  number_rows-IsOrdered (suc left) i [] h = tt
  number_rows-IsOrdered (suc zero) i (a ∷ []) h = tt
  number_rows-IsOrdered (suc (suc left)) i (a ∷ []) h = tt
  number_rows-IsOrdered (suc zero) i (a ∷ b ∷ l) h = h
  number_rows-IsOrdered (suc (suc left)) i (a ∷ b ∷ l) h =
      (h.0, number_rows-IsOrdered (suc left) (i + 1) (b ∷ l) h.1)

module _ {A : Type 0} (less : A → A → Bool) where
  -- Every average is followed by none that is greater.
  abbrev pub Falling : List (NatEntry × A) → Type 0
  Falling [] = Unit
  Falling (a ∷ l) = All (λ b. less a.1 b.1 ≡ false) l × Falling l

module _ {A : Type 0} (less : A → A → Bool)
    (not_less_trans : (a b c : A) → less a b ≡ false → less b c ≡ false → less a c ≡ false) where
  not_less_first :
      (a : NatEntry × A) (l : List (NatEntry × A))
      → IsOrdered (hit_less less) (a ∷ l)
      → All (λ b. less a.1 b.1 ≡ false) l
  not_less_first a [] h = tt
  not_less_first a (b ∷ l) h = (
    h.0,
    All-imp (λ c. less b.1 c.1 ≡ false) (λ c. less a.1 c.1 ≡ false) l
        (λ c k. not_less_trans a.1 b.1 c.1 h.0 k) (not_less_first b l h.1),
  )

  IsOrdered-Falling : (l : List (NatEntry × A)) → IsOrdered (hit_less less) l → Falling less l
  IsOrdered-Falling [] h = tt
  IsOrdered-Falling (a ∷ []) h = (tt, tt)
  IsOrdered-Falling (a ∷ b ∷ l) h = (not_less_first a (b ∷ l) h, IsOrdered-Falling (b ∷ l) h.1)

-- What a pass makes of the table: the entries `stay`, by falling average, with the rows of the device
-- for the first 16 where there is one.
pub record Upkept {A : Type 0} (less : A → A → Bool) (is_netfpga : Bool)
    (stay table : List (NatEntry × A)) : Type 0 where
  pub same : Perm (map without_row table) stay
  pub ordered : Falling less table
  pub rows :
      (k : ℕ) (e : NatEntry × A)
      → get_elem? table k ≡ some e
      → e.0.hw_row ≡ (if is_netfpga && ltb k 16 then k else 0xFF)

upkept :
    {A : Type 0} (less : A → A → Bool)
    (_ : (a b c : A) → less a b ≡ false → less b c ≡ false → less a c ≡ false) (is_netfpga : Bool)
    (stay sorted : List (NatEntry × A))
    → Perm sorted stay
    → IsOrdered (hit_less less) sorted
    → All HasNoRow sorted
    → Upkept less is_netfpga stay (if is_netfpga then number_rows 16 0 sorted else sorted)
upkept less trans false stay sorted perm ordered bare = record {
  same = rw (without_row-id sorted bare) perm;
  ordered = IsOrdered-Falling less trans sorted ordered;
  rows = λ k e s. no_row k sorted e bare s;
}
upkept less trans true stay sorted perm ordered bare = record {
  same = rw (number_rows-without_row 16 0 sorted bare) perm;
  ordered =
      IsOrdered-Falling less trans (number_rows 16 0 sorted)
        (number_rows-IsOrdered less 16 0 sorted ordered);
  rows = λ k e s.
      let (row, none_left) = number_rows-row 16 0 k sorted e bare s in
      elim (Bool-cases (ltb k 16)) [
        | inl lt ↦ rw lt (omega (arith, row (ground (arith, lt))))
        | inr ge ↦ rw ge (none_left (ground (arith, ge)))
      ];
}

module _ {A : Type 0} (average : ℕ → ℕ → ℕ → A → A) (less : A → A → Bool)
    (asymm : (a b : A) → less a b ≡ true → less b a ≡ false)
    (not_less_trans : (a b c : A) → less a b ≡ false → less b c ≡ false → less a c ≡ false) where
  asymm-hits : (a b : NatEntry × A) → hit_less less a b ≡ true → hit_less less b a ≡ false
  asymm-hits a b h = asymm a.1 b.1 h

  -- Where the comparison of averages is asymmetric and its negation transitive, a pass of the NAT's
  -- upkeep fails if some entry expires, that is, it is not static, has no new hits and was last hit
  -- longer ago than the timeout; otherwise every entry is static, has new hits or was hit in time,
  -- and the pass ends. Then the table has the same entries, with new hits and their time noted and
  -- the averages moved; no entry stands behind one of a lower average, the first 16 have the rows
  -- of the device where there is one, and the others none.
  pub nat_maintenance_pass_lem :
      (is_netfpga : Bool) (nat_timeout now : ℕ) (nat_table : List (NatEntry × A))
      → ((k : ℕ) × (e : NatEntry × A) × (get_elem? nat_table k ≡ some e)
          × Expires nat_timeout now (e.0)
          × (nat_maintenance_pass average less is_netfpga nat_timeout now nat_table ≡ none))
        ⊎ (All (λ e. Stays nat_timeout now (e.0)) nat_table
            × (table : List (NatEntry × A)) × (nat_maintenance_pass average less is_netfpga
                  nat_timeout now nat_table
                ≡ some table)
            × Upkept less is_netfpga (map (moved average nat_timeout now) nat_table) table)
  unfolding nat_maintenance_pass
  nat_maintenance_pass_lem is_netfpga nat_timeout now nat_table =
      elim (upkeep_loop_lem average nat_timeout now nat_table) [
        | inl (k, e, held, expires, faults) ↦
            inl (k, e, held, expires, rw (nat_maintenance_pass, faults) refl)
        | inr (all, runs) ↦
            let looped = map (moved average nat_timeout now) nat_table in
            let e =
              bubble_sort-sort (hit_less less) asymm-hits (inversions (hit_less less) looped + 1)
                looped (omega arith) in
            let sorted = sort (hit_less less) looped in
            let (perm, ordered) = sort_lem (hit_less less) asymm-hits looped in
            let bare =
              All-sort (hit_less less) asymm-hits HasNoRow looped
                (moved-HasNoRow average nat_timeout now nat_table) in
            inr (
              all,
              if is_netfpga then number_rows 16 0 sorted else sorted,
              rw (nat_maintenance_pass, runs, e) refl,
              upkept less not_less_trans is_netfpga looped sorted perm ordered bare,
            )
      ]
