-- ===== src/NatTable/Upkeep/Rows.antt =====
-- The rows of the device that `number_rows` gives to the entries, and entries without one.
use osnt_plus.Prelude.{
  ℕ, zero, suc, ◌+◌, ◌<◌, ◌≤◌, ◌≡◌, refl, sym, ap, ◌∙◌, some, List, [], ◌∷◌, arith, All, map,
  get_elem?, some_eq, some≢none,
}
use osnt_plus.State.{NatEntry}
use osnt_plus.NatTable.Upkeep.{reset_row, number_rows}

module _ {A : Type 0} where
  abbrev pub without_row : NatEntry × A → NatEntry × A
  without_row ne = (reset_row ne.0, ne.1)

  abbrev pub HasNoRow : NatEntry × A → Type 0
  HasNoRow ne = without_row ne ≡ ne

  pub without_row-id : (l : List (NatEntry × A)) → All HasNoRow l → map without_row l ≡ l
  without_row-id [] h = refl
  without_row-id (e ∷ l) h =
      ap (λ x. x ∷ map without_row l) (h.0)
      ∙ ap (λ (k : List (NatEntry × A)). e ∷ k) (without_row-id l h.1)

  pub number_rows-without_row :
      (left i : ℕ) (l : List (NatEntry × A))
      → All HasNoRow l
      → map without_row (number_rows left i l) ≡ l
  unfolding number_rows
  number_rows-without_row zero i l h = without_row-id l h
  number_rows-without_row (suc left) i [] h = refl
  number_rows-without_row (suc left) i (e ∷ l) h =
      ap (λ x. x ∷ map without_row (number_rows left (i + 1) l)) (h.0)
      ∙ ap (λ (k : List (NatEntry × A)). e ∷ k) (number_rows-without_row left (i + 1) l h.1)

  pub no_row :
      (k : ℕ) (l : List (NatEntry × A)) (e : NatEntry × A)
      → All HasNoRow l
      → get_elem? l k ≡ some e
      → e.0.hw_row ≡ 0xFF
  no_row k [] e h same = absurd (some≢none same)
  no_row zero (x ∷ l) e h same =
      ap (λ (y : NatEntry × A). y.0.hw_row) (sym (some_eq same))
      ∙ ap (λ (y : NatEntry × A). y.0.hw_row) (sym (h.0))
  no_row (suc k) (x ∷ l) e h same = no_row k l e h.1 same

  pub number_rows-row :
      (left i k : ℕ) (l : List (NatEntry × A)) (e : NatEntry × A)
      → All HasNoRow l
      → get_elem? (number_rows left i l) k ≡ some e
      → (k < left → e.0.hw_row ≡ i + k) × (left ≤ k → e.0.hw_row ≡ 0xFF)
  unfolding number_rows
  number_rows-row zero i k l e h same = (λ lt. absurd (omega arith), λ _. no_row k l e h same)
  number_rows-row (suc left) i k [] e h same = absurd (some≢none same)
  number_rows-row (suc left) i zero (x ∷ l) e h same =
      let first = ap (λ (y : NatEntry × A). y.0.hw_row) (sym (some_eq same)) in
      (λ _. omega (arith, first), λ le. absurd (omega arith))
  number_rows-row (suc left) i (suc k) (x ∷ l) e h same =
      let (row, none_left) = number_rows-row left (i + 1) k l e h.1 same in
      (λ lt. omega (arith, row (omega arith)), λ le. none_left (omega arith))
