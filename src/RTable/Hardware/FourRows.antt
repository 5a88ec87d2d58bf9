-- ===== src/RTable/Hardware/FourRows.antt =====
-- A table of four rows behind the address 4, for the tests: its rows have different addresses.
use osnt_plus.Prelude.{
  ℕ, ◌≡◌, refl, Bool, true, arith, ◌==◌, not, ◌||◌, bit_or, all_below, all_below_sound,
}
use osnt_plus.RTable.Hardware.Rows.{Distinct}

abbrev apart : ℕ → ℕ → Bool
apart j k = not (bit_or 4 j == bit_or 4 k) || j == k

apart_table : all_below 4 (λ j. all_below 4 (apart j)) ≡ true
apart_table = refl

read_apart : (j k a b : ℕ) → (not (a == b) || j == k) ≡ true → a ≡ b → j ≡ k
read_apart j k a b t h = ground arith

pub four_rows : Distinct 4 4
four_rows j k hj hk h =
    read_apart j k (bit_or 4 j) (bit_or 4 k)
      (all_below_sound 4 (apart j) k
        (all_below_sound 4 (λ j. all_below 4 (apart j)) j apart_table hj) hk)
      h
