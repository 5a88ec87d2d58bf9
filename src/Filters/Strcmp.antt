-- ===== src/Filters/Strcmp.antt =====
-- A `strcmp` that meets the standard, for the tests: it tells only the sign.
use mathlib.Core.Path.{subst}
use osnt_plus.Prelude.{ℕ, ◌≡◌, refl, List, [], ◌∷◌, arith, ltb, if◌then◌else◌}
use osnt_plus.Prelude.Int.{ℤ, pos, negsuc, is_positive, is_negative}
use osnt_plus.Filters.{IsStrcmp}

unfoldable pub strcmp : List ℕ → List ℕ → ℤ
strcmp [] [] = pos 0
strcmp [] (y ∷ b) = negsuc 0
strcmp (x ∷ a) [] = pos 1
strcmp (x ∷ a) (y ∷ b) =
    let rest = strcmp a b in if ltb x y then negsuc 0 else if ltb y x then pos 1 else rest

strcmp_self : (a : List ℕ) → strcmp a a ≡ pos 0
unfolding strcmp
strcmp_self [] = refl
strcmp_self (x ∷ a) = ground (arith, strcmp_self a)

strcmp_zero : (a b : List ℕ) → strcmp a b ≡ pos 0 → a ≡ b
unfolding strcmp
strcmp_zero [] [] h = refl
strcmp_zero [] (y ∷ b) h = ground arith
strcmp_zero (x ∷ a) [] h = ground arith
strcmp_zero (x ∷ a) (y ∷ b) h = ground (arith, strcmp_zero a b)

strcmp_turn : (a b : List ℕ) → is_positive (strcmp a b) ≡ is_negative (strcmp b a)
unfolding strcmp
strcmp_turn [] [] = refl
strcmp_turn [] (y ∷ b) = refl
strcmp_turn (x ∷ a) [] = refl
strcmp_turn (x ∷ a) (y ∷ b) = ground (arith, strcmp_turn a b)

pub strcmp-IsStrcmp : IsStrcmp strcmp
strcmp-IsStrcmp = record {
  zero_iff =
      λ a b. (strcmp_zero a b, λ e. subst (λ (c : List ℕ). strcmp a c ≡ pos 0) e (strcmp_self a));
  turn = strcmp_turn;
}
