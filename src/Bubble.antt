-- ===== src/Bubble.antt =====
-- The bubble sort that scone writes out wherever it keeps a list in order: in `trigger_rtable_modified`
-- of or_rtable.c, `nat_maintenance_thread` of or_nat.c and `trigger_local_ip_filters_change` of
-- or_netfpga.c. `wrong a b` is the test by which `a`, in front of `b`, is out of place.
pub mod Laws
use osnt_plus.Prelude.{
  ℕ, zero, suc, ◌+◌, Bool, true, false, Option, none, some, List, [], ◌∷◌, if◌then◌else◌, tally,
}

module _ {ℓ} {A : Type ℓ} (wrong : A → A → Bool) where
  -- One `while` of the bubble sort, with `a` the data of `cur` and `rest` what follows it, and
  -- whether it swapped.
  unfoldable pub bubble : A → List A → Bool → List A × Bool
  bubble a [] swapped = (a ∷ [], swapped)
  bubble a (b ∷ rest) swapped =
      let (xs, s) =
        bubble (if wrong a b then a else b) rest (if wrong a b then true else swapped) in
      ((if wrong a b then b else a) ∷ xs, s)

  unfoldable pub bubble_pass : List A → List A × Bool
  unfolding bubble
  bubble_pass [] = ([], false)
  bubble_pass (a ∷ rest) = bubble a rest false

  -- `do … while (swapped)` on fuel; `none` means that the fuel ran out.
  unfoldable pub bubble_sort : ℕ → List A → Option (List A)
  bubble_sort zero l = none
  bubble_sort (suc fuel) l =
      let (l', swapped) = bubble_pass l in
      let rest = bubble_sort fuel l' in if swapped then rest else some l'

  -- The number of pairs that stand in the wrong order; each pass with a swap lowers it.
  unfoldable pub inversions : List A → ℕ
  inversions [] = 0
  inversions (a ∷ rest) = tally (wrong a) rest + inversions rest

  -- The sort with enough fuel (`Bubble.Laws` shows that it never runs out).
  unfoldable pub sort : List A → List A
  unfolding bubble_sort inversions
  sort l = elim (bubble_sort (suc (inversions l)) l) [ none ↦ l | some sorted ↦ sorted ]
