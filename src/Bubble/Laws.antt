-- ===== src/Bubble/Laws.antt =====
-- The bubble sort: it ends, it only rearranges, and it leaves no neighbours out of place.
use mathlib.Core.List.{Perm}
use mathlib.Core.List.Perm
use mathlib.Core.Path.{subst}
use osnt_plus.Prelude.{
  ℕ, zero, suc, ◌+◌, ◌≤◌, ◌<◌, ◌≡◌, refl, sym, ap, ◌∙◌, inl, inr, Bool, true, false, some, List, [],
  ◌∷◌, arith, All, tally, Bool-cases, some_eq, some≢none,
}
use osnt_plus.Bubble.{bubble, bubble_pass, bubble_sort, inversions, sort}

abbrev flag : Bool → ℕ
flag true = 1
flag false = 0

module _ {ℓ} {A : Type ℓ} (wrong : A → A → Bool) where
  -- No two neighbours stand in the wrong order.
  abbrev pub IsOrdered : List A → Type 0
  IsOrdered [] = Unit
  IsOrdered (a ∷ []) = Unit
  IsOrdered (a ∷ b ∷ rest) = (wrong a b ≡ false) × IsOrdered (b ∷ rest)

module _ {ℓ} {A : Type ℓ} (wrong : A → A → Bool)
    (asymm : (a b : A) → wrong a b ≡ true → wrong b a ≡ false) where
  tally-bubble :
      (p : A → Bool) (a : A) (rest : List A) (s : Bool)
      → tally p (bubble wrong a rest s).0 ≡ tally p (a ∷ rest)
  unfolding bubble
  tally-bubble p a [] s = refl
  tally-bubble p a (b ∷ rest) s = elim (Bool-cases (wrong a b)) [
    | inl e ↦ rw e (omega (arith, tally-bubble p a rest true))
    | inr e ↦ rw e (omega (arith, tally-bubble p b rest s))
  ]

  perm-bubble : (a : A) (rest : List A) (s : Bool) → Perm (bubble wrong a rest s).0 (a ∷ rest)
  unfolding bubble
  perm-bubble a [] s = Perm.refl _
  perm-bubble a (b ∷ rest) s = elim (Bool-cases (wrong a b)) [
    | inl e ↦ rw e (Perm.trans (Perm.cons b (perm-bubble a rest true)) (Perm.swap a b rest))
    | inr e ↦ rw e (Perm.cons a (perm-bubble b rest s))
  ]

  -- The entry that moves to the front is before nothing that it passed.
  tally-bubble_swapped :
      (a b : A) (rest : List A)
      → wrong a b ≡ true
      → tally (wrong b) (bubble wrong a rest true).0 ≡ tally (wrong b) rest
  tally-bubble_swapped a b rest e = rw (tally-bubble, asymm a b e) (omega arith)

  tally-bubble_kept :
      (a b : A) (rest : List A) (s : Bool)
      → wrong a b ≡ false
      → tally (wrong a) (bubble wrong b rest s).0 ≡ tally (wrong a) rest
  tally-bubble_kept a b rest s e = rw (tally-bubble, e) (omega arith)

  -- Each swap removes one inversion.
  inversions-bubble :
      (a : A) (rest : List A) (s : Bool)
      → inversions wrong (bubble wrong a rest s).0 + flag (bubble wrong a rest s).1
        ≤ inversions wrong (a ∷ rest) + flag s
  unfolding bubble inversions
  inversions-bubble a [] s = omega arith
  inversions-bubble a (b ∷ rest) s = elim (Bool-cases (wrong a b)) [
    | inl e ↦ rw e (omega (arith, tally-bubble_swapped a b rest e, inversions-bubble a rest true))
    | inr e ↦ rw e (omega (arith, tally-bubble_kept a b rest s e, inversions-bubble b rest s))
  ]

  -- A pass without a swap found every pair of neighbours in order and changed nothing.
  bubble_still :
      (a : A) (rest : List A) (s : Bool)
      → (bubble wrong a rest s).1 ≡ false
      → (s ≡ false) × ((bubble wrong a rest s).0 ≡ a ∷ rest) × IsOrdered wrong (a ∷ rest)
  unfolding bubble
  bubble_still a [] s h = (h, refl, tt)
  bubble_still a (b ∷ rest) s h = elim (Bool-cases (wrong a b)) [
    | inl e ↦ absurd (swapped (bubble_still a rest true (rw e at h)))
    | inr e ↦
        let (c, same, ordered) = bubble_still b rest s (rw e at h) in
        rw e (c, ap (◌∷◌ a) same, (refl, ordered))
  ]
    where
      swapped :
          (true ≡ false) × ((bubble wrong a rest true).0 ≡ a ∷ rest) × IsOrdered wrong (a ∷ rest)
          → ⊥
      swapped (e, _, _) = cc

  pass_still :
      (r : List A)
      → (bubble_pass wrong r).1 ≡ false
      → ((bubble_pass wrong r).0 ≡ r) × IsOrdered wrong r
  unfolding bubble_pass
  pass_still [] h = (refl, tt)
  pass_still (a ∷ rest) h = let (_, same, ordered) = bubble_still a rest false h in (same, ordered)

  inversions-pass :
      (r : List A)
      → inversions wrong (bubble_pass wrong r).0 + flag (bubble_pass wrong r).1 ≤ inversions wrong r
  unfolding bubble_pass inversions
  inversions-pass [] = omega arith
  inversions-pass (a ∷ rest) = omega (arith, inversions-bubble a rest false)

  perm-pass : (r : List A) → Perm (bubble_pass wrong r).0 r
  unfolding bubble_pass
  perm-pass [] = Perm.refl []
  perm-pass (a ∷ rest) = perm-bubble a rest false

  -- What a finished sort returns.
  abbrev Sorts : List A → List A → Type ℓ
  Sorts r out = Perm out r × IsOrdered wrong out

  -- With more fuel than inversions the loop ends by its test.
  bubble_sort_total :
      (fuel : ℕ) (r : List A)
      → inversions wrong r < fuel
      → (out : List A) × (bubble_sort wrong fuel r ≡ some out) × Sorts r out
  unfolding bubble_sort
  bubble_sort_total zero r h = absurd (omega arith)
  bubble_sort_total (suc fuel) r h = elim (Bool-cases (bubble_pass wrong r).1) [
    | inl more ↦
        let (out, e, (p, o)) =
          bubble_sort_total fuel (bubble_pass wrong r).0 (fewer more (inversions-pass r)) in
        rw more (out, e, (Perm.trans p (perm-pass r), o))
    | inr done ↦ let (same, o) = pass_still r done in rw (done, same) (r, refl, (Perm.refl r, o))
  ]
    where
      fewer :
          (bubble_pass wrong r).1 ≡ true
          → inversions wrong (bubble_pass wrong r).0 + flag (bubble_pass wrong r).1
            ≤ inversions wrong r
          → inversions wrong (bubble_pass wrong r).0 < fuel
      fewer more le = omega (arith, rw more at le)

  bubble_sort_more :
      (fuel more : ℕ) (r : List A) {out : List A}
      → bubble_sort wrong fuel r ≡ some out
      → fuel ≤ more
      → bubble_sort wrong more r ≡ some out
  unfolding bubble_sort
  bubble_sort_more zero more r e h = cc
  bubble_sort_more (suc fuel) zero r e h = absurd (omega arith)
  bubble_sort_more (suc fuel) (suc more) r e h = elim (Bool-cases (bubble_pass wrong r).1) [
    | inl again ↦
        rw again (bubble_sort_more fuel more (bubble_pass wrong r).0 (rw again at e) (omega arith))
    | inr done ↦ rw done (rw done at e)
  ]

  tally-pass : (p : A → Bool) (r : List A) → tally p (bubble_pass wrong r).0 ≡ tally p r
  unfolding bubble_pass
  tally-pass p [] = refl
  tally-pass p (a ∷ rest) = tally-bubble p a rest false

  tally-bubble_sort :
      (p : A → Bool) (fuel : ℕ) (r : List A) {out : List A}
      → bubble_sort wrong fuel r ≡ some out
      → tally p out ≡ tally p r
  unfolding bubble_sort
  tally-bubble_sort p zero r e = absurd (some≢none e)
  tally-bubble_sort p (suc fuel) r e = elim (Bool-cases (bubble_pass wrong r).1) [
    | inl more ↦ tally-bubble_sort p fuel (bubble_pass wrong r).0 (rw more at e) ∙ tally-pass p r
    | inr done ↦ ap (tally p) (sym (some_eq (rw done at e))) ∙ tally-pass p r
  ]

  -- The sort ends, with the sorted list, within one more pass than the list has inversions.
  pub bubble_sort-sort :
      (fuel : ℕ) (r : List A)
      → inversions wrong r < fuel
      → bubble_sort wrong fuel r ≡ some (sort wrong r)
  unfolding sort
  bubble_sort-sort fuel r h =
      let (out, e, _) = bubble_sort_total (suc (inversions wrong r)) r (omega arith) in
      rw (e, sort) (bubble_sort_more (suc (inversions wrong r)) fuel r e h)

  -- The sorted list has as many elements of a kind.
  pub tally-sort : (p : A → Bool) (r : List A) → tally p (sort wrong r) ≡ tally p r
  tally-sort p r =
      tally-bubble_sort p (suc (inversions wrong r)) r
        (bubble_sort-sort (suc (inversions wrong r)) r (omega arith))

  -- The sorted list has the same elements, and no two neighbours are out of place.
  pub sort_lem : (r : List A) → Perm (sort wrong r) r × IsOrdered wrong (sort wrong r)
  unfolding sort
  sort_lem r =
      let (out, e, s) = bubble_sort_total (suc (inversions wrong r)) r (omega arith) in
      rw (e, sort) s

  module _ {κ} (P : A → Type κ) where
    All-bubble :
        (a : A) (rest : List A) (s : Bool) → P a → All P rest → All P (bubble wrong a rest s).0
    unfolding bubble
    All-bubble a [] s pa h = (pa, tt)
    All-bubble a (b ∷ rest) s pa h = elim (Bool-cases (wrong a b)) [
      | inl e ↦ rw e (h.0, All-bubble a rest true pa h.1)
      | inr e ↦ rw e (pa, All-bubble b rest s h.0 h.1)
    ]

    All-pass : (r : List A) → All P r → All P (bubble_pass wrong r).0
    unfolding bubble_pass
    All-pass [] h = tt
    All-pass (a ∷ rest) h = All-bubble a rest false h.0 h.1

    All-bubble_sort :
        (fuel : ℕ) (r : List A) {out : List A}
        → bubble_sort wrong fuel r ≡ some out
        → All P r
        → All P out
    unfolding bubble_sort
    All-bubble_sort zero r e h = absurd (some≢none e)
    All-bubble_sort (suc fuel) r e h = elim (Bool-cases (bubble_pass wrong r).1) [
      | inl more ↦ All-bubble_sort fuel (bubble_pass wrong r).0 (rw more at e) (All-pass r h)
      | inr done ↦ subst (All P) (some_eq (rw done at e)) (All-pass r h)
    ]

    -- What holds of every element holds of every element of the sorted list.
    pub All-sort : (r : List A) → All P r → All P (sort wrong r)
    All-sort r h =
        All-bubble_sort (suc (inversions wrong r)) r
          (bubble_sort-sort (suc (inversions wrong r)) r (omega arith)) h
