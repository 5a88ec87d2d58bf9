-- ===== src/Pwospf/Adverts/Sync.antt =====
-- `populate_pwospf_router_interface_list` brings the interfaces into line with the advertisements.
use mathlib.Core.Path.{subst}
use osnt_plus.Prelude.{
  ◌≡◌, ◌⊎◌, refl, sym, ap, ◌∙◌, Bool, true, false, ◌||◌, List, [], ◌∷◌, ◌++◌, ==_refl, arith, All,
  All-imp, inl, inr, Bool-cases, bit_and,
}
use osnt_plus.State.{PwospfInterface}
use osnt_plus.Pwospf.Adverts.{
  LsuAdv, interface_of, added_interface, interfaces_of, is_advertised_by, some_entry, is_advertised,
  add_adverts, drop_missing, populate_interface_list,
}

right : (b : Bool) {c : Bool} → c ≡ true → (b || c) ≡ true
right b later = ground arith

-- The subnet of the advertisement masked by itself is the subnet masked by its mask.
abbrev pub IsMasked : LsuAdv → Type 0
IsMasked a = bit_and a.sub a.sub ≡ bit_and a.sub a.mask

added_lem : (a : LsuAdv) → IsMasked a → is_advertised_by (added_interface a) a ≡ true
added_lem a h = rw (h, ==_refl (bit_and a.sub a.mask), ==_refl a.mask, ==_refl a.rid) refl

interface_of_lem : (a : LsuAdv) → is_advertised_by (interface_of a) a ≡ true
interface_of_lem a = rw (==_refl (bit_and a.sub a.mask), ==_refl a.mask, ==_refl a.rid) refl

some_entry-append :
    (xs ys : List PwospfInterface) (a : LsuAdv)
    → some_entry (xs ++ ys) a ≡ (some_entry xs a || some_entry ys a)
unfolding some_entry
some_entry-append [] ys a = refl
some_entry-append (x ∷ xs) ys a = elim (Bool-cases (is_advertised_by x a)) [
  | inl h ↦ rw h refl
  | inr h ↦ rw h (some_entry-append xs ys a)
]

add_known :
    (a : LsuAdv) (n : List LsuAdv) (ifs : List PwospfInterface) (changed : Bool)
    → some_entry ifs a ≡ true
    → add_adverts (a ∷ n) ifs changed ≡ add_adverts n ifs changed
unfolding add_adverts
add_known a n ifs changed h = rw (add_adverts, h) refl

add_new :
    (a : LsuAdv) (n : List LsuAdv) (ifs : List PwospfInterface) (changed : Bool)
    → some_entry ifs a ≡ false
    → add_adverts (a ∷ n) ifs changed ≡ add_adverts n (ifs ++ added_interface a ∷ []) true
unfolding add_adverts
add_new a n ifs changed h = rw (add_adverts, h) refl

-- An entry that is there stays while advertisements are added.
some_entry-add_adverts :
    (advs : List LsuAdv) (ifs : List PwospfInterface) (changed : Bool) (a : LsuAdv)
    → some_entry ifs a ≡ true
    → some_entry (add_adverts advs ifs changed).0 a ≡ true
unfolding add_adverts
some_entry-add_adverts [] ifs changed a h = h
some_entry-add_adverts (b ∷ n) ifs changed a h = elim (Bool-cases (some_entry ifs b)) [
  | inl known ↦ rw (add_known b n ifs changed known) (some_entry-add_adverts n ifs changed a h)
  | inr new ↦ rw (add_new b n ifs changed new) (
      some_entry-add_adverts n (ifs ++ added_interface b ∷ []) true a
        (some_entry-append ifs (added_interface b ∷ []) a ∙ rw h refl))
]

add_adverts-All :
    (advs : List LsuAdv) (ifs : List PwospfInterface) (changed : Bool)
    → All IsMasked advs
    → All (λ a. some_entry (add_adverts advs ifs changed).0 a ≡ true) advs
unfolding add_adverts some_entry
add_adverts-All [] ifs changed h = tt
add_adverts-All (a ∷ n) ifs changed h =
    let Holds : List PwospfInterface × Bool → Type 0 =
      λ r. All (λ b. some_entry r.0 b ≡ true) (a ∷ n) in
    elim (Bool-cases (some_entry ifs a)) [
      | inl known ↦
          subst Holds (sym (add_known a n ifs changed known))
            (some_entry-add_adverts n ifs changed a known, add_adverts-All n ifs changed h.1)
      | inr new ↦ subst Holds (sym (add_new a n ifs changed new)) (
        some_entry-add_adverts n (ifs ++ added_interface a ∷ []) true a (
            some_entry-append ifs (added_interface a ∷ []) a
            ∙ rw (new, some_entry, added_lem a h.0) refl),
        add_adverts-All n (ifs ++ added_interface a ∷ []) true h.1,
      )
    ]

-- A flag that is set stays set.
add_adverts-true :
    (advs : List LsuAdv) (ifs : List PwospfInterface) → (add_adverts advs ifs true).1 ≡ true
unfolding add_adverts
add_adverts-true [] ifs = refl
add_adverts-true (a ∷ n) ifs = elim (Bool-cases (some_entry ifs a)) [
  | inl known ↦ rw (add_known a n ifs true known) (add_adverts-true n ifs)
  | inr new ↦ rw (add_new a n ifs true new) (add_adverts-true n (ifs ++ added_interface a ∷ []))
]

add_adverts_same :
    (advs : List LsuAdv) (ifs : List PwospfInterface)
    → ((add_adverts advs ifs false).1 ≡ true) ⊎ (add_adverts advs ifs false ≡ (ifs, false))
unfolding add_adverts
add_adverts_same [] ifs = inr refl
add_adverts_same (a ∷ n) ifs = elim (Bool-cases (some_entry ifs a)) [
  | inl known ↦ rw (add_known a n ifs false known) (add_adverts_same n ifs)
  | inr new ↦
      rw (add_new a n ifs false new) (inl (add_adverts-true n (ifs ++ added_interface a ∷ [])))
]

drop_missing-true :
    (advs : List LsuAdv) (ifs : List PwospfInterface) → (drop_missing advs ifs true).1 ≡ true
unfolding drop_missing
drop_missing-true advs [] = refl
drop_missing-true advs (e ∷ n) = elim (Bool-cases (is_advertised advs e)) [
  | inl found ↦ rw found (drop_missing-true advs n)
  | inr missing ↦ rw missing (drop_missing-true advs n)
]

drop_missing_same :
    (advs : List LsuAdv) (ifs : List PwospfInterface)
    → ((drop_missing advs ifs false).1 ≡ true) ⊎ ((drop_missing advs ifs false).0 ≡ ifs)
unfolding drop_missing
drop_missing_same advs [] = inr refl
drop_missing_same advs (e ∷ n) = elim (Bool-cases (is_advertised advs e)) [
  | inl found ↦ rw found (elim (drop_missing_same advs n) [
    | inl changed ↦ inl changed
    | inr same ↦ inr (ap (λ (l : List PwospfInterface). e ∷ l) same)
  ])
  | inr missing ↦ rw missing (inl (drop_missing-true advs n))
]

-- What stays is advertised.
drop_missing_advertised :
    (advs : List LsuAdv) (ifs : List PwospfInterface) (changed : Bool)
    → All (λ e. is_advertised advs e ≡ true) (drop_missing advs ifs changed).0
unfolding drop_missing
drop_missing_advertised advs [] changed = tt
drop_missing_advertised advs (e ∷ n) changed = elim (Bool-cases (is_advertised advs e)) [
  | inl found ↦ rw found (found, drop_missing_advertised advs n changed)
  | inr missing ↦ rw missing (drop_missing_advertised advs n true)
]

-- An entry of one of the advertisements stays.
some_entry-drop_missing :
    (advs : List LsuAdv) (ifs : List PwospfInterface) (changed : Bool) (a : LsuAdv)
    → ((e : PwospfInterface) → is_advertised_by e a ≡ true → is_advertised advs e ≡ true)
    → some_entry ifs a ≡ true
    → some_entry (drop_missing advs ifs changed).0 a ≡ true
unfolding drop_missing some_entry
some_entry-drop_missing advs [] changed a among h = h
some_entry-drop_missing advs (e ∷ n) changed a among h = elim (Bool-cases (is_advertised_by e a)) [
  | inl mine ↦ rw (among e mine, some_entry, mine) refl
  | inr other ↦
      let rest = rw (some_entry, other) at h in
      elim (Bool-cases (is_advertised advs e)) [
        | inl found ↦
            rw (found, some_entry, other) (some_entry-drop_missing advs n changed a among rest)
        | inr missing ↦ rw missing (some_entry-drop_missing advs n true a among rest)
      ]
]

drop_missing-All :
    (some_advs advs : List LsuAdv) (ifs : List PwospfInterface) (changed : Bool)
    → ((e : PwospfInterface) → is_advertised some_advs e ≡ true → is_advertised advs e ≡ true)
    → All (λ a. some_entry ifs a ≡ true) some_advs
    → All (λ a. some_entry (drop_missing advs ifs changed).0 a ≡ true) some_advs
unfolding is_advertised
drop_missing-All [] advs ifs changed among h = tt
drop_missing-All (a ∷ n) advs ifs changed among h = (
  some_entry-drop_missing advs ifs changed a (λ e mine. among e (rw (is_advertised, mine) refl))
      h.0,
  drop_missing-All n advs ifs changed (λ e later. among e (right (is_advertised_by e a) later)) h.1,
)

interfaces_of_advertised :
    (some_advs advs : List LsuAdv)
    → ((e : PwospfInterface) → is_advertised some_advs e ≡ true → is_advertised advs e ≡ true)
    → All (λ e. is_advertised advs e ≡ true) (interfaces_of some_advs)
unfolding is_advertised
interfaces_of_advertised [] advs among = tt
interfaces_of_advertised (a ∷ n) advs among = (
  among (interface_of a) (rw (is_advertised, interface_of_lem a) refl),
  interfaces_of_advertised n advs (λ e later. among e (right (is_advertised_by e a) later)),
)

interfaces_of-All : (advs : List LsuAdv) → All (λ a. some_entry (interfaces_of advs) a ≡ true) advs
unfolding some_entry
interfaces_of-All [] = tt
interfaces_of-All (a ∷ n) = (
  rw (some_entry, interface_of_lem a) refl,
  All-imp (λ b. some_entry (interfaces_of n) b ≡ true)
      (λ b. some_entry (interfaces_of (a ∷ n)) b ≡ true) n
      (λ b later. right (is_advertised_by (interface_of a) b) later) (interfaces_of-All n),
)

-- Where masking the subnet of each advertisement by itself and by its mask gives the same, every
-- interface that the router has after an update is advertised, every advertisement has an
-- interface, and the list is reported as changed or is the one that there was.
pub populate_interface_list_lem :
    (ifs : List PwospfInterface) (advs : List LsuAdv)
    → All IsMasked advs
    → let (ifs', changed) = populate_interface_list ifs advs in
      All (λ e. is_advertised advs e ≡ true) ifs'
      × All (λ a. some_entry ifs' a ≡ true) advs
      × ((changed ≡ true) ⊎ (ifs' ≡ ifs))
unfolding populate_interface_list
populate_interface_list_lem [] advs masked =
    (interfaces_of_advertised advs advs (λ e h. h), interfaces_of-All advs, inl refl)
populate_interface_list_lem (e ∷ n) advs masked =
    let added = add_adverts advs (e ∷ n) false in
    (
      drop_missing_advertised advs added.0 added.1,
      drop_missing-All advs advs added.0 added.1 (λ x h. h)
          (add_adverts-All advs (e ∷ n) false masked),
      elim (add_adverts_same advs (e ∷ n)) [
        | inl changed ↦ rw changed (inl (drop_missing-true advs added.0))
        | inr same ↦ rw same (drop_missing_same advs (e ∷ n))
      ],
    )
