-- ===== src/NatTable/Upkeep/Loop.antt =====
-- The loop of a pass: the entries that expire, and what it makes of those that stay.
use osnt_plus.Prelude.{
  ℕ, suc, ◌+◌, ◌-◌, ◌%◌, ◌^◌, ◌<◌, ◌≤◌, ◌≡◌, ◌≢◌, ◌⊎◌, refl, ap, inl, inr, true, false, ◌&&◌, none,
  ◌==◌, some, List, [], ◌∷◌, arith, ltb, if◌then◌else◌, All, map, get_elem?, Bool-cases,
}
use osnt_plus.State.{NatEntry}
use osnt_plus.NatTable.Upkeep.{is_expired, note_hits, reset_row, refresh, upkeep_loop}
use osnt_plus.NatTable.Upkeep.Rows.{HasNoRow}

-- An entry that has no new hits, is not static and was hit too long ago, and one that stays
abbrev pub Expires : ℕ → ℕ → NatEntry → Type 0
Expires nat_timeout now ne =
    (ne.is_static ≡ 0) × (ne.last_hits ≡ ne.hits) × (ne.last_hits_time + nat_timeout < now)

abbrev pub Stays : ℕ → ℕ → NatEntry → Type 0
Stays nat_timeout now ne =
    (ne.is_static ≢ 0) ⊎ ((ne.last_hits ≢ ne.hits) ⊎ (now ≤ ne.last_hits_time + nat_timeout))

-- The entry after the pass: new hits are noted with the time, and it has no row.
abbrev pub after : ℕ → NatEntry → NatEntry
after now ne =
    if ne.last_hits == ne.hits
    then record ne { hw_row = 0xFF }
    else record ne { last_hits = ne.hits; last_hits_time = now; hw_row = 0xFF }

module _ (nat_timeout now : ℕ) (ne : NatEntry) where
  reset-after : reset_row (note_hits now ne) ≡ after now ne
  reset-after = elim (Bool-cases (ne.last_hits == ne.hits)) [
    | inl seen ↦ rw seen refl
    | inr hit ↦ rw hit refl
  ]

  expired-Expires :
      is_expired nat_timeout now (note_hits now ne) ≡ true → Expires nat_timeout now ne
  unfolding is_expired
  expired-Expires h = elim (Bool-cases (ne.last_hits == ne.hits)) [
    | inl seen ↦ late seen (rw seen at h)
    | inr hit ↦ absurd (fresh (rw hit at h))
  ]
    where
      late :
          (ne.last_hits == ne.hits) ≡ true
          → (ne.is_static == 0 && ltb (ne.last_hits_time + nat_timeout) now) ≡ true
          → Expires nat_timeout now ne
      late seen k = (ground (arith, k), ground (arith, seen), ground (arith, k))

      fresh : (ne.is_static == 0 && ltb (now + nat_timeout) now) ≡ true → ⊥
      fresh k = ground (arith, k)

  not_expired-Stays :
      is_expired nat_timeout now (note_hits now ne) ≡ false → Stays nat_timeout now ne
  unfolding is_expired
  not_expired-Stays h = elim (Bool-cases (ne.is_static == 0)) [
    | inr static ↦ inl (λ e. ground (arith, static, e))
    | inl dynamic ↦ elim (Bool-cases (ne.last_hits == ne.hits)) [
      | inr hit ↦ inr (inl (λ e. ground (arith, hit, e)))
      | inl seen ↦ inr (inr (in_time (rw (seen, dynamic) at h)))
    ]
  ]
    where
      in_time :
          ltb (ne.last_hits_time + nat_timeout) now ≡ false → now ≤ ne.last_hits_time + nat_timeout
      in_time k = ground (arith, k)

module _ {A : Type 0} (average : ℕ → ℕ → ℕ → A → A) (nat_timeout now : ℕ) where
  -- An entry with its average after the pass: the number of new hits is counted modulo 2 ^ 32.
  abbrev pub moved : NatEntry × A → NatEntry × A
  moved e = (
    after now (e.0),
    average ((e.0.hits + 2 ^ 32 - e.0.last_hits) % 2 ^ 32) now e.0.last_hits_time e.1,
  )

  -- How the loop over the table ends
  pub upkeep_loop_lem :
      (l : List (NatEntry × A))
      → ((k : ℕ) × (e : NatEntry × A) × (get_elem? l k ≡ some e)
          × Expires nat_timeout now (e.0)
          × (upkeep_loop average nat_timeout now l ≡ none))
        ⊎ (All (λ e. Stays nat_timeout now (e.0)) l
            × (upkeep_loop average nat_timeout now l ≡ some (map moved l)))
  unfolding upkeep_loop refresh
  upkeep_loop_lem [] = inr (tt, refl)
  upkeep_loop_lem (e ∷ l) = elim (Bool-cases (is_expired nat_timeout now (note_hits now (e.0)))) [
    | inl old ↦
        inl (
          0,
          e,
          refl,
          expired-Expires nat_timeout now (e.0) old,
          rw (upkeep_loop, refresh, old) refl,
        )
    | inr young ↦ elim (upkeep_loop_lem l) [
      | inl (k, x, held, expires, faults) ↦
          inl (suc k, x, held, expires, rw (upkeep_loop, refresh, young, faults) refl)
      | inr (all, runs) ↦ inr (
        (not_expired-Stays nat_timeout now (e.0) young, all),
        rw (upkeep_loop, refresh, young, runs, reset-after nat_timeout now (e.0)) refl,
      )
    ]
  ]

  after-row : (ne : NatEntry) → reset_row (after now ne) ≡ after now ne
  after-row ne = elim (Bool-cases (ne.last_hits == ne.hits)) [
    | inl seen ↦ rw seen refl
    | inr hit ↦ rw hit refl
  ]

  pub moved-HasNoRow : (l : List (NatEntry × A)) → All HasNoRow (map moved l)
  moved-HasNoRow [] = tt
  moved-HasNoRow (e ∷ l) = (ap (λ ne. (ne, (moved e).1)) (after-row (e.0)), moved-HasNoRow l)
