-- ===== src/Filters/Laws.antt =====
-- The filters that `add_local_ip_filter` leaves, and the rows that it leaves in the device.
use osnt_plus.Prelude.{
  ℕ, zero, suc, ◌+◌, ◌-◌, ◌≤◌, ◌<◌, ◌≡◌, refl, sym, ◌∙◌, ◌⊎◌, inl, inr, Bool, true, false, ◌||◌,
  List, [], ◌∷◌, ◌++◌, arith, ◌==◌, ==_refl, ==_iff, if◌then◌else◌, ltb, bit_or, tally,
  tally-append, Bool-cases,
}
use mathlib.Core.Path.{subst}
use native.Mathlib.Decide.{dec_lt}
use osnt_plus.Prelude.Int.{ℤ, pos, negsuc, is_pos, is_positive, is_negative}
use osnt_plus.Net.{ntohl}
use osnt_plus.State.{LocalIpFilterEntry, RouterState, RegWrite}
use osnt_plus.RTable.Hardware.Rows.{Device, Distinct, run_device, run_device-write_reg}
use osnt_plus.Bubble.Laws.{tally-sort}
use osnt_plus.Filters.{
  write_filter, filters_loop, is_filtered, new_filter, IsStrcmp, is_named, misplaced,
  trigger_local_ip_filters_change, add_local_ip_filter,
}

||_left : (a b : Bool) → (a || b) ≡ false → a ≡ false
||_left a b h = ground arith

||-cases : (a b : Bool) → (a || b) ≡ true → (a ≡ true) ⊎ (b ≡ true)
||-cases true b h = inl refl
||-cases false b h = inr h

abbrev pub for_ip : ℕ → LocalIpFilterEntry → Bool
for_ip ip entry = entry.ip == ip

-- No address has two filters.
abbrev pub IsOnce : List LocalIpFilterEntry → Type 0
IsOnce l = (ip : ℕ) → tally (for_ip ip) l ≤ 1

is_filtered-absent :
    (l : List LocalIpFilterEntry) (ip : ℕ) → is_filtered l ip ≡ false → tally (for_ip ip) l ≡ 0
unfolding is_filtered
is_filtered-absent [] ip h = refl
is_filtered-absent (entry ∷ n) ip h = ground (arith, is_filtered-absent n ip)

is_filtered-present :
    (l : List LocalIpFilterEntry) (ip : ℕ) → 0 < tally (for_ip ip) l → is_filtered l ip ≡ true
unfolding is_filtered
is_filtered-present [] ip h = absurd (omega arith)
is_filtered-present (entry ∷ n) ip h = ground (arith, is_filtered-present n ip)

-- What an empty slot, or the filter in it, has in its row.
unfoldable pub filter_row : List LocalIpFilterEntry → ℕ → ℕ
filter_row [] k = 0
filter_row (entry ∷ n) zero = ntohl entry.ip
filter_row (entry ∷ n) (suc k) = filter_row n k

filter_row_later :
    (entry : LocalIpFilterEntry) (n : List LocalIpFilterEntry) (i j : ℕ)
    → i < j
    → filter_row (entry ∷ n) (j - i) ≡ filter_row n (j - (i + 1))
unfolding filter_row
filter_row_later entry n i j h =
    let e : j - i ≡ suc (j - (i + 1)) = omega arith in rw (e, filter_row) refl

lt-cases : (j i : ℕ) → (j < i) ⊎ ((j ≡ i) ⊎ (i < j))
lt-cases j i = elim (dec_lt j i) [
  | yes h ↦ inl h
  | no h ↦ elim (dec_lt i j) [ yes k ↦ inr (inr k) | no k ↦ inr (inl (omega arith)) ]
]

abbrev pub low_after : List RegWrite → Device → ℕ → ℕ
low_after ws d k = ((run_device ws d).rows k).port

low-write_filter :
    (address i k ip : ℕ) (ws : List RegWrite) (d : Device)
    → ((run_device (write_filter address i ip ws) d).rows k).port
      ≡ (if k == bit_or address i then ip else ((run_device ws d).rows k).port)
unfolding write_filter
low-write_filter address i k ip ws d = elim (Bool-cases (k == bit_or address i)) [
  | inl e ↦ simp (run_device-write_reg, e)
  | inr e ↦ simp (run_device-write_reg, e)
]

from_start :
    (k x : ℕ) (l : List LocalIpFilterEntry)
    → (if ltb k 0 then x else filter_row l (k - 0)) ≡ filter_row l k
from_start k x l =
    let e : ltb k 0 ≡ false = ground arith in let z : k - 0 ≡ k = omega arith in rw (e, z) refl

module _ (width address : ℕ) (apart : Distinct width address) (d : Device) where
  -- A round: the row that it writes, those before it, and those to come.
  round :
      (i ip j : ℕ) (cur n : List LocalIpFilterEntry) (log : List RegWrite)
      → i < width
      → j < width
      → filter_row cur 0 ≡ ip
      → (i < j → filter_row cur (j - i) ≡ filter_row n (j - (i + 1)))
      → (if ltb j (i + 1)
          then low_after (write_filter address i ip log) d (bit_or address j)
          else filter_row n (j - (i + 1)))
        ≡ (if ltb j i then low_after log d (bit_or address j) else filter_row cur (j - i))
  round i ip j cur n log hi hj first later = elim (lt-cases j i) [
    | inl before ↦
        let other : (bit_or address j == bit_or address i) ≡ false = ground (arith, apart j i) in
        let e : ltb j (i + 1) ≡ true = ground arith in
        let f : ltb j i ≡ true = ground arith in rw (e, f, low-write_filter, other) refl
    | inr (inl same) ↦
        let e : ltb j (i + 1) ≡ true = ground arith in
        let f : ltb j i ≡ false = ground arith in
        let z : j - i ≡ 0 = omega arith in rw (e, f, z, low-write_filter, same, ==_refl) (sym first)
    | inr (inr after) ↦
        let e : ltb j (i + 1) ≡ false = ground arith in
        let f : ltb j i ≡ false = ground arith in rw (e, f) (sym (later after))
  ]

  low-filters_loop :
      (rounds i : ℕ) (cur : List LocalIpFilterEntry) (log : List RegWrite) (j : ℕ)
      → i + rounds ≡ width
      → j < width
      → low_after (filters_loop address rounds i cur log) d (bit_or address j)
        ≡ (if ltb j i then low_after log d (bit_or address j) else filter_row cur (j - i))
  unfolding filters_loop filter_row
  low-filters_loop zero i cur log j all h = let e : ltb j i ≡ true = ground arith in rw e refl
  low-filters_loop (suc rounds) i [] log j all h =
      low-filters_loop rounds (i + 1) [] (write_filter address i 0 log) j (omega arith) h
      ∙ round i 0 j [] [] log (omega arith) h refl (λ _. refl)
  low-filters_loop (suc rounds) i (entry ∷ n) log j all h =
      low-filters_loop rounds (i + 1) n (write_filter address i (ntohl entry.ip) log) j
        (omega arith) h
      ∙ round i (ntohl entry.ip) j (entry ∷ n) n log (omega arith) h refl
          (filter_row_later entry n i j)

module _ (strcmp : List ℕ → List ℕ → ℤ) (width address : ℕ) where
  refused :
      (rs : RouterState) (ip : ℕ) (name : List ℕ)
      → (is_filtered rs.local_ip_filter_list ip || is_named strcmp rs.local_ip_filter_list name)
        ≡ true
      → add_local_ip_filter strcmp width address rs ip name ≡ (rs, 1)
  unfolding add_local_ip_filter
  refused rs ip name t = rw t refl

  -- Where there is a device, the rows of the CAM have different addresses and a filter was added,
  -- row `k` of the device holds the address of the `k`-th filter in host order, or zero where there
  -- are fewer.
  pub add_local_ip_filter-rows :
      (rs : RouterState) (ip : ℕ) (name : List ℕ) (d : Device) (k : ℕ)
      → Distinct width address
      → rs.is_netfpga ≡ true
      → (add_local_ip_filter strcmp width address rs ip name).1 ≡ 0
      → k < width
      → low_after
          (add_local_ip_filter strcmp width address rs ip name).0.writes
          d
          (bit_or address k)
        ≡ filter_row (add_local_ip_filter strcmp width address rs ip name).0.local_ip_filter_list k
  unfolding add_local_ip_filter trigger_local_ip_filters_change
  add_local_ip_filter-rows rs ip name d k apart device done h =
      elim (Bool-cases
        (is_filtered rs.local_ip_filter_list ip || is_named strcmp rs.local_ip_filter_list name)) [
          | inl t ↦ absurd (ground (arith, refused rs ip name t, done))
          | inr fresh ↦
              rw (fresh, device)
                (low-filters_loop width address apart d width 0 _ rs.writes k (omega arith) h
                  ∙ from_start k _ _)
        ]

module _ (strcmp : List ℕ → List ℕ → ℤ) (is_strcmp : IsStrcmp strcmp) (width address : ℕ) where
  misplaced_asymm :
      (a b : LocalIpFilterEntry) → misplaced strcmp a b ≡ true → misplaced strcmp b a ≡ false
  unfolding misplaced
  misplaced_asymm a b h =
      turned (strcmp a.name b.name) (strcmp b.name a.name) (is_strcmp.turn b.name a.name) h
    where
      turned : (x y : ℤ) → is_positive y ≡ is_negative x → is_pos 1 x ≡ true → is_pos 1 y ≡ false
      turned (pos n) (pos k) t h = ground arith
      turned (pos n) (negsuc k) t h = refl
      turned (negsuc n) y t h = cc

  tally-trigger :
      (p : LocalIpFilterEntry → Bool) (rs : RouterState)
      → tally p (trigger_local_ip_filters_change strcmp width address rs).local_ip_filter_list
        ≡ tally p rs.local_ip_filter_list
  unfolding trigger_local_ip_filters_change
  tally-trigger p rs = tally-sort (misplaced strcmp) misplaced_asymm p rs.local_ip_filter_list

  -- The filters after a filter was added.
  tally-added :
      (p : LocalIpFilterEntry → Bool) (rs : RouterState) (ip : ℕ) (name : List ℕ)
      → (is_filtered rs.local_ip_filter_list ip || is_named strcmp rs.local_ip_filter_list name)
        ≡ false
      → tally p (add_local_ip_filter strcmp width address rs ip name).0.local_ip_filter_list
        ≡ tally p rs.local_ip_filter_list + (if p (new_filter ip name) then 1 else 0)
  unfolding add_local_ip_filter
  tally-added p rs ip name fresh = rw fresh (
      tally-trigger p
        (record rs { local_ip_filter_list = rs.local_ip_filter_list ++ new_filter ip name ∷ [] })
      ∙ tally-append p rs.local_ip_filter_list (new_filter ip name ∷ [])
      ∙ (omega arith))

  IsOnce-added :
      (rs : RouterState) (ip : ℕ) (name : List ℕ) (x : ℕ)
      → tally (for_ip x) rs.local_ip_filter_list ≤ 1
      → (is_filtered rs.local_ip_filter_list ip || is_named strcmp rs.local_ip_filter_list name)
        ≡ false
      → tally
          (for_ip x)
          (add_local_ip_filter strcmp width address rs ip name).0.local_ip_filter_list
        ≤ 1
  IsOnce-added rs ip name x once fresh = elim (Bool-cases (ip == x)) [
    | inl same ↦
        let e = (==_iff ip x).0 same in
        let none_yet = is_filtered-absent rs.local_ip_filter_list ip (||_left _ _ fresh) in
        ground (
          arith,
          tally-added (for_ip x) rs ip name fresh,
          subst (λ (y : ℕ). tally (for_ip y) rs.local_ip_filter_list ≡ 0) e none_yet,
        )
    | inr other ↦ ground (arith, tally-added (for_ip x) rs ip name fresh)
  ]

  -- Where no address has two filters and `strcmp` is as the C standard says, none has two after
  -- `add_local_ip_filter`; then the address has one, unless a filter of that name was there, and
  -- there are as many filters of any kind as before or more.
  pub add_local_ip_filter_lem :
      (rs : RouterState) (ip : ℕ) (name : List ℕ)
      → IsOnce rs.local_ip_filter_list
      → IsOnce (add_local_ip_filter strcmp width address rs ip name).0.local_ip_filter_list
        × ((is_filtered
                (add_local_ip_filter strcmp width address rs ip name).0.local_ip_filter_list
                ip
              ≡ true)
            ⊎ (is_named strcmp rs.local_ip_filter_list name ≡ true))
        × ((p : LocalIpFilterEntry → Bool)
            → tally p rs.local_ip_filter_list
              ≤ tally p
                  (add_local_ip_filter strcmp width address rs ip name).0.local_ip_filter_list)
  add_local_ip_filter_lem rs ip name once =
      elim (Bool-cases
        (is_filtered rs.local_ip_filter_list ip || is_named strcmp rs.local_ip_filter_list name)) [
          | inl t ↦ rw (refused strcmp width address rs ip name t) (
            once,
            ||-cases (is_filtered rs.local_ip_filter_list ip)
                (is_named strcmp rs.local_ip_filter_list name) t,
            λ p. omega arith,
          )
          | inr fresh ↦ (
            λ x. IsOnce-added rs ip name x (once x) fresh,
            inl (
                is_filtered-present
                  (add_local_ip_filter strcmp width address rs ip name).0.local_ip_filter_list ip
                  (ground (arith, tally-added (for_ip ip) rs ip name fresh))),
            λ p. ground (arith, tally-added p rs ip name fresh),
          )
        ]
