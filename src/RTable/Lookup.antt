-- ===== src/RTable/Lookup.antt =====
-- `get_next_hop` is the longest prefix match, for every table.
use osnt_plus.Prelude.{
  ℕ, ◌≤◌, ◌<◌, ◌≡◌, refl, ap, ◌⊎◌, inl, inr, Bool, true, false, ◌&&◌, Option, none, some, List, [],
  ◌∷◌, ◌++◌, arith, ltb→lt, if◌then◌else◌, All, All-imp, Bool-cases, ◌==◌,
}
use osnt_plus.Net.{strncpy}
use osnt_plus.State.{RtableEntry}
use osnt_plus.RTable.{bits_of, covers, Best, exceeds, improve, lookup_loop, hop_of, get_next_hop}

-- The entry is active and agrees with the destination under its mask.
abbrev pub matches : ℕ → RtableEntry → Bool
matches destination re = re.is_active && covers re destination

-- `re` is the first of the entries of `rtable` that match with the most mask bits.
pub record LongestMatch (destination : ℕ) (rtable : List RtableEntry) (re : RtableEntry)
    : Type 0 where
  pub before : List RtableEntry
  pub after : List RtableEntry
  pub split : rtable ≡ before ++ re ∷ after
  pub matched : matches destination re ≡ true
  pub longer : All (λ e. matches destination e ≡ true → bits_of e < bits_of re) before
  pub longest : All (λ e. matches destination e ≡ true → bits_of e ≤ bits_of re) after

exceeds_gap : (a b : ℕ) (m : Option ℕ) → exceeds a m ≡ false → exceeds b m ≡ true → a < b
exceeds_gap a b none h k = cc
exceeds_gap a b (some m) h k = ground arith

exceeds_mono :
    (a b : ℕ) (m : Option ℕ) → exceeds a m ≡ true → exceeds b (some a) ≡ true → exceeds b m ≡ true
exceeds_mono a b none h k = refl
exceeds_mono a b (some m) h k = ground arith

not_exceeds-some : (a m : ℕ) → exceeds a (some m) ≡ false → a ≤ m
not_exceeds-some a m h = ground arith

module _ (destination : ℕ) where
  -- No entry of the list would replace the best one so far.
  abbrev Keeps : Option ℕ → RtableEntry → Type 0
  Keeps most e = matches destination e ≡ true → exceeds (bits_of e) most ≡ false

  record Found (best : Best) (n : List RtableEntry) : Type 0 where
    re : RtableEntry
    here : LongestMatch destination n re
    better : exceeds (bits_of re) best.most_bits_matched ≡ true
    result :
        lookup_loop destination n best
        ≡ record { lpm = some re; most_bits_matched = some (bits_of re) }

  abbrev Outcome : Best → List RtableEntry → Type 0
  Outcome best n =
      ((lookup_loop destination n best ≡ best) × All (Keeps best.most_bits_matched) n)
      ⊎ Found best n

  skip :
      (best : Best) (e : RtableEntry) (n : List RtableEntry)
      → improve destination e best ≡ best
      → Keeps best.most_bits_matched e
      → Outcome best n
      → Outcome best (e ∷ n)
  unfolding lookup_loop
  skip best e n same keep (inl (r, all)) = inl (rw same r, (keep, all))
  skip best e n same keep (inr f) = inr (record {
    re = f.re;
    here = record {
      before = e ∷ f.here.before;
      after = f.here.after;
      split = ap (◌∷◌ e) f.here.split;
      matched = f.here.matched;
      longer = (
        λ m. exceeds_gap (bits_of e) (bits_of f.re) best.most_bits_matched (keep m) f.better,
        f.here.longer,
      );
      longest = f.here.longest;
    };
    better = f.better;
    result = rw same f.result;
  })

  -- the best one after an entry that replaces the one before
  abbrev pub held : RtableEntry → Best
  held e = record { lpm = some e; most_bits_matched = some (bits_of e) }

  -- What the loop does with the rest after an improvement.
  take_over :
      (best : Best) (e : RtableEntry) (n : List RtableEntry)
      → improve destination e best ≡ held e
      → matches destination e ≡ true
      → exceeds (bits_of e) best.most_bits_matched ≡ true
      → Outcome (held e) n
      → Found best (e ∷ n)
  unfolding lookup_loop
  take_over best e n step m better (inl (r, all)) = record {
    re = e;
    here = record {
      before = [];
      after = n;
      split = refl;
      matched = m;
      longer = tt;
      longest = All-imp _ _ n (λ x k mx. not_exceeds-some (bits_of x) (bits_of e) (k mx)) all;
    };
    better = better;
    result = rw step r;
  }
  take_over best e n step m better (inr f) = record {
    re = f.re;
    here = record {
      before = e ∷ f.here.before;
      after = f.here.after;
      split = ap (◌∷◌ e) f.here.split;
      matched = f.here.matched;
      longer = (λ _. ltb→lt (bits_of e) (bits_of f.re) f.better, f.here.longer);
      longest = f.here.longest;
    };
    better = exceeds_mono (bits_of e) (bits_of f.re) best.most_bits_matched better f.better;
    result = rw step f.result;
  }

  pub improve_yes :
      (best : Best) (e : RtableEntry)
      → matches destination e ≡ true
      → exceeds (bits_of e) best.most_bits_matched ≡ true
      → improve destination e best ≡ held e
  unfolding improve
  improve_yes best e m x = rw (m, x)

  pub improve_no :
      (best : Best) (e : RtableEntry)
      → (matches destination e && exceeds (bits_of e) best.most_bits_matched) ≡ false
      → improve destination e best ≡ best
  unfolding improve
  improve_no best e h = rw h

  lookup_loop-Outcome : (n : List RtableEntry) (best : Best) → Outcome best n
  unfolding lookup_loop
  lookup_loop-Outcome [] best = inl (refl, tt)
  lookup_loop-Outcome (e ∷ n) best = elim (Bool-cases (matches destination e)) [
    | inr no_match ↦
        skip best e n (improve_no best e (rw no_match)) (λ m. cc) (lookup_loop-Outcome n best)
    | inl m ↦ elim (Bool-cases (exceeds (bits_of e) best.most_bits_matched)) [
      | inl x ↦
          inr (take_over best e n (improve_yes best e m x) m x (lookup_loop-Outcome n (held e)))
      | inr x ↦ skip best e n (improve_no best e (rw (m, x))) (λ _. x) (lookup_loop-Outcome n best)
    ]
  ]

Keeps-none :
    (destination : ℕ) (e : RtableEntry) → Keeps destination none e → matches destination e ≡ false
Keeps-none destination e k = elim (Bool-cases (matches destination e)) [
  | inl m ↦ absurd (true_ne_false (k m))
  | inr no_match ↦ no_match
]
  where
    true_ne_false : true ≡ false → ⊥
    true_ne_false e = cc

-- the first state of the loop
abbrev pub nothing : Best
nothing = record { lpm = none; most_bits_matched = none }

-- What `get_next_hop` gives for an entry: its gateway, or the destination itself where the gateway
-- is 0.0.0.0, and the interface's name cut to `len` bytes.
abbrev pub hop : ℕ → ℕ → RtableEntry → ℕ × List ℕ
hop len destination re = (if re.gw == 0 then destination else re.gw, strncpy re.iface len)

-- `get_next_hop` returns the hop of the first of the longest matches among the active entries, or
-- no hop, and then no active entry matches.
pub get_next_hop_lem :
    (len : ℕ) (rtable : List RtableEntry) (destination : ℕ)
    → ((get_next_hop len rtable destination ≡ none)
        × All (λ e. matches destination e ≡ false) rtable)
      ⊎ ((re : RtableEntry) × LongestMatch destination rtable re
          × (get_next_hop len rtable destination ≡ some (hop len destination re)))
unfolding get_next_hop hop_of
get_next_hop_lem len rtable destination = go (lookup_loop-Outcome destination rtable nothing)
  where
    go :
        Outcome destination nothing rtable
        → ((get_next_hop len rtable destination ≡ none)
            × All (λ e. matches destination e ≡ false) rtable)
          ⊎ ((re : RtableEntry) × LongestMatch destination rtable re
              × (get_next_hop len rtable destination ≡ some (hop len destination re)))
    go (inl (r, all)) = inl (rw r refl, All-imp _ _ rtable (λ e k. Keeps-none destination e k) all)
    go (inr f) = inr (f.re, f.here, rw f.result refl)
