-- ===== src/Cli/Laws.antt =====
-- The longest match.
use osnt_plus.Prelude.{
  ℕ, ◌≤◌, ◌<◌, ◌≡◌, ◌⊎◌, refl, ap, inl, inr, true, false, none, some, List, [], ◌∷◌, ◌++◌, arith,
  ==_refl, length, length-append, Option, All, Bool-cases,
}
use osnt_plus.Net.{strncmp_eq}
use osnt_plus.Cli.{CliEntry, is_longer_match, lpm_loop, cli_command_lpm}

-- The request begins with the command.
abbrev pub Begins : List ℕ → List ℕ → Type 0
Begins command word = (rest : List ℕ) × (command ≡ word ++ rest)

-- No command that the request begins with is longer than `n`.
abbrev pub NoLonger : List ℕ → ℕ → CliEntry → Type 0
NoLonger command n ce = Begins command ce.command → length ce.command ≤ n

-- Every command that the request begins with is shorter than `n`.
abbrev pub Shorter : List ℕ → ℕ → CliEntry → Type 0
Shorter command n ce = Begins command ce.command → length ce.command < n

strncmp_eq→Begins :
    (word command : List ℕ) → strncmp_eq command word (length word) ≡ true → Begins command word
unfolding strncmp_eq
strncmp_eq→Begins [] command h = (command, refl)
strncmp_eq→Begins (x ∷ word) [] h = absurd (ground (arith, h))
strncmp_eq→Begins (x ∷ word) (y ∷ command) h =
    let (rest, e) = strncmp_eq→Begins word command (ground (arith, h)) in
    let same : y ≡ x = ground (arith, h) in (rest, rw same (ap (λ (l : List ℕ). x ∷ l) e))

strncmp_eq-append : (word rest : List ℕ) → strncmp_eq (word ++ rest) word (length word) ≡ true
unfolding strncmp_eq
strncmp_eq-append [] rest = refl
strncmp_eq-append (x ∷ word) rest = rw (==_refl x) (strncmp_eq-append word rest)

is_longer→Begins :
    (command : List ℕ) (m : ℕ) (ce : CliEntry)
    → is_longer_match command m ce ≡ true
    → Begins command ce.command × (m < length ce.command)
unfolding is_longer_match
is_longer→Begins command m ce h =
    (strncmp_eq→Begins ce.command command (ground (arith, h)), ground (arith, h))

not_longer→NoLonger :
    (command : List ℕ) (m : ℕ) (ce : CliEntry)
    → is_longer_match command m ce ≡ false
    → NoLonger command m ce
unfolding is_longer_match
not_longer→NoLonger command m ce h (rest, e) =
    let agrees : strncmp_eq command ce.command (length ce.command) ≡ true =
      rw e (strncmp_eq-append ce.command rest) in
    let fits : length ce.command ≤ length command =
      rw e (omega (arith, length-append ce.command rest)) in
    ground (arith, h, agrees, fits)

-- `ce` is the first of the longest commands of the list that the request begins with.
pub record Longest (command : List ℕ) (n : List CliEntry) (ce : CliEntry) : Type 0 where
  pub before : List CliEntry
  pub after : List CliEntry
  pub split : n ≡ before ++ ce ∷ after
  pub begins : Begins command ce.command
  pub shorter : All (Shorter command (length ce.command)) before
  pub no_longer : All (NoLonger command (length ce.command)) after

module _ (command : List ℕ) where
  abbrev Outcome : List CliEntry → ℕ → Option CliEntry → Type 0
  Outcome n m best =
      ((lpm_loop command n m best ≡ best) × All (NoLonger command m) n)
      ⊎ ((ce : CliEntry) × (lpm_loop command n m best ≡ some ce)
          × Longest command n ce
          × (m < length ce.command))

  skip :
      (e : CliEntry) (n : List CliEntry) (m : ℕ) (best : Option CliEntry)
      → is_longer_match command m e ≡ false
      → Outcome n m best
      → Outcome (e ∷ n) m best
  unfolding lpm_loop
  skip e n m best h (inl (r, all)) = inl (rw h r, (not_longer→NoLonger command m e h, all))
  skip e n m best h (inr (ce, r, l, longer)) = inr (
    ce,
    rw h r,
    record {
      before = e ∷ l.before;
      after = l.after;
      split = ap (λ (k : List CliEntry). e ∷ k) l.split;
      begins = l.begins;
      shorter = (λ b. omega (arith, not_longer→NoLonger command m e h b), l.shorter);
      no_longer = l.no_longer;
    },
    longer,
  )

  take_over :
      (e : CliEntry) (n : List CliEntry) (m : ℕ) (best : Option CliEntry)
      → is_longer_match command m e ≡ true
      → Outcome n (length e.command) (some e)
      → Outcome (e ∷ n) m best
  unfolding lpm_loop
  take_over e n m best h (inl (r, all)) =
      let (b, more) = is_longer→Begins command m e h in
      inr (
        e,
        rw h r,
        record { before = []; after = n; split = refl; begins = b; shorter = tt; no_longer = all },
        more,
      )
  take_over e n m best h (inr (ce, r, l, longer)) =
      let (b, more) = is_longer→Begins command m e h in
      inr (
        ce,
        rw h r,
        record {
          before = e ∷ l.before;
          after = l.after;
          split = ap (λ (k : List CliEntry). e ∷ k) l.split;
          begins = l.begins;
          shorter = (λ _. longer, l.shorter);
          no_longer = l.no_longer;
        },
        omega arith,
      )

  lpm_loop-Outcome : (n : List CliEntry) (m : ℕ) (best : Option CliEntry) → Outcome n m best
  unfolding lpm_loop
  lpm_loop-Outcome [] m best = inl (refl, tt)
  lpm_loop-Outcome (e ∷ n) m best = elim (Bool-cases (is_longer_match command m e)) [
    | inl h ↦ take_over e n m best h (lpm_loop-Outcome n (length e.command) (some e))
    | inr h ↦ skip e n m best h (lpm_loop-Outcome n m best)
  ]

  -- `cli_command_lpm` returns the handler of the first of the longest commands of the list that the
  -- request begins with, or a null pointer, and then the request begins with no command but empty
  -- ones.
  pub cli_command_lpm_lem :
      (cli_commands : List CliEntry)
      → ((cli_command_lpm cli_commands command ≡ none) × All (NoLonger command 0) cli_commands)
        ⊎ ((ce : CliEntry) × (cli_command_lpm cli_commands command ≡ some ce.handler)
            × Longest command cli_commands ce)
  unfolding cli_command_lpm
  cli_command_lpm_lem cli_commands = elim (lpm_loop-Outcome cli_commands 0 none) [
    | inl (r, all) ↦ inl (rw (cli_command_lpm, r) refl, all)
    | inr (ce, r, l, _) ↦ inr (ce, rw (cli_command_lpm, r) refl, l)
  ]
