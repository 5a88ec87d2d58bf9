-- ===== src/Cli.antt =====
-- `cli_command_lpm` of scone/or_cli.c: the handler of the longest command that the request begins
-- with. A handler is the number that stands for it.
pub mod Laws
mod Tests
use osnt_plus.Prelude.{
  ℕ, Bool, true, false, ◌&&◌, Option, none, some, List, [], ◌∷◌, ltb, leb, if◌then◌else◌, length,
}
use osnt_plus.Net.{strncmp_eq}

-- `struct cli_entry`
pub record CliEntry : Type 0 where
  pub command : List ℕ
  pub handler : ℕ

-- The body of the loop, for the locals `longest_match` and `longest_match_entry`
unfoldable pub is_longer_match : List ℕ → ℕ → CliEntry → Bool
is_longer_match command longest_match ce =
    ltb longest_match (length ce.command)
    && leb (length ce.command) (length command)
    && strncmp_eq command ce.command (length ce.command)

unfoldable pub lpm_loop : List ℕ → List CliEntry → ℕ → Option CliEntry → Option CliEntry
unfolding is_longer_match
lpm_loop command [] longest_match longest_match_entry = longest_match_entry
lpm_loop command (ce ∷ n) longest_match longest_match_entry =
    let better = is_longer_match command longest_match ce in
    lpm_loop command n (if better then length ce.command else longest_match)
      (if better then some ce else longest_match_entry)

unfoldable pub cli_command_lpm : List CliEntry → List ℕ → Option ℕ
unfolding lpm_loop
cli_command_lpm cli_commands command = elim (lpm_loop command cli_commands 0 none) [
  | none ↦ none
  | some ce ↦ some ce.handler
]
