-- ===== src/Cli/Tests.antt =====
-- Three commands, and a request that begins with two of them.
use osnt_plus.Prelude.{ℕ, ◌≡◌, ◌⊎◌, refl, none, some, List, [], ◌∷◌, ◌++◌, All}
use osnt_plus.Net.{strncmp_eq}
use osnt_plus.Cli.{CliEntry, cli_command_lpm}
use osnt_plus.Cli.Laws.{NoLonger, Longest, cli_command_lpm_lem}

-- "ip", "ip arp" and "nat"
abbrev ip : List ℕ
ip = b'i' ∷ b'p' ∷ []

abbrev ip_arp : List ℕ
ip_arp = ip ++ b' ' ∷ b'a' ∷ b'r' ∷ b'p' ∷ []

abbrev nat : List ℕ
nat = b'n' ∷ b'a' ∷ b't' ∷ []

abbrev commands : List CliEntry
commands =
    record { command = ip; handler = 1 }
    ∷ record { command = ip_arp; handler = 2 }
    ∷ record { command = nat; handler = 3 }
    ∷ []

-- "ip arp!" is for the second, "ip ar" for the first, "i" for none.
lpm_runs :
    (cli_command_lpm commands (ip_arp ++ b'!' ∷ []) ≡ some 2)
    × (cli_command_lpm commands (ip ++ b' ' ∷ b'a' ∷ b'r' ∷ []) ≡ some 1)
    × (cli_command_lpm commands (b'i' ∷ []) ≡ none)
unfolding cli_command_lpm strncmp_eq
lpm_runs = (refl, refl, refl)

lpm_example :
    ((cli_command_lpm commands ip_arp ≡ none) × All (NoLonger ip_arp 0) commands)
    ⊎ ((ce : CliEntry) × (cli_command_lpm commands ip_arp ≡ some ce.handler)
        × Longest ip_arp commands ce)
lpm_example = cli_command_lpm_lem ip_arp commands
