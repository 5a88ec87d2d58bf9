-- ===== src/Web.antt =====
-- The web server of scone/or_www.c: reading a request, the list of the commands and `send_all`. What the
-- client sends and whether the network takes what is sent are the parameters `recv` and `send`, which
-- get the number of the call.
pub mod Request
pub mod Replies
mod Tests
use osnt_plus.Prelude.{
  ℕ, zero, suc, ◌+◌, ◌-◌, ◌*◌, Bool, true, false, ◌&&◌, ◌||◌, Option, none, some, List, [], ◌∷◌,
  ◌++◌, ltb, ◌==◌, if◌then◌else◌, length, take, drop,
}
use osnt_plus.Prelude.Int.{ℤ, pos, negsuc}
use osnt_plus.Text.{my_strncat}
use osnt_plus.Cli.{CliEntry}

unfoldable pub at_crlfcrlf : List ℕ → Bool
at_crlfcrlf [] = false
at_crlfcrlf (a ∷ []) = false
at_crlfcrlf (a ∷ b ∷ []) = false
at_crlfcrlf (a ∷ b ∷ c ∷ []) = false
at_crlfcrlf (a ∷ b ∷ c ∷ d ∷ buf) = a == 13 && b == 10 && c == 13 && d == 10

unfoldable pub contains_crlfcrlf : List ℕ → Bool
unfolding at_crlfcrlf
contains_crlfcrlf [] = false
contains_crlfcrlf (b ∷ buf) = at_crlfcrlf (b ∷ buf) || contains_crlfcrlf buf

-- How the reading of a request ends: with the request in a buffer of `size` bytes, with the connection
-- closed, without memory, or, where the calls of `recv` are counted out, not yet.
pub data Read : Type 0 where
  complete : (buf : List ℕ) (size : ℕ) → Read
  closed : Read
  out_of_memory : Read
  reading : (buf : List ℕ) (size : ℕ) → Read

-- The size of a full buffer is doubled. It is an `int`, and a size that does not fit is one that
-- `calloc` does not have.
unfoldable pub grown : (ℕ → Bool) → List ℕ → ℕ → Option ℕ
grown calloc buf size =
    if length buf == size
    then if ltb (size * 2) 2147483648 && calloc (size * 2) then some (size * 2) else none
    else some size

-- The `while` of `service_request`. `recv` gets the length that is asked for and returns none for -1,
-- and no bytes for 0.
unfoldable pub read_loop : (ℕ → ℕ → Option (List ℕ)) → (ℕ → Bool) → ℕ → ℕ → List ℕ → ℕ → Read
read_loop recv calloc zero call buf size = reading buf size
read_loop recv calloc (suc fuel) call buf size = elim (recv call (size - length buf)) [
  | none ↦ closed
  | some bytes ↦
      if length bytes == 0
      then if contains_crlfcrlf buf then complete buf size else closed
      else elim (grown calloc (buf ++ bytes) size) [
        | none ↦ out_of_memory
        | some size' ↦
            let rest = read_loop recv calloc fuel (suc call) (buf ++ bytes) size' in
            if contains_crlfcrlf (buf ++ bytes) then complete (buf ++ bytes) size' else rest
      ]
]

-- The reading of `service_request`, with at most `fuel` calls of `recv`
unfoldable pub read_request : (ℕ → ℕ → Option (List ℕ)) → (ℕ → Bool) → ℕ → Read
unfolding read_loop
read_request recv calloc fuel = read_loop recv calloc fuel 0 [] 100

unfoldable pub list_loop : List CliEntry → List ℕ → ℕ → Option (List ℕ × ℕ)
list_loop [] msg alloc_size = some (msg, alloc_size)
list_loop (entry ∷ cur) msg alloc_size = elim (my_strncat msg entry.command alloc_size) [
  | none ↦ none
  | some one ↦ elim (my_strncat one.0 (10 ∷ []) one.1) [
    | none ↦ none
    | some two ↦ list_loop cur two.0 two.1
  ]
]

unfoldable pub list_commands : List CliEntry → Option (List ℕ × ℕ)
unfolding list_loop
list_commands cli_commands = list_loop cli_commands [] 256

-- The `while` of `send_all`, for what is left of the message and what was sent. `send` returns none for
-- a negative number.
unfoldable pub send_loop : (ℕ → List ℕ → Option ℕ) → ℕ → ℕ → List ℕ → List ℕ → Option (ℤ × List ℕ)
send_loop send zero call ptr sent = none
send_loop send (suc fuel) call [] sent = some (pos 0, sent)
send_loop send (suc fuel) call (c ∷ ptr) sent = elim (send call (take 8400 (c ∷ ptr))) [
  | none ↦ some (negsuc 0, sent)
  | some s ↦
      send_loop send fuel (suc call) (drop s (c ∷ ptr)) (sent ++ take s (take 8400 (c ∷ ptr)))
]

-- `send_all`: what it returns and what was sent
unfoldable pub send_all : (ℕ → List ℕ → Option ℕ) → List ℕ → Option (ℤ × List ℕ)
unfolding send_loop
send_all send msg = send_loop send (length msg + 1) 0 msg []
