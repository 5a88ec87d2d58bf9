-- ===== src/Web/Tests.antt =====
-- A client that sends "G", then an empty line and "!", and closes; a network that takes three bytes at
-- a time and fails after two calls.
use osnt_plus.Prelude.{
  ℕ, zero, suc, ◌≤◌, ◌<◌, ◌≡◌, refl, sym, some_eq, some≢none, Bool, true, Option, none, some, List,
  [], ◌∷◌, arith, length, take,
}
use osnt_plus.Prelude.Int.{pos, negsuc}
use osnt_plus.Cli.{CliEntry}
use osnt_plus.Text.{my_strncat}
use osnt_plus.Web.{
  complete, reading, contains_crlfcrlf, grown, read_loop, read_request, list_loop, list_commands,
  send_loop, send_all,
}
use osnt_plus.Web.Request.{AtMost, Ends, read_request_lem}
use osnt_plus.Web.Replies.{Sends, TakesSome, send_all_lem}

abbrev recv : ℕ → ℕ → Option (List ℕ)
recv zero len = some (take len (b'G' ∷ []))
recv (suc zero) len = some (take len (13 ∷ 10 ∷ 13 ∷ 10 ∷ b'!' ∷ []))
recv (suc (suc call)) len = some []

take_le : (n : ℕ) (l : List ℕ) → length (take n l) ≤ n
take_le zero l = omega arith
take_le (suc n) [] = omega arith
take_le (suc n) (x ∷ l) = omega (arith, take_le n l)

recv-AtMost : AtMost recv
recv-AtMost zero len bytes e = rw (sym (some_eq e)) (take_le len (b'G' ∷ []))
recv-AtMost (suc zero) len bytes e =
    rw (sym (some_eq e)) (take_le len (13 ∷ 10 ∷ 13 ∷ 10 ∷ b'!' ∷ []))
recv-AtMost (suc (suc call)) len bytes e = rw (sym (some_eq e)) (omega arith)

abbrev enough : ℕ → Bool
enough size = true

-- After one call there is no request yet, after two there is.
reads :
    (read_request recv enough 1 ≡ reading (b'G' ∷ []) 100)
    × (read_request recv enough 2 ≡ complete (b'G' ∷ 13 ∷ 10 ∷ 13 ∷ 10 ∷ b'!' ∷ []) 100)
unfolding read_request read_loop grown contains_crlfcrlf
reads = (refl, refl)

read_example : Ends 2 (read_request recv enough 2)
read_example = read_request_lem recv enough recv-AtMost 2

abbrev send : ℕ → List ℕ → Option ℕ
send zero chunk = some (length (take 3 chunk))
send (suc zero) chunk = some (length (take 3 chunk))
send (suc (suc call)) chunk = none

take_some :
    (chunk : List ℕ)
    → 0 < length chunk
    → (0 < length (take 3 chunk)) × (length (take 3 chunk) ≤ length chunk)
take_some [] h = absurd (omega arith)
take_some (a ∷ []) h = omega arith
take_some (a ∷ b ∷ []) h = omega arith
take_some (a ∷ b ∷ c ∷ chunk) h = omega arith

send-TakesSome : TakesSome send
send-TakesSome zero chunk s nonempty e = rw (sym (some_eq e)) (take_some chunk nonempty)
send-TakesSome (suc zero) chunk s nonempty e = rw (sym (some_eq e)) (take_some chunk nonempty)
send-TakesSome (suc (suc call)) chunk s nonempty e = absurd (some≢none e)

abbrev eight : List ℕ
eight = 1 ∷ 2 ∷ 3 ∷ 4 ∷ 5 ∷ 6 ∷ 7 ∷ 8 ∷ []

sends :
    (send_all send (take 6 eight) ≡ some (pos 0, take 6 eight))
    × (send_all send eight ≡ some (negsuc 0, take 6 eight))
unfolding send_all send_loop
sends = (refl, refl)

send_example : Sends [] eight (send_all send eight)
send_example = send_all_lem send send-TakesSome eight

abbrev commands : List CliEntry
commands =
    record { command = b'i' ∷ b'p' ∷ []; handler = 1 }
    ∷ record { command = b'n' ∷ b'a' ∷ b't' ∷ []; handler = 2 }
    ∷ []

-- "ip" and "nat", a line each
lists : list_commands commands ≡ some (b'i' ∷ b'p' ∷ 10 ∷ b'n' ∷ b'a' ∷ b't' ∷ 10 ∷ [], 256)
unfolding list_commands list_loop my_strncat
lists = refl
