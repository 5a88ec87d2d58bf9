-- ===== src/Web/Replies.antt =====
-- The list of the commands, and `send_all`.
use osnt_plus.Prelude.{
  ℕ, zero, suc, ◌+◌, ◌≤◌, ◌<◌, ◌≡◌, ◌⊎◌, refl, sym, ap, ◌∙◌, inl, inr, Option, some, List, [], ◌∷◌,
  ◌++◌, arith, length, length-append, take, drop, Option-cases,
}
use mathlib.Core.List.{append-nil, append_assoc}
use osnt_plus.Prelude.Int.{ℤ, pos, negsuc}
use osnt_plus.Text.Laws.{my_strncat_lem}
use osnt_plus.Cli.{CliEntry}
use osnt_plus.Web.{list_loop, list_commands, send_loop, send_all}

module _ {ℓ} {A : Type ℓ} where
  take-drop : (n : ℕ) (l : List A) → l ≡ take n l ++ drop n l
  take-drop zero l = refl
  take-drop (suc n) [] = refl
  take-drop (suc n) (x ∷ l) = ap (λ (k : List A). x ∷ k) (take-drop n l)

  take-take : (n m : ℕ) (l : List A) → n ≤ length (take m l) → take n (take m l) ≡ take n l
  take-take zero m l h = refl
  take-take (suc n) zero l h = absurd (omega arith)
  take-take (suc n) (suc m) [] h = refl
  take-take (suc n) (suc m) (x ∷ l) h = ap (λ (k : List A). x ∷ k) (take-take n m l (omega arith))

  length-take : (n : ℕ) (l : List A) → n ≤ length l → length (take n l) ≡ n
  length-take zero l h = refl
  length-take (suc n) [] h = absurd (omega arith)
  length-take (suc n) (x ∷ l) h = ap suc (length-take n l (omega arith))

  length-take_le : (n : ℕ) (l : List A) → length (take n l) ≤ length l
  length-take_le zero l = omega arith
  length-take_le (suc n) [] = omega arith
  length-take_le (suc n) (x ∷ l) = omega (arith, length-take_le n l)

-- Where `send` does not fail, it takes some of what it is given.
abbrev pub TakesSome : (ℕ → List ℕ → Option ℕ) → Type 0
TakesSome send =
    (call : ℕ) (chunk : List ℕ) (s : ℕ)
    → 0 < length chunk
    → send call chunk ≡ some s
    → (0 < s) × (s ≤ length chunk)

-- `result` is that of sending `msg` after `sent`: all of it was sent, or a part and `send` failed.
abbrev pub Sends : List ℕ → List ℕ → Option (ℤ × List ℕ) → Type 0
Sends sent msg result =
    (result ≡ some (pos 0, sent ++ msg))
    ⊎ ((part rest : List ℕ) × (msg ≡ part ++ rest)
        × (0 < length rest)
        × (result ≡ some (negsuc 0, sent ++ part)))

Sends-append :
    (sent now msg all : List ℕ) (result : Option (ℤ × List ℕ))
    → all ≡ now ++ msg
    → Sends (sent ++ now) msg result
    → Sends sent all result
Sends-append sent now msg all result whole (inl e) =
    let joined : sent ++ now ++ msg ≡ sent ++ all =
      append_assoc sent now msg ∙ ap (λ (l : List ℕ). sent ++ l) (sym whole) in
    inl (e ∙ ap (λ (l : List ℕ). some (pos 0, l)) joined)
Sends-append sent now msg all result whole (inr (part, rest, split, more, e)) = inr (
  now ++ part,
  rest,
  whole ∙ ap (λ (l : List ℕ). now ++ l) split ∙ sym (append_assoc now part rest),
  more,
  e ∙ ap (λ (l : List ℕ). some (negsuc 0, l)) (append_assoc sent now part),
)

module _ (send : ℕ → List ℕ → Option ℕ) (takes_some : TakesSome send) where
  send_loop-Sends :
      (fuel call : ℕ) (msg sent : List ℕ)
      → length msg < fuel
      → Sends sent msg (send_loop send fuel call msg sent)
  unfolding send_loop
  send_loop-Sends zero call msg sent lt = absurd (omega arith)
  send_loop-Sends (suc fuel) call [] sent lt =
      inl (ap (λ (l : List ℕ). some (pos 0, l)) (sym (append-nil sent)))
  send_loop-Sends (suc fuel) call (c ∷ ptr) sent lt =
      elim (Option-cases (send call (take 8400 (c ∷ ptr)))) [
        | inl failed ↦ inr (
          [],
          c ∷ ptr,
          refl,
          omega arith,
          rw (send_loop, failed) (ap (λ (l : List ℕ). some (negsuc 0, l)) (sym (append-nil sent))),
        )
        | inr (s, e) ↦
            let again =
              send_loop-Sends fuel (suc call) (drop s (c ∷ ptr)) (sent ++ take s (c ∷ ptr)) in
            rw (send_loop, e) (sent_some s e again)
      ]
    where
      sent_some :
          (s : ℕ)
          → send call (take 8400 (c ∷ ptr)) ≡ some s
          → (length (drop s (c ∷ ptr)) < fuel
              → Sends
                  (sent ++ take s (c ∷ ptr))
                  (drop s (c ∷ ptr))
                  (send_loop send fuel (suc call) (drop s (c ∷ ptr)) (sent ++ take s (c ∷ ptr))))
          → Sends sent (c ∷ ptr) (
              send_loop send fuel
                (suc call)
                (drop s (c ∷ ptr))
                (sent ++ take s (take 8400 (c ∷ ptr))))
      sent_some s e again =
          let msg = c ∷ ptr in
          let (some_s, le) = takes_some call (take 8400 msg) s (omega arith) e in
          let split = take-drop s msg in
          let size = length-append (take s msg) (drop s msg) in
          let whole : length msg ≡ length (take s msg ++ drop s msg) = ap length split in
          let taken = length-take s msg (omega (arith, le, length-take_le 8400 msg)) in
          rw (take-take s 8400 msg le) (
            Sends-append sent (take s msg) (drop s msg) msg _ split
              (again (omega (arith, lt, some_s, size, whole, taken))))

  -- Where `send`, given some bytes, takes some of them or fails, `send_all` ends: it returns 0 and
  -- the message was sent, or it returns -1 and a part was sent that is not the whole.
  pub send_all_lem : (msg : List ℕ) → Sends [] msg (send_all send msg)
  unfolding send_all
  send_all_lem msg = send_loop-Sends (length msg + 1) 0 msg [] (omega arith)

-- What is listed: each command on a line of its own
abbrev pub lines : List CliEntry → List ℕ
lines [] = []
lines (entry ∷ cur) = entry.command ++ 10 ∷ lines cur

list_loop_lem :
    (cur : List CliEntry) (msg : List ℕ) (alloc_size : ℕ)
    → 0 < alloc_size
    → length msg + length (lines cur) + 1 ≤ 1073741824
    → length msg + 1 ≤ alloc_size
    → (size : ℕ) × (list_loop cur msg alloc_size ≡ some (msg ++ lines cur, size))
      × (length (msg ++ lines cur) + 1 ≤ size)
unfolding list_loop
list_loop_lem [] msg alloc_size nonempty int fits =
    (alloc_size, rw append-nil refl, rw append-nil fits)
list_loop_lem (entry ∷ cur) msg alloc_size nonempty int fits =
    let n = length-append entry.command (10 ∷ lines cur) in
    let n1 = length-append msg entry.command in
    let (size1, e1, fits1, _) =
      my_strncat_lem msg entry.command alloc_size nonempty (omega (arith, n, int)) in
    let (size2, e2, fits2, _) =
      my_strncat_lem (msg ++ entry.command) (10 ∷ []) size1 (omega (arith, fits1))
        (omega (arith, n, n1, int)) in
    let n2 = length-append (msg ++ entry.command) (10 ∷ []) in
    let (size, e, fits') =
      list_loop_lem cur (msg ++ entry.command ++ 10 ∷ []) size2 (omega (arith, fits2))
        (omega (arith, n, n1, n2, int)) fits2 in
    let joined =
      append_assoc (msg ++ entry.command) (10 ∷ []) (lines cur)
      ∙ append_assoc msg entry.command (10 ∷ lines cur) in
    (
      size,
      rw (list_loop, e1, e2) (e ∙ ap (λ (l : List ℕ). some (l, size)) joined),
      omega (arith, ap length joined, fits'),
    )

-- Where the list is of at most 2 ^ 30 bytes with the NUL, `list_commands` ends and returns the commands,
-- each on a line of its own, in a buffer that holds them with the NUL.
pub list_commands_lem :
    (cli_commands : List CliEntry)
    → length (lines cli_commands) + 1 ≤ 1073741824
    → (size : ℕ) × (list_commands cli_commands ≡ some (lines cli_commands, size))
      × (length (lines cli_commands) + 1 ≤ size)
unfolding list_commands
list_commands_lem cli_commands int =
    list_loop_lem cli_commands [] 256 (omega arith) (omega arith) (omega arith)
