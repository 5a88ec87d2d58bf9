-- ===== src/Web/Request.antt =====
-- The reading of a request.
use osnt_plus.Prelude.{
  ℕ, zero, suc, ◌+◌, ◌-◌, ◌*◌, ◌≤◌, ◌<◌, ◌≡◌, ◌⊎◌, refl, ap, inl, inr, Bool, true, false, Option,
  some, List, [], ◌∷◌, ◌++◌, arith, ◌==◌, ==_iff, length, length-append, Bool-cases, Option-cases,
}
use osnt_plus.Web.{
  at_crlfcrlf, contains_crlfcrlf, Read, complete, closed, out_of_memory, reading, grown, read_loop,
  read_request,
}

-- The bytes hold an empty line.
abbrev pub HasEnd : List ℕ → Type 0
HasEnd buf = (before after : List ℕ) × (buf ≡ before ++ 13 ∷ 10 ∷ 13 ∷ 10 ∷ after)

at→HasEnd : (buf : List ℕ) → at_crlfcrlf buf ≡ true → HasEnd buf
unfolding at_crlfcrlf
at→HasEnd [] h = absurd (ground (arith, h))
at→HasEnd (a ∷ []) h = absurd (ground (arith, h))
at→HasEnd (a ∷ b ∷ []) h = absurd (ground (arith, h))
at→HasEnd (a ∷ b ∷ c ∷ []) h = absurd (ground (arith, h))
at→HasEnd (a ∷ b ∷ c ∷ d ∷ buf) h =
    let ea : a ≡ 13 = ground (arith, h) in
    let eb : b ≡ 10 = ground (arith, h) in
    let ec : c ≡ 13 = ground (arith, h) in
    let ed : d ≡ 10 = ground (arith, h) in ([], buf, rw (ea, eb, ec, ed) refl)

contains→HasEnd : (buf : List ℕ) → contains_crlfcrlf buf ≡ true → HasEnd buf
unfolding contains_crlfcrlf
contains→HasEnd [] h = absurd (ground (arith, h))
contains→HasEnd (b ∷ buf) h = elim (Bool-cases (at_crlfcrlf (b ∷ buf))) [
  | inl here ↦ at→HasEnd (b ∷ buf) here
  | inr not_here ↦
      let (before, after, e) = contains→HasEnd buf (ground (arith, h, not_here)) in
      (b ∷ before, after, ap (λ (l : List ℕ). b ∷ l) e)
]

contains-append :
    (before after : List ℕ) → contains_crlfcrlf (before ++ 13 ∷ 10 ∷ 13 ∷ 10 ∷ after) ≡ true
unfolding contains_crlfcrlf at_crlfcrlf
contains-append [] after = refl
contains-append (b ∷ before) after =
    let rest = contains-append before after in
    elim (Bool-cases (at_crlfcrlf (b ∷ before ++ 13 ∷ 10 ∷ 13 ∷ 10 ∷ after))) [
      | inl here ↦ rw here refl
      | inr not_here ↦ rw (not_here, rest) refl
    ]

not_contains→no_end : (buf : List ℕ) → contains_crlfcrlf buf ≡ false → ¬ (HasEnd buf)
not_contains→no_end buf h (before, after, e) =
    let found : contains_crlfcrlf buf ≡ true = rw e (contains-append before after) in
    ground (arith, h, found)

-- A buffer of `size` bytes with room after the bytes in it, and of no more than 100 or twice as many.
abbrev pub Fits : List ℕ → ℕ → Type 0
Fits buf size = (length buf < size) × ((size ≡ 100) ⊎ (size ≤ 2 * length buf))

-- What holds of the reading after `calls` calls of `recv`
pub data Ends (calls : ℕ) : Read → Type 0 where
  ends_complete :
      {buf : List ℕ} {size : ℕ} → HasEnd buf → Fits buf size → Ends calls (complete buf size)
  ends_closed : Ends calls closed
  ends_memory : Ends calls out_of_memory
  ends_reading :
      {buf : List ℕ} {size : ℕ}
      → ¬ (HasEnd buf)
      → Fits buf size
      → calls ≤ length buf
      → Ends calls (reading buf size)

grown-Fits :
    (calloc : ℕ → Bool) (buf : List ℕ) (size size' : ℕ)
    → 0 < size
    → length buf ≤ size
    → (size ≡ 100) ⊎ (size ≤ 2 * length buf)
    → grown calloc buf size ≡ some size'
    → Fits buf size'
unfolding grown
grown-Fits calloc buf size size' nonempty le tight e = elim (Bool-cases (length buf == size)) [
  | inl full ↦
      let n = (==_iff (length buf) size).0 full in
      let doubled : size' ≡ size * 2 = ground (arith, e, full) in
      (omega (arith, n, doubled), inr (omega (arith, n, doubled)))
  | inr room ↦
      let same : size' ≡ size = ground (arith, e, room) in
      let ne : length buf < size = ground (arith, le, room) in
      (omega (arith, ne, same), rw same tight)
]

-- `recv` returns at most as many bytes as it was asked for.
abbrev pub AtMost : (ℕ → ℕ → Option (List ℕ)) → Type 0
AtMost recv = (call len : ℕ) (bytes : List ℕ) → recv call len ≡ some bytes → length bytes ≤ len

module _ (recv : ℕ → ℕ → Option (List ℕ)) (calloc : ℕ → Bool) (at_most : AtMost recv) where
  read_loop-Ends :
      (fuel call calls : ℕ) (buf : List ℕ) (size : ℕ)
      → contains_crlfcrlf buf ≡ false
      → Fits buf size
      → calls ≤ fuel + length buf
      → Ends calls (read_loop recv calloc fuel call buf size)
  unfolding read_loop
  read_loop-Ends zero call calls buf size no_end fits le =
      ends_reading (not_contains→no_end buf no_end) fits (omega arith)
  read_loop-Ends (suc fuel) call calls buf size no_end fits le =
      elim (Option-cases (recv call (size - length buf))) [
        | inl failed ↦ rw (read_loop, failed) ends_closed
        | inr (bytes, got) ↦
            let bound = at_most call (size - length buf) bytes got in
            elim (Bool-cases (length bytes == 0)) [
              | inl nothing ↦ rw (read_loop, got, nothing, no_end) ends_closed
              | inr more ↦
                  let nonempty : 0 < length bytes = ground (arith, more) in
                  elim (Option-cases (grown calloc (buf ++ bytes) size)) [
                    | inl no_memory ↦ rw (read_loop, got, more, no_memory) ends_memory
                    | inr (size', e) ↦
                        let n = length-append buf bytes in
                        let fits' =
                          grown-Fits calloc (buf ++ bytes) size size' (omega (arith, fits.0))
                            (omega (arith, n, bound, fits.0)) (kept bytes n nonempty fits.1) e in
                        elim (Bool-cases (contains_crlfcrlf (buf ++ bytes))) [
                          | inl found ↦
                              rw (read_loop, got, more, e, found)
                                (ends_complete (contains→HasEnd (buf ++ bytes) found) fits')
                          | inr not_found ↦
                              rw (read_loop, got, more, e, not_found)
                                (read_loop-Ends fuel (suc call) calls (buf ++ bytes) size' not_found
                                  fits' (omega (arith, n, nonempty, le)))
                        ]
                  ]
            ]
      ]
    where
      kept :
          (bytes : List ℕ)
          → length (buf ++ bytes) ≡ length buf + length bytes
          → 0 < length bytes
          → (size ≡ 100) ⊎ (size ≤ 2 * length buf)
          → (size ≡ 100) ⊎ (size ≤ 2 * length (buf ++ bytes))
      kept bytes n nonempty (inl e) = inl e
      kept bytes n nonempty (inr small) = inr (omega arith)

  -- Where `recv` returns at most as many bytes as it was asked for, the reading of a request has,
  -- after `fuel` calls of it, ended with a request that holds an empty line and leaves room for a
  -- NUL in the buffer, whose size is 100 or at most twice what was read; or it was given up; or it
  -- has read as many bytes as it made calls, and no empty line.
  pub read_request_lem : (fuel : ℕ) → Ends fuel (read_request recv calloc fuel)
  unfolding read_request contains_crlfcrlf
  read_request_lem fuel =
      read_loop-Ends fuel 0 fuel [] 100 refl (omega arith, inl refl) (omega arith)
