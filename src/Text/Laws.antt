-- ===== src/Text/Laws.antt =====
-- The encoding of URLs and the growth of buffers.
use osnt_plus.Prelude.{
  ℕ, zero, suc, ◌+◌, ◌-◌, ◌*◌, ◌/◌, ◌%◌, ◌≤◌, ◌<◌, ◌≡◌, ◌⊎◌, refl, ap, ◌∙◌, inl, inr, true, false,
  some, List, [], ◌∷◌, ◌++◌, arith, ltb, ◌==◌, ==_iff, ltb→lt, length, length-append, All,
  Bool-cases, all_below, all_below_sound,
}
use osnt_plus.Text.{
  is_plain, hex_digit, hex_value, urlencode, unplus, urldecode, urlencode_size, urldecode_size,
  grow, my_strncat,
}

hex_table : all_below 16 (λ n. hex_value (hex_digit n) == n) ≡ true
unfolding hex_value hex_digit
hex_table = refl

hex_value-hex_digit : (n : ℕ) → n < 16 → hex_value (hex_digit n) ≡ n
hex_value-hex_digit n h =
    (==_iff _ n).0 (all_below_sound 16 (λ x. hex_value (hex_digit x) == x) n hex_table h)

plain_ne_percent : (c : ℕ) → is_plain c ≡ true → (c == b'%') ≡ false
unfolding is_plain
plain_ne_percent c h = ground arith

unplus-plain : (c : ℕ) → is_plain c ≡ true → unplus c ≡ c
unfolding is_plain
unplus-plain c h = ground arith

urldecode-plain : (c : ℕ) (l : List ℕ) → is_plain c ≡ true → urldecode (c ∷ l) ≡ c ∷ urldecode l
unfolding urldecode
urldecode-plain c [] h = rw (unplus-plain c h) refl
urldecode-plain c (d ∷ []) h = rw (unplus-plain c h) refl
urldecode-plain c (d ∷ e ∷ l) h = rw (plain_ne_percent c h, unplus-plain c h) refl

urldecode-escaped :
    (h l : ℕ) (str : List ℕ)
    → urldecode (b'%' ∷ h ∷ l ∷ str) ≡ (hex_value h * 16 + hex_value l) ∷ urldecode str
unfolding urldecode
urldecode-escaped h l str = refl

-- Decoding gives back what was encoded, whatever the bytes.
pub urldecode-urlencode : (str : List ℕ) → All (λ c. c < 256) str → urldecode (urlencode str) ≡ str
unfolding urlencode urldecode
urldecode-urlencode [] h = refl
urldecode-urlencode (c ∷ str) h = elim (Bool-cases (is_plain c)) [
  | inl plain ↦ rw plain (
      urldecode-plain c (urlencode str) plain
      ∙ ap (λ (l : List ℕ). c ∷ l) (urldecode-urlencode str h.1))
  | inr escaped ↦
      let high = hex_value-hex_digit (c / 16 % 16) (omega arith) in
      let low = hex_value-hex_digit (c % 16) (omega arith) in
      let whole : c / 16 % 16 * 16 + c % 16 ≡ c = omega (arith, h.0) in
      rw escaped (
        urldecode-escaped (hex_digit (c / 16 % 16)) (hex_digit (c % 16)) (urlencode str)
        ∙ rw (high, low, whole) (ap (λ (l : List ℕ). c ∷ l) (urldecode-urlencode str h.1)))
]

length-urlencode : (str : List ℕ) → length (urlencode str) ≤ 3 * length str
unfolding urlencode
length-urlencode [] = omega arith
length-urlencode (c ∷ str) = elim (Bool-cases (is_plain c)) [
  | inl plain ↦ rw plain (omega (arith, length-urlencode str))
  | inr escaped ↦ rw escaped (omega (arith, length-urlencode str))
]

length-urldecode : (str : List ℕ) → length (urldecode str) ≤ length str
unfolding urldecode
length-urldecode [] = omega arith
length-urldecode (c ∷ []) = omega arith
length-urldecode (c ∷ d ∷ []) = omega arith
length-urldecode (c ∷ h ∷ l ∷ str) = elim (Bool-cases (c == b'%')) [
  | inl escape ↦ rw escape (omega (arith, length-urldecode str))
  | inr plain ↦ rw plain (omega (arith, length-urldecode (h ∷ l ∷ str)))
]

grow_lem :
    (fuel need size : ℕ)
    → 0 < size
    → need ≤ 1073741824
    → need - size < fuel
    → (size' : ℕ) × (grow fuel need size ≡ some size')
      × (need ≤ size')
      × ((size' ≡ size) ⊎ (size' < 2 * need))
unfolding grow
grow_lem zero need size pos int h = absurd (omega arith)
grow_lem (suc fuel) need size pos int h = elim (Bool-cases (ltb size need)) [
  | inl small ↦
      let (size', e, fits, tight) =
        grow_lem fuel need (size * 2) (omega arith) int (omega (arith, ltb→lt size need small)) in
      let no_overflow : ltb (size * 2) 2147483648 ≡ true =
        ground (arith, int, ltb→lt size need small) in
      (size', rw (small, no_overflow) e, fits, inr (bounded size' small fits tight))
  | inr large ↦ (size, rw large refl, ground arith, inl refl)
]
  where
    bounded :
        (size' : ℕ)
        → ltb size need ≡ true
        → need ≤ size'
        → (size' ≡ size * 2) ⊎ (size' < 2 * need)
        → size' < 2 * need
    bounded size' small fits (inl e) = ground arith
    bounded size' small fits (inr lt) = lt

pub my_strncat_lem :
    (left right : List ℕ) (size : ℕ)
    → 0 < size
    → length left + length right + 1 ≤ 1073741824
    → (size' : ℕ) × (my_strncat left right size ≡ some (left ++ right, size'))
      × (length (left ++ right) + 1 ≤ size')
      × ((size' ≡ size) ⊎ (size' < 2 * (length (left ++ right) + 1)))
unfolding my_strncat
my_strncat_lem left right size pos int =
    let need = length left + length right + 1 in
    let (size', e, fits, tight) = grow_lem (need + 1) need size pos int (omega arith) in
    (size', rw (my_strncat, e) refl, rw length-append fits, rw length-append tight)

-- From a buffer that is not empty, and for at most 2 ^ 30 bytes with the NUL, `my_strncat` ends and
-- returns the two strings in a row; the buffer that it returns holds them with the NUL, and is the
-- one that there was or less than twice what is needed. Where three times the length of the string
-- is below 2 ^ 31, what `urlencode` writes, with the NUL, fits the bytes that it allocates, and its
-- positions fit an int; what `urldecode` writes, with the NUL, fits the bytes that it allocates.
pub buffers_fit :
    (left right : List ℕ) (size : ℕ)
    → 0 < size
    → length left + length right + 1 ≤ 1073741824
    → 3 * length left < 2147483648
    → ((size' : ℕ) × (my_strncat left right size ≡ some (left ++ right, size'))
        × (length (left ++ right) + 1 ≤ size')
        × ((size' ≡ size) ⊎ (size' < 2 * (length (left ++ right) + 1))))
      × ((length (urlencode left) + 1 ≤ urlencode_size left)
          × (length (urlencode left) < 2147483648))
      × (length (urldecode left) + 1 ≤ urldecode_size left)
unfolding urlencode_size urldecode_size
buffers_fit left right size pos int position = (
  my_strncat_lem left right size pos int,
  (omega (arith, length-urlencode left), omega (arith, length-urlencode left, position)),
  omega (arith, length-urldecode left),
)
