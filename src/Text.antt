-- ===== src/Text.antt =====
-- The strings of scone/or_utils.c: `urlencode`, `urldecode` and `my_strncat`. A string is the
-- bytes that are stored before the NUL at its end.
pub mod Laws
mod Tests
use osnt_plus.Prelude.{
  ℕ, zero, suc, ◌+◌, ◌-◌, ◌*◌, ◌/◌, ◌%◌, Bool, true, false, ◌&&◌, ◌||◌, Option, none, some, List,
  [], ◌∷◌, ◌++◌, ltb, leb, ◌==◌, if◌then◌else◌, length,
}

-- The bytes that stand for themselves.
unfoldable pub is_plain : ℕ → Bool
is_plain c = leb b'0' c && leb c b'9' || leb b'a' c && leb c b'z' || leb b'A' c && leb c b'Z'

-- What `printf` writes for `%X` of a number below 16, and what `scanf` reads for it: 0 stays where the
-- byte is no digit.
unfoldable pub hex_digit : ℕ → ℕ
hex_digit n = if ltb n 10 then b'0' + n else b'A' + (n - 10)

unfoldable pub hex_value : ℕ → ℕ
hex_value c =
    if leb b'0' c && leb c b'9'
    then c - b'0'
    else if leb b'A' c && leb c b'F'
    then c - b'A' + 10
    else if leb b'a' c && leb c b'f'
    then c - b'a' + 10
    else 0

unfoldable pub urlencode : List ℕ → List ℕ
unfolding is_plain hex_digit
urlencode [] = []
urlencode (c ∷ str) =
    let rest = urlencode str in
    if is_plain c then c ∷ rest else b'%' ∷ hex_digit (c / 16 % 16) ∷ hex_digit (c % 16) ∷ rest

-- A byte that is no escape
abbrev pub unplus : ℕ → ℕ
unplus c = if c == b'+' then b' ' else c

-- The bytes that `urlencode` and `urldecode` allocate for what they write and the NUL behind it.
unfoldable pub urlencode_size : List ℕ → ℕ
urlencode_size str = 3 * length str + 1

unfoldable pub urldecode_size : List ℕ → ℕ
urldecode_size str = length str + 1

unfoldable pub urldecode : List ℕ → List ℕ
unfolding hex_value
urldecode [] = []
urldecode (c ∷ []) = unplus c ∷ []
urldecode (c ∷ d ∷ []) = unplus c ∷ unplus d ∷ []
urldecode (c ∷ h ∷ l ∷ str) =
    let escaped = (hex_value h * 16 + hex_value l) ∷ urldecode str in
    let plain = unplus c ∷ urldecode (h ∷ l ∷ str) in if c == b'%' then escaped else plain

-- The `while` of `my_strncat`: the size is doubled until `need` bytes fit. It is an `int`, and doubling
-- it past 2 ^ 31 - 1 is undefined.
unfoldable pub grow : ℕ → ℕ → ℕ → Option ℕ
grow zero need size = none
grow (suc fuel) need size =
    let rest = grow fuel need (size * 2) in
    if ltb size need then if ltb (size * 2) 2147483648 then rest else none else some size

-- `my_strncat`: the string, and `*left_alloc_size`.
unfoldable pub my_strncat : List ℕ → List ℕ → ℕ → Option (List ℕ × ℕ)
unfolding grow
my_strncat left right left_alloc_size =
    let need = length left + length right + 1 in
    elim (grow (need + 1) need left_alloc_size) [
      | none ↦ none
      | some size ↦ some (left ++ right, size)
    ]
