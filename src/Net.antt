-- ===== src/Net.antt =====
-- What the C code uses of the standard library on addresses and C strings: the byte order of a
-- little-endian host (the one for which the bit-field `ip_hl` of or_data_types.h stands first),
-- `strncpy` and `strncmp`. An address is a 32-bit number as it lies in memory (network order); a
-- C string is its bytes before the NUL.
use osnt_plus.Prelude.{
  ℕ, zero, suc, ◌+◌, ◌*◌, ◌/◌, ◌%◌, ◌^◌, ◌<◌, ◌≡◌, Bool, true, false, ◌&&◌, List, [], ◌∷◌, ◌==◌,
  arith, take,
}

unfoldable pub ntohl : ℕ → ℕ
ntohl w = w % 256 * 16777216 + w / 256 % 256 * 65536 + w / 65536 % 256 * 256 + w / 16777216 % 256

unfoldable pub ntohs : ℕ → ℕ
ntohs h = h % 256 * 256 + h / 256 % 256

-- The conversions are their own inverses: `htonl` is `ntohl`, `htons` is `ntohs`.
abbrev pub htonl : ℕ → ℕ
htonl = ntohl

abbrev pub htons : ℕ → ℕ
htons = ntohs

pub ntohl-ntohl : (w : ℕ) → w < 2 ^ 32 → ntohl (ntohl w) ≡ w
unfolding ntohl
ntohl-ntohl w h = omega arith

pub ntohs-ntohs : (h : ℕ) → h < 2 ^ 16 → ntohs (ntohs h) ≡ h
unfolding ntohs
ntohs-ntohs h lt = omega arith

pub ntohl-lt : (w : ℕ) → ntohl w < 2 ^ 32
unfolding ntohl
ntohl-lt w = omega arith

pub ntohs-lt : (h : ℕ) → ntohs h < 2 ^ 16
unfolding ntohs
ntohs-lt h = omega arith

-- `strncpy(dst, src, len)` into a zeroed buffer of `len` bytes: at most `len` bytes stay.
abbrev pub strncpy : List ℕ → ℕ → List ℕ
strncpy src len = take len src

-- `strncmp(a, b, n) == 0`: the strings agree up to `n` bytes or to a common end.
unfoldable pub strncmp_eq : List ℕ → List ℕ → ℕ → Bool
strncmp_eq a b zero = true
strncmp_eq [] [] (suc n) = true
strncmp_eq [] (y ∷ b) (suc n) = false
strncmp_eq (x ∷ a) [] (suc n) = false
strncmp_eq (x ∷ a) (y ∷ b) (suc n) = x == y && strncmp_eq a b n
