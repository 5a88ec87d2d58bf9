-- ===== src/Text/Tests.antt =====
-- "ip route+1%" and a buffer of four bytes.
use osnt_plus.Prelude.{
  ℕ, ◌+◌, ◌*◌, ◌≤◌, ◌<◌, ◌≡◌, ◌⊎◌, refl, some, List, [], ◌∷◌, ◌++◌, arith, length,
}
use osnt_plus.Text.{urlencode, urldecode, urlencode_size, urldecode_size, my_strncat}
use osnt_plus.Text.Laws.{urldecode-urlencode, buffers_fit}

abbrev command : List ℕ
command = b'i' ∷ b'p' ∷ b' ' ∷ b'+' ∷ b'%' ∷ 200 ∷ []

-- The blank, the plus sign, the percent sign and the byte 200 are escaped.
encodes :
    urlencode command
    ≡ b'i' ∷ b'p' ∷ b'%' ∷ b'2' ∷ b'0' ∷ b'%' ∷ b'2' ∷ b'B' ∷ b'%' ∷ b'2' ∷ b'5' ∷ b'%' ∷ b'C'
      ∷ b'8' ∷ []
unfolding urlencode
encodes = refl

-- An escape that is cut off stays, and a lower-case digit counts.
decodes :
    (urldecode (b'+' ∷ b'%' ∷ b'2' ∷ []) ≡ b' ' ∷ b'%' ∷ b'2' ∷ [])
    × (urldecode (b'%' ∷ b'c' ∷ b'8' ∷ []) ≡ 200 ∷ [])
unfolding urldecode
decodes = (refl, refl)

encoded_example : urldecode (urlencode command) ≡ command
encoded_example = urldecode-urlencode command (omega arith)

buffers_example :
    ((size' : ℕ) × (my_strncat command (1 ∷ []) 4 ≡ some (command ++ 1 ∷ [], size'))
      × (length (command ++ 1 ∷ []) + 1 ≤ size')
      × ((size' ≡ 4) ⊎ (size' < 2 * (length (command ++ 1 ∷ []) + 1))))
    × ((length (urlencode command) + 1 ≤ urlencode_size command)
        × (length (urlencode command) < 2147483648))
    × (length (urldecode command) + 1 ≤ urldecode_size command)
buffers_example = buffers_fit command (1 ∷ []) 4 (omega arith) (omega arith) (omega arith)
