-- ===== src/Packet.antt =====
-- Packets as lists of bytes, with the loads and stores of C's casts to header structs on a
-- little-endian host. A load past the end gives 0 and a store there changes nothing; the theorems
-- ask for packets that are long enough.
pub mod Laws
pub mod Words
use osnt_plus.Prelude.{ℕ, zero, suc, ◌+◌, ◌*◌, ◌/◌, ◌%◌, List, [], ◌∷◌, ◌++◌, get_or, set, take}

abbrev pub Packet : Type 0
Packet = List ℕ

-- `uint8_t`, `uint16_t` and `uint32_t` at an offset, as they lie in memory
unfoldable pub get8 : Packet → ℕ → ℕ
get8 p i = get_or p i 0

unfoldable pub get16 : Packet → ℕ → ℕ
unfolding get8
get16 p i = get8 p i + 256 * get8 p (i + 1)

unfoldable pub get32 : Packet → ℕ → ℕ
unfolding get16
get32 p i = get16 p i + 65536 * get16 p (i + 2)

unfoldable pub set8 : Packet → ℕ → ℕ → Packet
set8 p i v = set p i v

unfoldable pub set16 : Packet → ℕ → ℕ → Packet
unfolding set8
set16 p i v = set8 (set8 p i (v % 256)) (i + 1) (v / 256 % 256)

unfoldable pub set32 : Packet → ℕ → ℕ → Packet
unfolding set16
set32 p i v = set16 (set16 p i (v % 65536)) (i + 2) (v / 65536 % 65536)
