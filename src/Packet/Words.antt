-- ===== src/Packet/Words.antt =====
-- 32-bit stores, and words that depend only on their bytes.
use osnt_plus.Prelude.{ℕ, ◌+◌, ◌/◌, ◌%◌, ◌^◌, ◌≤◌, ◌<◌, ◌≡◌, ◌⊎◌, ◌∙◌, arith, length}
use osnt_plus.Packet.{Packet, get8, get16, get32, set16, set32}
use osnt_plus.Packet.Laws.{get8-set16_ne, get16-set16_self, get16-set16_apart, length-set16}

pub length-set32 : (p : Packet) (i v : ℕ) → length (set32 p i v) ≡ length p
unfolding set32
length-set32 p i v =
    length-set16 (set16 p i (v % 65536)) (i + 2) (v / 65536 % 65536) ∙ length-set16 p i (v % 65536)

pub get8-set32_apart :
    (p : Packet) (i j v : ℕ) → (j < i) ⊎ (i + 4 ≤ j) → get8 (set32 p i v) j ≡ get8 p j
unfolding set32
get8-set32_apart p i j v h =
    get8-set16_ne (set16 p i (v % 65536)) (i + 2) j (v / 65536 % 65536) (omega arith) (omega arith)
    ∙ get8-set16_ne p i j (v % 65536) (omega arith) (omega arith)

pub get32-set32_self :
    (p : Packet) (i v : ℕ) → i + 4 ≤ length p → v < 2 ^ 32 → get32 (set32 p i v) i ≡ v
unfolding set32 get32
get32-set32_self p i v h lt = omega (
  arith,
  get16-set16_apart (set16 p i (v % 65536)) (i + 2) i (v / 65536 % 65536) (omega arith),
  get16-set16_self p i (v % 65536) (omega arith) (omega arith),
  get16-set16_self (set16 p i (v % 65536)) (i + 2) (v / 65536 % 65536)
      (omega (arith, length-set16 p i (v % 65536))) (omega arith),
)

-- Two words of the same bytes.
pub get16_of :
    (p q : Packet) (i j : ℕ)
    → get8 q j ≡ get8 p i
    → get8 q (j + 1) ≡ get8 p (i + 1)
    → get16 q j ≡ get16 p i
unfolding get16
get16_of p q i j a b = omega (arith, a, b)

pub get32_of :
    (p q : Packet) (i j : ℕ)
    → ((k : ℕ) → k < 4 → get8 q (j + k) ≡ get8 p (i + k))
    → get32 q j ≡ get32 p i
unfolding get32 get16
get32_of p q i j same = omega (
  arith,
  at j i 0 (omega arith) (omega arith) (omega arith),
  at (j + 1) (i + 1) 1 (omega arith) (omega arith) (omega arith),
  at (j + 2) (i + 2) 2 (omega arith) (omega arith) (omega arith),
  at (j + 2 + 1) (i + 2 + 1) 3 (omega arith) (omega arith) (omega arith),
)
  where
    at : (a b k : ℕ) → a ≡ j + k → b ≡ i + k → k < 4 → get8 q a ≡ get8 p b
    at a b k ea eb lt = rw (ea, eb) (same k lt)

pub get32-set32_apart :
    (p : Packet) (i j v : ℕ) → (j + 4 ≤ i) ⊎ (i + 4 ≤ j) → get32 (set32 p i v) j ≡ get32 p j
get32-set32_apart p i j v h =
    get32_of p (set32 p i v) j j (λ k lt. get8-set32_apart p i (j + k) v (omega arith))
