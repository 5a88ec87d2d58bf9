-- ===== src/Packet/Laws.antt =====
-- A load after a store: the value at the same place, what was there elsewhere.
use osnt_plus.Prelude.{
  ℕ, zero, suc, ◌+◌, ◌/◌, ◌%◌, ◌≤◌, ◌<◌, ◌≡◌, ◌≢◌, ◌⊎◌, refl, [], ◌∷◌, arith, length, length-set,
  ap,
}
use osnt_plus.Packet.{Packet, get8, get16, set8, set16}

pub length-set8 : (p : Packet) (i v : ℕ) → length (set8 p i v) ≡ length p
unfolding set8
length-set8 p i v = length-set p i v

pub length-set16 : (p : Packet) (i v : ℕ) → length (set16 p i v) ≡ length p
unfolding set16
length-set16 p i v =
    omega
      (arith, length-set8 (set8 p i (v % 256)) (i + 1) (v / 256 % 256), length-set8 p i (v % 256))

pub get8-set8_self : (p : Packet) (i v : ℕ) → i < length p → get8 (set8 p i v) i ≡ v
unfolding get8 set8
get8-set8_self [] i v h = elim h [ ]
get8-set8_self (x ∷ p) zero v h = refl
get8-set8_self (x ∷ p) (suc i) v h = get8-set8_self p i v (omega arith)

pub get8-set8_ne : (p : Packet) (i j v : ℕ) → i ≢ j → get8 (set8 p i v) j ≡ get8 p j
unfolding get8 set8
get8-set8_ne [] i j v h = refl
get8-set8_ne (x ∷ p) zero zero v h = absurd (h refl)
get8-set8_ne (x ∷ p) zero (suc j) v h = refl
get8-set8_ne (x ∷ p) (suc i) zero v h = refl
get8-set8_ne (x ∷ p) (suc i) (suc j) v h = get8-set8_ne p i j v (λ e. h (ap suc e))

pub get8-set16_ne : (p : Packet) (i j v : ℕ) → j ≢ i → j ≢ i + 1 → get8 (set16 p i v) j ≡ get8 p j
unfolding set16
get8-set16_ne p i j v h k = omega (
  arith,
  get8-set8_ne (set8 p i (v % 256)) (i + 1) j (v / 256 % 256) (omega arith),
  get8-set8_ne p i j (v % 256) (omega arith),
)

pub get16-set16_self :
    (p : Packet) (i v : ℕ) → i + 1 < length p → v < 65536 → get16 (set16 p i v) i ≡ v
unfolding get16 set16
get16-set16_self p i v h lt = omega (
  arith,
  get8-set8_ne (set8 p i (v % 256)) (i + 1) i (v / 256 % 256) (omega arith),
  get8-set8_self p i (v % 256) (omega arith),
  get8-set8_self (set8 p i (v % 256)) (i + 1) (v / 256 % 256)
      (omega (arith, length-set8 p i (v % 256))),
)

-- Two stores that do not overlap do not disturb one another.
pub get16-set16_apart :
    (p : Packet) (i j v : ℕ) → (i + 2 ≤ j) ⊎ (j + 2 ≤ i) → get16 (set16 p i v) j ≡ get16 p j
unfolding get16
get16-set16_apart p i j v h = omega (
  arith,
  get8-set16_ne p i j v (omega arith) (omega arith),
  get8-set16_ne p i (j + 1) v (omega arith) (omega arith),
)
