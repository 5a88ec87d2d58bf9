-- ===== src/Headers/Laws.antt =====
-- Copies of bytes: lengths, and what is read back.
use native.Mathlib.Nat.{add-zero}
use osnt_plus.Prelude.{
  ℕ, zero, suc, ◌+◌, ◌≤◌, ◌<◌, ◌≡◌, ◌⊎◌, refl, ◌∙◌, List, [], ◌∷◌, arith, length, get_or,
}
use osnt_plus.Packet.{Packet, get8, set8}
use osnt_plus.Packet.Laws.{length-set8, get8-set8_self, get8-set8_ne}
use osnt_plus.Headers.{blit}

pub length-blit : (p : Packet) (at : ℕ) (bytes : List ℕ) → length (blit p at bytes) ≡ length p
unfolding blit
length-blit p at [] = refl
length-blit p at (b ∷ bytes) = length-blit (set8 p at b) (at + 1) bytes ∙ length-set8 p at b

pub get8-blit_apart :
    (p : Packet) (at j : ℕ) (bytes : List ℕ)
    → (j < at) ⊎ (at + length bytes ≤ j)
    → get8 (blit p at bytes) j ≡ get8 p j
unfolding blit
get8-blit_apart p at j [] h = refl
get8-blit_apart p at j (b ∷ bytes) h =
    get8-blit_apart (set8 p at b) (at + 1) j bytes (omega arith)
    ∙ get8-set8_ne p at j b (omega arith)

-- The bytes that were copied are read back.
pub get8-blit :
    (p : Packet) (at i : ℕ) (bytes : List ℕ)
    → at + length bytes ≤ length p
    → i < length bytes
    → get8 (blit p at bytes) (at + i) ≡ get_or bytes i 0
unfolding blit
get8-blit p at i [] h lt = absurd (omega arith)
get8-blit p at zero (b ∷ bytes) h lt = rw (add-zero at) (
    get8-blit_apart (set8 p at b) (at + 1) at bytes (omega arith)
    ∙ get8-set8_self p at b (omega arith))
get8-blit p at (suc i) (b ∷ bytes) h lt =
    rw (next at i)
      (get8-blit (set8 p at b) (at + 1) i bytes (omega (arith, length-set8 p at b)) (omega arith))
  where
    next : (a k : ℕ) → a + suc k ≡ a + 1 + k
    next a k = omega arith
