-- ===== src/Headers/Ip.antt =====
-- `populate_ip` leaves the length of a packet, and what follows its IP header.
use osnt_plus.Prelude.{ℕ, zero, suc, ◌≤◌, ◌≡◌, refl, ap, ◌∙◌, arith, length, inr}
use osnt_plus.Packet.{Packet, get8}
use osnt_plus.Packet.Laws.{get8-set8_ne, get8-set16_ne, length-set8, length-set16}
use osnt_plus.Packet.Words.{length-set32, get8-set32_apart}
use osnt_plus.Headers.{zeros, bzero, populate_ip}
use osnt_plus.Headers.Laws.{length-blit, get8-blit_apart}

pub length-zeros : (n : ℕ) → length (zeros n) ≡ n
unfolding zeros
length-zeros zero = refl
length-zeros (suc n) = ap suc (length-zeros n)

-- `populate_ip` leaves what follows the IP header.
pub get8-populate_ip :
    (p : Packet) (n proto src dest j : ℕ)
    → 34 ≤ j
    → get8 (populate_ip p n proto src dest) j ≡ get8 p j
unfolding populate_ip bzero
get8-populate_ip p n proto src dest j h =
    get8-set32_apart _ 30 j dest (inr h)
    ∙ get8-set32_apart _ 26 j src (omega arith)
    ∙ get8-set8_ne _ 23 j proto (omega arith)
    ∙ get8-set8_ne _ 22 j 0x40 (omega arith)
    ∙ get8-set16_ne _ 16 j _ (omega arith) (omega arith)
    ∙ get8-set16_ne _ 20 j _ (omega arith) (omega arith)
    ∙ get8-set8_ne _ 14 j 0x45 (omega arith)
    ∙ get8-blit_apart p 14 j (zeros 20) (inr (omega (arith, length-zeros 20)))

pub length-populate_ip :
    (p : Packet) (n proto src dest : ℕ) → length (populate_ip p n proto src dest) ≡ length p
unfolding populate_ip bzero
length-populate_ip p n proto src dest =
    length-set32 _ 30 dest
    ∙ length-set32 _ 26 src
    ∙ length-set8 _ 23 proto
    ∙ length-set8 _ 22 0x40
    ∙ length-set16 _ 16 _
    ∙ length-set16 _ 20 _
    ∙ length-set8 _ 14 0x45
    ∙ length-blit p 14 (zeros 20)
