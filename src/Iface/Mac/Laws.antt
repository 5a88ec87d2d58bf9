-- ===== src/Iface/Mac/Laws.antt =====
-- What is read of the hardware addresses that were written.
use osnt_plus.Prelude.{ℕ, zero, suc, ◌<◌, ◌≤◌, ◌≡◌, refl, List, [], ◌∷◌, arith, ◌==◌, if◌then◌else◌}
use osnt_plus.State.{Reg, RegWrite, write_reg, mac_hi, mac_low}
use osnt_plus.Iface.Mac.{
  is_mac_hi, is_mac_low, hi_at, low_at, registers, read_hw_iface_mac, write_hw_iface_mac,
}

hi_at-write_reg :
    (first port : ℕ) (r : Reg) (v : ℕ) (log : List RegWrite)
    → hi_at first port (write_reg r v log) ≡ (if is_mac_hi port r then v else hi_at first port log)
unfolding hi_at write_reg
hi_at-write_reg first port r v [] = refl
hi_at-write_reg first port r v (w ∷ log) =
    hi_at-write_reg (if is_mac_hi port w.reg then w.value else first) port r v log

low_at-write_reg :
    (first port : ℕ) (r : Reg) (v : ℕ) (log : List RegWrite)
    → low_at first port (write_reg r v log)
      ≡ (if is_mac_low port r then v else low_at first port log)
unfolding low_at write_reg
low_at-write_reg first port r v [] = refl
low_at-write_reg first port r v (w ∷ log) =
    low_at-write_reg (if is_mac_low port w.reg then w.value else first) port r v log

module _ (first_hi first_low : ℕ → ℕ) where
  -- The two registers of port `k` after the two of port `port` were written
  written :
      (k port hi low : ℕ) (log : List RegWrite)
      → registers first_hi first_low k
          (write_reg (mac_low port) low (write_reg (mac_hi port) hi log))
        ≡ (
          (if port == k then hi else hi_at (first_hi k) k log),
          (if port == k then low else low_at (first_low k) k log),
        )
  written k port hi low log =
      rw (hi_at-write_reg, hi_at-write_reg, low_at-write_reg, low_at-write_reg) refl

  -- What was written for port 0 or 1 is read again. For ports 2 and 3 the registers of port 1 are
  -- read, which the write does not touch. For any other port nothing is written and 0 is read.
  pub read_hw_iface_mac-write_hw_iface_mac :
      (port hi low : ℕ) (log : List RegWrite)
      → (port < 2
          → read_hw_iface_mac first_hi first_low port (write_hw_iface_mac port hi low log)
            ≡ (hi, low))
        × (2 ≤ port
            → port < 4
            → read_hw_iface_mac first_hi first_low port (write_hw_iface_mac port hi low log)
              ≡ read_hw_iface_mac first_hi first_low 1 log)
        × (4 ≤ port
            → (write_hw_iface_mac port hi low log ≡ log)
              × (read_hw_iface_mac first_hi first_low port log ≡ (0, 0)))
  unfolding read_hw_iface_mac write_hw_iface_mac
  read_hw_iface_mac-write_hw_iface_mac zero hi low log =
      (λ _. written 0 0 hi low log, λ ge. absurd (omega arith), λ ge. absurd (omega arith))
  read_hw_iface_mac-write_hw_iface_mac (suc zero) hi low log =
      (λ _. written 1 1 hi low log, λ ge. absurd (omega arith), λ ge. absurd (omega arith))
  read_hw_iface_mac-write_hw_iface_mac (suc (suc zero)) hi low log =
      (λ lt. absurd (omega arith), λ _ _. written 1 2 hi low log, λ ge. absurd (omega arith))
  read_hw_iface_mac-write_hw_iface_mac (suc (suc (suc zero))) hi low log =
      (λ lt. absurd (omega arith), λ _ _. written 1 3 hi low log, λ ge. absurd (omega arith))
  read_hw_iface_mac-write_hw_iface_mac (suc (suc (suc (suc port)))) hi low log =
      (λ lt. absurd (omega arith), λ _ lt. absurd (omega arith), λ _. (refl, refl))
