-- ===== src/Iface/Mac.antt =====
-- The hardware addresses in the device, of scone/or_iface.c: `read_hw_iface_mac` and
-- `write_hw_iface_mac`. The device holds what was written to a register last, and before that the values
-- `first_hi` and `first_low`.
pub mod Laws
mod Tests
use osnt_plus.Prelude.{ℕ, zero, suc, Bool, true, false, List, [], ◌∷◌, ◌==◌, if◌then◌else◌}
use osnt_plus.State.{Reg, RegWrite, write_reg, mac_hi, mac_low}

abbrev pub is_mac_hi : ℕ → Reg → Bool
is_mac_hi port (mac_hi k) = k == port
is_mac_hi port _ = false

abbrev pub is_mac_low : ℕ → Reg → Bool
is_mac_low port (mac_low k) = k == port
is_mac_low port _ = false

-- What `readReg` gives of the two registers of a port
unfoldable pub hi_at : ℕ → ℕ → List RegWrite → ℕ
hi_at first_hi port [] = first_hi
hi_at first_hi port (w ∷ log) = hi_at (if is_mac_hi port w.reg then w.value else first_hi) port log

unfoldable pub low_at : ℕ → ℕ → List RegWrite → ℕ
low_at first_low port [] = first_low
low_at first_low port (w ∷ log) =
    low_at (if is_mac_low port w.reg then w.value else first_low) port log

module _ (first_hi first_low : ℕ → ℕ) where
  abbrev pub registers : ℕ → List RegWrite → ℕ × ℕ
  registers k log = (hi_at (first_hi k) k log, low_at (first_low k) k log)

  unfoldable pub read_hw_iface_mac : ℕ → List RegWrite → ℕ × ℕ
  unfolding hi_at low_at
  read_hw_iface_mac zero log = registers 0 log
  read_hw_iface_mac (suc zero) log = registers 1 log
  read_hw_iface_mac (suc (suc zero)) log = registers 1 log
  read_hw_iface_mac (suc (suc (suc zero))) log = registers 1 log
  read_hw_iface_mac (suc (suc (suc (suc port)))) log = (0, 0)

unfoldable pub write_hw_iface_mac : ℕ → ℕ → ℕ → List RegWrite → List RegWrite
unfolding write_reg
write_hw_iface_mac zero hi low log = write_reg (mac_low 0) low (write_reg (mac_hi 0) hi log)
write_hw_iface_mac (suc zero) hi low log = write_reg (mac_low 1) low (write_reg (mac_hi 1) hi log)
write_hw_iface_mac (suc (suc zero)) hi low log =
    write_reg (mac_low 2) low (write_reg (mac_hi 2) hi log)
write_hw_iface_mac (suc (suc (suc zero))) hi low log =
    write_reg (mac_low 3) low (write_reg (mac_hi 3) hi log)
write_hw_iface_mac (suc (suc (suc (suc port)))) hi low log = log
