-- ===== src/Iface/Mac/Tests.antt =====
-- A write of the registers of port 0, on a device whose registers hold zero.
use osnt_plus.Prelude.{ℕ, ◌<◌, ◌≤◌, ◌≡◌, []}
use osnt_plus.Iface.Mac.{read_hw_iface_mac, write_hw_iface_mac}
use osnt_plus.Iface.Mac.Laws.{read_hw_iface_mac-write_hw_iface_mac}

abbrev zero_regs : ℕ → ℕ
zero_regs port = 0

mac_example :
    (3 < 2 → read_hw_iface_mac zero_regs zero_regs 3 (write_hw_iface_mac 3 512 9 []) ≡ (512, 9))
    × (2 ≤ 3
        → 3 < 4
        → read_hw_iface_mac zero_regs zero_regs 3 (write_hw_iface_mac 3 512 9 [])
          ≡ read_hw_iface_mac zero_regs zero_regs 1 [])
    × (4 ≤ 3
        → (write_hw_iface_mac 3 512 9 [] ≡ [])
          × (read_hw_iface_mac zero_regs zero_regs 3 [] ≡ (0, 0)))
mac_example = read_hw_iface_mac-write_hw_iface_mac zero_regs zero_regs 3 512 9 []
