-- ===== src/RTable/Hardware.antt =====
-- `write_rtable_to_hw` of scone/or_rtable.c, with `getOneHotPortNumber` of scone/or_netfpga.c, and
-- the model of the device by which its register writes are read. The addresses and the number of
-- rows come from reg_defines.h, which the hardware build generates: they are parameters.
pub mod FourRows
pub mod Rows
use osnt_plus.Prelude.{
  ℕ, zero, suc, ◌+◌, Bool, true, false, Option, none, some, List, [], ◌∷◌, ◌==◌, if◌then◌else◌,
  bytes_eq, bit_or,
}
use osnt_plus.Net.{ntohl}
use osnt_plus.State.{
  RtableEntry, RouterState, Reg, RegWrite, write_reg, indirectwrdata_a_hi, indirectwrdata_a_low,
  indirectwrdata_b_hi, indirectwrdata_b_low, indirectaddress, indirectcommand,
}

-- "eth0", "eth1", "cpu0", "cpu1"
abbrev pub eth0 : List ℕ
eth0 = b'e' ∷ b't' ∷ b'h' ∷ b'0' ∷ []

abbrev pub eth1 : List ℕ
eth1 = b'e' ∷ b't' ∷ b'h' ∷ b'1' ∷ []

abbrev pub cpu0 : List ℕ
cpu0 = b'c' ∷ b'p' ∷ b'u' ∷ b'0' ∷ []

abbrev pub cpu1 : List ℕ
cpu1 = b'c' ∷ b'p' ∷ b'u' ∷ b'1' ∷ []

-- `getOneHotPortNumber`: `none` is the failed assertion.
unfoldable pub one_hot_port : List ℕ → Option ℕ
one_hot_port name =
    if bytes_eq eth0 name
    then some 1
    else if bytes_eq eth1 name
    then some 4
    else if bytes_eq cpu0 name
    then some 2
    else if bytes_eq cpu1 name
    then some 8
    else none

-- The `while` that moves on to an active entry.
unfoldable pub skip_inactive : List RtableEntry → List RtableEntry
skip_inactive [] = []
skip_inactive (e ∷ n) = if e.is_active then e ∷ n else skip_inactive n

-- The data of a row, in the order of the registers.
pub record Row : Type 0 where
  pub ip : ℕ
  pub mask : ℕ
  pub next_hop : ℕ
  pub port : ℕ

abbrev pub zero_row : Row
zero_row = record { ip = 0; mask = 0; next_hop = 0; port = 0 }

abbrev pub row_of : RtableEntry → ℕ → Row
row_of e port = record { ip = ntohl e.ip; mask = ntohl e.mask; next_hop = ntohl e.gw; port = port }

-- The six register writes of a round.
unfoldable pub write_row : ℕ → ℕ → Row → List RegWrite → List RegWrite
write_row address i row log = write_reg indirectcommand 1 (
    write_reg indirectaddress (bit_or address i) (
      write_reg indirectwrdata_b_low row.port (
        write_reg indirectwrdata_a_low row.next_hop
          (write_reg indirectwrdata_b_hi row.mask (write_reg indirectwrdata_a_hi row.ip log)))))

-- The `for`, with `rounds` rounds left from `i` on; `none` is a failed assertion.
unfoldable pub hw_loop : ℕ → ℕ → ℕ → List RtableEntry → List RegWrite → Option (List RegWrite)
hw_loop address zero i cur log = some log
hw_loop address (suc rounds) i [] log =
    hw_loop address rounds (i + 1) [] (write_row address i zero_row log)
hw_loop address (suc rounds) i (e ∷ n) log = elim (one_hot_port e.iface) [
  | none ↦ none
  | some port ↦
      hw_loop address rounds (i + 1) (skip_inactive n) (write_row address i (row_of e port) log)
]

unfoldable pub write_rtable_to_hw :
    ℕ → ℕ → List RtableEntry → List RegWrite → Option (List RegWrite)
unfolding hw_loop skip_inactive
write_rtable_to_hw width address rtable log = hw_loop address width 0 (skip_inactive rtable) log
