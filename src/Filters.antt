-- ===== src/Filters.antt =====
-- The local IP filters of scone/or_netfpga.c: the addresses whose packets the device hands to the
-- software. `strcmp` is the C library's; `width` and `address` are the constants of the
-- destination-IP CAM in reg_defines.h.
pub mod Laws
pub mod Strcmp
mod Tests
use osnt_plus.Prelude.{
  ℕ, zero, suc, ◌+◌, Bool, true, false, ◌≡◌, ◌↔◌, ◌||◌, List, [], ◌∷◌, ◌++◌, ◌==◌, if◌then◌else◌,
  bit_or,
}
use osnt_plus.Prelude.Int.{ℤ, pos, is_pos, is_positive, is_negative}
use osnt_plus.Net.{ntohl, strncpy}
use osnt_plus.State.{
  LocalIpFilterEntry, RouterState, RegWrite, write_reg, indirectwrdata_b_low, indirectaddress,
  indirectcommand,
}
use osnt_plus.Bubble.{sort}

-- The two writes that follow the data, and the data: one row of the CAM.
unfoldable pub write_filter : ℕ → ℕ → ℕ → List RegWrite → List RegWrite
write_filter address i ip log =
    write_reg indirectcommand 1
      (write_reg indirectaddress (bit_or address i) (write_reg indirectwrdata_b_low ip log))

-- The `for`, with `rounds` rounds left from `i` on.
unfoldable pub filters_loop : ℕ → ℕ → ℕ → List LocalIpFilterEntry → List RegWrite → List RegWrite
filters_loop address zero i cur log = log
filters_loop address (suc rounds) i [] log =
    filters_loop address rounds (i + 1) [] (write_filter address i 0 log)
filters_loop address (suc rounds) i (entry ∷ n) log =
    filters_loop address rounds (i + 1) n (write_filter address i (ntohl entry.ip) log)

-- `get_local_ip_filter_by_ip` finds an entry.
unfoldable pub is_filtered : List LocalIpFilterEntry → ℕ → Bool
is_filtered [] ip = false
is_filtered (entry ∷ n) ip = entry.ip == ip || is_filtered n ip

-- LOCAL_IP_FILTER_ENTRY_NAME_LEN is 32.
abbrev pub new_filter : ℕ → List ℕ → LocalIpFilterEntry
new_filter ip name = record { ip = ip; name = strncpy name 31 }

-- What the C standard says of `strcmp`: it is zero on equal strings only, and turning the arguments
-- turns the sign.
pub record IsStrcmp (strcmp : List ℕ → List ℕ → ℤ) : Type 0 where
  pub zero_iff : (a b : List ℕ) → (strcmp a b ≡ pos 0) ↔ (a ≡ b)
  pub turn : (a b : List ℕ) → is_positive (strcmp a b) ≡ is_negative (strcmp b a)

module _ (strcmp : List ℕ → List ℕ → ℤ) where
  -- `get_local_ip_filter_by_name` finds an entry.
  unfoldable pub is_named : List LocalIpFilterEntry → List ℕ → Bool
  is_named [] name = false
  is_named (entry ∷ n) name = is_pos 0 (strcmp entry.name name) || is_named n name

  -- The test of the sort: `strcmp(a->name, b->name) == 1`
  unfoldable pub misplaced : LocalIpFilterEntry → LocalIpFilterEntry → Bool
  misplaced a b = is_pos 1 (strcmp a.name b.name)

  unfoldable pub trigger_local_ip_filters_change : ℕ → ℕ → RouterState → RouterState
  unfolding filters_loop
  trigger_local_ip_filters_change width address rs =
      let sorted = sort misplaced rs.local_ip_filter_list in
      record rs {
        local_ip_filter_list = sorted;
        writes = if rs.is_netfpga then filters_loop address width 0 sorted rs.writes else rs.writes;
      }

  -- `add_local_ip_filter`: the state, and the return value.
  unfoldable pub add_local_ip_filter : ℕ → ℕ → RouterState → ℕ → List ℕ → RouterState × ℕ
  unfolding trigger_local_ip_filters_change
  add_local_ip_filter width address rs ip name =
      if is_filtered rs.local_ip_filter_list ip || is_named rs.local_ip_filter_list name
      then (rs, 1)
      else (
        trigger_local_ip_filters_change width address (record rs {
          local_ip_filter_list = rs.local_ip_filter_list ++ new_filter ip name ∷ [];
        }),
        0,
      )
