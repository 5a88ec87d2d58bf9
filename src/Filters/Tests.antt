-- ===== src/Filters/Tests.antt =====
-- The filters of a router with two, to which one is added.
use osnt_plus.Prelude.{◌≤◌, ◌≡◌, ◌⊎◌, refl, Bool, true, [], ◌∷◌, arith, tally, bit_or}
use osnt_plus.State.{LocalIpFilterEntry, RouterState}
use osnt_plus.RTable.Hardware.{eth0, eth1, cpu0, zero_row}
use osnt_plus.RTable.Hardware.Rows.{Device}
use osnt_plus.RTable.Hardware.FourRows.{four_rows}
use osnt_plus.Bubble.{sort, bubble_pass}
use osnt_plus.Start.{zeroed}
use osnt_plus.Filters.{is_filtered, is_named, misplaced, add_local_ip_filter, new_filter}
use osnt_plus.Filters.Strcmp.{strcmp, strcmp-IsStrcmp}
use osnt_plus.Filters.Laws.{
  IsOnce, low_after, filter_row, add_local_ip_filter_lem, add_local_ip_filter-rows,
}

abbrev router : RouterState
router = record (zeroed []) {
  is_netfpga = true;
  local_ip_filter_list = new_filter 16842762 eth0 ∷ new_filter 33619978 eth1 ∷ [];
}

-- "cpu0" goes to the front; a filter whose name or address is there is refused.
add_runs :
    ((add_local_ip_filter strcmp 4 4 router 7 cpu0).0.local_ip_filter_list
      ≡ new_filter 7 cpu0 ∷ new_filter 16842762 eth0 ∷ new_filter 33619978 eth1 ∷ [])
    × ((add_local_ip_filter strcmp 4 4 router 7 eth0).1 ≡ 1)
    × ((add_local_ip_filter strcmp 4 4 router 16842762 cpu0).1 ≡ 1)
unfolding add_local_ip_filter zeroed is_filtered is_named misplaced sort bubble_pass strcmp
add_runs = (refl, refl, refl)

once : IsOnce router.local_ip_filter_list
unfolding zeroed
once ip = ground arith

add_filter_example :
    IsOnce (add_local_ip_filter strcmp 4 4 router 7 cpu0).0.local_ip_filter_list
    × ((is_filtered (add_local_ip_filter strcmp 4 4 router 7 cpu0).0.local_ip_filter_list 7 ≡ true)
        ⊎ (is_named strcmp router.local_ip_filter_list cpu0 ≡ true))
    × ((p : LocalIpFilterEntry → Bool)
        → tally p router.local_ip_filter_list
          ≤ tally p (add_local_ip_filter strcmp 4 4 router 7 cpu0).0.local_ip_filter_list)
add_filter_example = add_local_ip_filter_lem strcmp strcmp-IsStrcmp 4 4 router 7 cpu0 once

abbrev device : Device
device = record { a_hi = 1; a_low = 2; b_hi = 3; b_low = 4; address = 5; rows = λ _. zero_row }

netfpga : router.is_netfpga ≡ true
unfolding zeroed
netfpga = refl

added : (add_local_ip_filter strcmp 4 4 router 7 cpu0).1 ≡ 0
unfolding add_local_ip_filter zeroed is_filtered is_named strcmp
added = refl

filter_rows_example :
    low_after (add_local_ip_filter strcmp 4 4 router 7 cpu0).0.writes device (bit_or 4 1)
    ≡ filter_row (add_local_ip_filter strcmp 4 4 router 7 cpu0).0.local_ip_filter_list 1
filter_rows_example =
    add_local_ip_filter-rows strcmp 4 4 router 7 cpu0 device 1 four_rows netfpga added (omega arith)
