-- ===== src/RTable/Sort.antt =====
-- The sort of `trigger_rtable_modified`, an instance of the bubble sort.
use mathlib.Core.List.{Perm}
use osnt_plus.Prelude.{ℕ, ◌<◌, ◌≡◌, true, false, some, List, arith, All}
use osnt_plus.State.{RtableEntry}
use osnt_plus.Bubble.{bubble_sort, inversions}
use osnt_plus.Bubble.Laws
use osnt_plus.RTable.{out_of_order, sort_rtable}

pub out_of_order_asymm : (a b : RtableEntry) → out_of_order a b ≡ true → out_of_order b a ≡ false
unfolding out_of_order
out_of_order_asymm a b h = ground arith

-- No two neighbours stand in the wrong order.
abbrev pub IsOrdered : List RtableEntry → Type 0
IsOrdered = Laws.IsOrdered out_of_order

-- The sort ends, with the sorted table, within one more pass than the table has inversions.
pub bubble_sort-sort_rtable :
    (fuel : ℕ) (r : List RtableEntry)
    → inversions out_of_order r < fuel
    → bubble_sort out_of_order fuel r ≡ some (sort_rtable r)
unfolding sort_rtable
bubble_sort-sort_rtable = Laws.bubble_sort-sort out_of_order out_of_order_asymm

-- The sorted table has the same entries, and no two neighbours are out of order.
pub sort_rtable_lem : (r : List RtableEntry) → Perm (sort_rtable r) r × IsOrdered (sort_rtable r)
unfolding sort_rtable
sort_rtable_lem = Laws.sort_lem out_of_order out_of_order_asymm

-- What holds of every entry holds of every entry of the sorted table.
pub All-sort_rtable {ℓ} :
    (P : RtableEntry → Type ℓ) (r : List RtableEntry) → All P r → All P (sort_rtable r)
unfolding sort_rtable
All-sort_rtable = Laws.All-sort out_of_order out_of_order_asymm
