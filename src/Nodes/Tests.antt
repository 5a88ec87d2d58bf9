-- ===== src/Nodes/Tests.antt =====
-- Three nodes at 100, 200 and 300, and a new one at 400.
use osnt_plus.Prelude.{ℕ, ◌*◌, ◌≡◌, refl, Option, none, some, [], ◌∷◌, ◌==◌, if◌then◌else◌}
use osnt_plus.Nodes.{Node, Heap, node_remove, node_length}
use osnt_plus.Nodes.Segments.{Item, Listed}
use osnt_plus.Nodes.Clear.{clear_loop, fault, clear_loop-faults}
use osnt_plus.Nodes.Ops.{node_remove_lem}

abbrev item : ℕ → Item
item n = record { at = n * 100; value = n }

abbrev cell : Option ℕ → Option ℕ → ℕ → Option Node
cell prev next value = some (record { prev = prev; next = next; data_of = value })

abbrev heap : Heap
heap = λ b.
    if b == 100
    then cell none (some 200) 1
    else if b == 200
    then cell (some 100) (some 300) 2
    else if b == 300
    then cell (some 200) none 3
    else if b == 400
    then cell none none 4
    else none

three : Listed heap (some 100) (item 1 ∷ item 2 ∷ item 3 ∷ [])
three = (some 300, (refl, some 200, refl, (refl, some 300, refl, (refl, none, refl, (refl, refl)))))

length_runs : node_length 3 heap (some 100) 0 ≡ some 3
unfolding node_length
length_runs = refl

remove_example :
    (h' : Heap) × (head' : Option ℕ) × (node_remove heap (some 100) 200 ≡ some (h', head'))
    × Listed h' head' (item 1 ∷ item 3 ∷ [])
    × (h' 200 ≡ none)
    × (h' 400 ≡ heap 400)
remove_example =
    node_remove_lem heap (some 100) (item 1 ∷ []) (item 2) (item 3 ∷ []) 400 three refl refl

clear_example : clear_loop 2 heap (some 100) (some 100) ≡ fault
clear_example = clear_loop-faults 0 heap (item 1) (item 2 ∷ item 3 ∷ []) three refl
