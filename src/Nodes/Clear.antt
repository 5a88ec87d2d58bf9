-- ===== src/Nodes/Clear.antt =====
-- The loop by which `iface_up` and `iface_down` of scone/or_iface.c clear the neighbours of an
-- interface, `while (cur) { node_remove(&iface->nbr_routers, cur); }`, on the heap.
use osnt_plus.Prelude.{ℕ, zero, suc, ◌≡◌, refl, true, Option, none, some, List, [], ◌∷◌, distinct}
use osnt_plus.Nodes.{Heap, node_remove}
use osnt_plus.Nodes.Segments.{Item, addresses, Listed}
use osnt_plus.Nodes.Ops.{node_remove_total}

-- How far the loop came: to its end, to a pointer that points to no node, or to the end of its fuel.
pub data Outcome : Type 0 where
  cleared : Heap → Option ℕ → Outcome
  fault : Outcome
  out_of_fuel : Outcome

unfoldable pub clear_loop : ℕ → Heap → Option ℕ → Option ℕ → Outcome
clear_loop fuel h head none = cleared h head
clear_loop zero h head (some cur) = out_of_fuel
clear_loop (suc fuel) h head (some cur) = elim (node_remove h head cur) [
  | none ↦ fault
  | some (h', head') ↦ clear_loop fuel h' head' (some cur)
]

node_remove_gone : (h : Heap) (head : Option ℕ) (n : ℕ) → h n ≡ none → node_remove h head n ≡ none
unfolding node_remove
node_remove_gone h head n e = rw (node_remove, e) refl

clear_loop_gone :
    (fuel : ℕ) (h : Heap) (head : Option ℕ) (n : ℕ)
    → h n ≡ none
    → clear_loop (suc fuel) h head (some n) ≡ fault
unfolding clear_loop
clear_loop_gone fuel h head n e = rw (clear_loop, node_remove_gone h head n e) refl

-- On a list of nodes with different addresses that is not empty, the loop never comes to its end:
-- it frees the first node, and its second round follows the pointer to it.
pub clear_loop-faults :
    (fuel : ℕ) (h : Heap) (i : Item) (n : List Item)
    → Listed h (some i.at) (i ∷ n)
    → distinct (addresses (i ∷ n)) ≡ true
    → clear_loop (suc (suc fuel)) h (some i.at) (some i.at) ≡ fault
unfolding clear_loop
clear_loop-faults fuel h i n listed once =
    let r = node_remove_total h (some i.at) [] i n listed once in
    rw (clear_loop, r.runs) (clear_loop_gone fuel r.heap r.new_head i.at r.gone)
