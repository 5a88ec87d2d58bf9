-- ===== src/Nodes.antt =====
-- The doubly linked lists of scone/or_utils.c: `node_create`, `node_push_back`, `node_remove` and
-- `node_length`, on a heap of nodes. A pointer is an address, or `none` for NULL; the result `none`
-- is a pointer followed that is NULL or points to no node. What `data` points to is a number that
-- stands for it. The address that `malloc` returns is an argument.
pub mod Clear
pub mod Ops
pub mod Segments
mod Tests
pub mod Writes
use osnt_plus.Prelude.{ℕ, zero, suc, ◌+◌, Option, none, some, ◌==◌, if◌then◌else◌}

-- `struct node`
pub record Node : Type 0 where
  pub prev : Option ℕ
  pub next : Option ℕ
  pub data_of : ℕ

abbrev pub Heap : Type 0
Heap = ℕ → Option Node

unfoldable pub store : Heap → ℕ → Node → Heap
store h a v = λ b. if b == a then some v else h b

unfoldable pub free : Heap → ℕ → Heap
free h a = λ b. if b == a then none else h b

-- `p->next = v` and `p->prev = v`
unfoldable pub set_next : Heap → ℕ → Option ℕ → Option Heap
set_next h p v = elim (h p) [ none ↦ none | some c ↦ some (store h p (record c { next = v })) ]

unfoldable pub set_prev : Heap → ℕ → Option ℕ → Option Heap
set_prev h p v = elim (h p) [ none ↦ none | some c ↦ some (store h p (record c { prev = v })) ]

-- `node_create`, where `malloc` returns `a`
unfoldable pub node_create : Heap → ℕ → Heap
node_create h a = store h a (record { prev = none; next = none; data_of = 0 })

-- The loop of `node_push_back`, to the last node.
unfoldable pub last_node : ℕ → Heap → ℕ → Option ℕ
last_node zero h cur = none
last_node (suc fuel) h cur = elim (h cur) [
  | none ↦ none
  | some c ↦ elim c.next [ none ↦ some cur | some next ↦ last_node fuel h next ]
]

unfoldable pub node_push_back : ℕ → Heap → ℕ → ℕ → Option Heap
unfolding last_node
node_push_back fuel h head n = elim (last_node fuel h head) [
  | none ↦ none
  | some cur ↦ elim (set_next h cur (some n)) [ none ↦ none | some h' ↦ set_prev h' n (some cur) ]
]

-- `node_remove`: the heap, and the new value of `*head`.
unfoldable pub node_remove : Heap → Option ℕ → ℕ → Option (Heap × Option ℕ)
node_remove h head n = elim (h n) [
  | none ↦ none
  | some c ↦ elim c.next [
    | none ↦ elim c.prev [
      | none ↦ some (free h n, none)
      | some prev ↦ elim (set_next h prev none) [ none ↦ none | some h' ↦ some (free h' n, head) ]
    ]
    | some next ↦ elim c.prev [
      | none ↦ elim (set_prev h next none) [ none ↦ none | some h' ↦ some (free h' n, some next) ]
      | some prev ↦ elim (set_next h prev (some next)) [
        | none ↦ none
        | some h' ↦ elim (set_prev h' next (some prev)) [
          | none ↦ none
          | some h'' ↦ some (free h'' n, head)
        ]
      ]
    ]
  ]
]

-- The loop of `node_length`, from `walker` on.
unfoldable pub node_length : ℕ → Heap → Option ℕ → ℕ → Option ℕ
node_length fuel h none len = some len
node_length zero h (some walker) len = none
node_length (suc fuel) h (some walker) len = elim (h walker) [
  | none ↦ none
  | some c ↦ node_length fuel h c.next (len + 1)
]
