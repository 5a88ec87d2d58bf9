-- ===== src/RTable/Ops.antt =====
-- The operations of scone/or_rtable.c that change the routing table. Each ends with
-- `trigger_rtable_modified`; `none` is the failed assertion of `getOneHotPortNumber`. The caller
-- holds the table's write lock.
pub mod Laws
use osnt_plus.Prelude.{
  ℕ, ◌+◌, Bool, true, false, ◌&&◌, Option, none, some, List, [], ◌∷◌, ◌++◌, ◌==◌, if◌then◌else◌,
  length,
}
use osnt_plus.Net.{strncpy, strncmp_eq}
use osnt_plus.State.{RtableEntry, RouterState}
use osnt_plus.RTable.{if_len, sort_rtable}
use osnt_plus.RTable.Hardware.{write_rtable_to_hw}

-- The new entry of `add_route`.
abbrev pub new_route : ℕ → ℕ → ℕ → List ℕ → RtableEntry
new_route dest gateway mask interface = record {
  ip = dest;
  gw = gateway;
  mask = mask;
  iface = strncpy interface if_len;
  is_static = true;
  is_active = true;
}

-- `del_route`'s test
abbrev pub same_route : ℕ → ℕ → RtableEntry → Bool
same_route dest mask e = dest == e.ip && mask == e.mask

-- The loop of `del_route`: what stays, and how many nodes were removed.
unfoldable pub del_loop : ℕ → ℕ → List RtableEntry → List RtableEntry × ℕ
del_loop dest mask [] = ([], 0)
del_loop dest mask (e ∷ n) =
    let (rest, removed) = del_loop dest mask n in
    if same_route dest mask e then (rest, removed + 1) else (e ∷ rest, removed)

-- `strncmp(entry->iface, interface, strlen(interface)) == 0`
abbrev pub on_iface : List ℕ → RtableEntry → Bool
on_iface interface e = strncmp_eq e.iface interface (length interface)

-- The loop of `deactivate_routes`: static routes are switched off, the others removed.
unfoldable pub deactivate_loop : List ℕ → List RtableEntry → List RtableEntry
deactivate_loop interface [] = []
deactivate_loop interface (e ∷ n) =
    let rest = deactivate_loop interface n in
    if on_iface interface e
    then if e.is_static then record e { is_active = false } ∷ rest else rest
    else e ∷ rest

-- The loop of `activate_routes`.
unfoldable pub activate_loop : List ℕ → List RtableEntry → List RtableEntry
activate_loop interface [] = []
activate_loop interface (e ∷ n) =
    (if on_iface interface e then record e { is_active = true } else e) ∷ activate_loop interface n

-- `width` and `address` are the constants of the TCAM in reg_defines.h.
module _ (width address : ℕ) where
  unfoldable pub trigger_rtable_modified : RouterState → Option RouterState
  trigger_rtable_modified rs =
      let sorted = sort_rtable rs.rtable in
      if rs.is_netfpga
      then elim (write_rtable_to_hw width address sorted rs.writes) [
        | none ↦ none
        | some log ↦ some (record rs { rtable = sorted; writes = log })
      ]
      else some (record rs { rtable = sorted })

  -- Returns 0 in every case.
  unfoldable pub add_route : RouterState → ℕ → ℕ → ℕ → List ℕ → Option RouterState
  add_route rs dest gateway mask interface =
      trigger_rtable_modified
        (record rs { rtable = rs.rtable ++ new_route dest gateway mask interface ∷ [] })

  -- Returns the number of removed routes.
  unfoldable pub del_route : RouterState → ℕ → ℕ → Option (RouterState × ℕ)
  del_route rs dest mask =
      let (rest, removed) = del_loop dest mask rs.rtable in
      elim (trigger_rtable_modified (record rs { rtable = rest })) [
        | none ↦ none
        | some rs' ↦ some (rs', removed)
      ]

  unfoldable pub deactivate_routes : RouterState → List ℕ → Option RouterState
  deactivate_routes rs interface =
      trigger_rtable_modified (record rs { rtable = deactivate_loop interface rs.rtable })

  unfoldable pub activate_routes : RouterState → List ℕ → Option RouterState
  activate_routes rs interface =
      trigger_rtable_modified (record rs { rtable = activate_loop interface rs.rtable })
