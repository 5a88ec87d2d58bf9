-- ===== src/Iface/Toggle/Cycle.antt =====
-- An interface that goes down and comes up again.
use osnt_plus.Prelude.{◌≡◌}
use osnt_plus.State.{IfaceEntry}
use osnt_plus.Pwospf.WellFormed.{WellFormed}
use osnt_plus.Iface.Toggle.Laws.{subnet_of}

-- An interface of the subnet has the mask of `iface`.
abbrev pub OneMask : IfaceEntry → IfaceEntry → Type 0
OneMask iface e = subnet_of e ≡ subnet_of iface → e.mask ≡ iface.mask
