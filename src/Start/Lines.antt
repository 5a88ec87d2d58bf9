-- ===== src/Start/Lines.antt =====
-- The lines of the file of routes, as `init_rtable` reads them.
use osnt_plus.Prelude.{
  ◌≡◌, refl, sym, ◌∙◌, inl, inr, Bool, true, false, ◌||◌, ◌&&◌, ◌==◌, ap, none, some, List, [], ◌∷◌,
  ◌++◌, map, Bool-cases, bit_and,
}
use mathlib.Core.List.{append-nil, append_assoc}
use osnt_plus.State.{RtableEntry, PwospfInterface}
use osnt_plus.Start.{RtableLine, line_route, read_lines, default_route_present}

-- A line of the file for the default route, 0.0.0.0/0
unfoldable pub has_default : List RtableLine → Bool
has_default [] = false
has_default (line ∷ n) = (line.ip == 0 && line.mask == 0) || has_default n

pub read_lines_lem :
    (lines : List RtableLine) (rtable : List RtableEntry)
    → read_lines (map some lines) rtable ≡ some (rtable ++ map line_route lines)
unfolding read_lines
read_lines_lem [] rtable = rw append-nil refl
read_lines_lem (line ∷ n) rtable =
    read_lines_lem n (rtable ++ line_route line ∷ [])
    ∙ ap some (append_assoc rtable (line_route line ∷ []) (map line_route n))

clash : true ≡ false → ⊥
clash e = cc

pub default_route_missing :
    (lines : List RtableLine)
    → has_default lines ≡ false
    → default_route_present (map line_route lines) ≡ none
unfolding has_default default_route_present
default_route_missing [] h = refl
default_route_missing (line ∷ n) h = elim (Bool-cases (line.ip == 0 && line.mask == 0)) [
  | inl e ↦ absurd (clash (rw e at h))
  | inr e ↦ rw e (default_route_missing n (rw e at h))
]

pub default_route_found :
    (lines : List RtableLine)
    → has_default lines ≡ true
    → (pi : PwospfInterface) × (default_route_present (map line_route lines) ≡ some pi)
unfolding has_default default_route_present
default_route_found [] h = absurd (clash (sym h))
default_route_found (line ∷ n) h = elim (Bool-cases (line.ip == 0 && line.mask == 0)) [
  | inl e ↦ (
    record {
      subnet = bit_and line.ip line.mask;
      mask = line.mask;
      router_id = 0;
      is_active = false;
    },
    rw e refl,
  )
  | inr e ↦ let (pi, found) = default_route_found n (rw e at h) in (pi, rw e found)
]
