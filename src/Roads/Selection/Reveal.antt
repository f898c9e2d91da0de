-- ===== src/Roads/Selection/Reveal.antt =====
-- `enforce_monotonic_reveal` of handlers/roads/zoom_selection.py: what is shown at a zoom stays shown.
use fwh_osm.Prelude.{
  ℕ, ◌≡◌, ◌∙◌, Option, none, some, List, [], ◌∷◌, arith, if◌then◌else◌, is_some, Option-cases,
  Bool-cases,
}
use fwh_osm.Prelude.Table.{find, put, find-put, listed, has_number}
use fwh_osm.Prelude.Sets.{union, has_number-union}

abbrev pub later_zooms : List ℕ
later_zooms = 3 ∷ 4 ∷ 5 ∷ 6 ∷ 7 ∷ []

-- `cumulative[z]`, for the zooms `zs` that follow the one shown as `before`
unfoldable pub cumulative_from : List ℕ → List ℕ → List (ℕ × List ℕ) → List (ℕ × List ℕ)
unfolding union listed
cumulative_from before [] selected = []
cumulative_from before (z ∷ zs) selected =
    let shown = union (listed z selected) before in (z, shown) ∷ cumulative_from shown zs selected

unfoldable pub cumulative : List (ℕ × List ℕ) → List (ℕ × List ℕ)
unfolding cumulative_from
cumulative selected =
    (2, listed 2 selected) ∷ cumulative_from (listed 2 selected) later_zooms selected

-- `if eid not in assignments: assignments[eid] = z`, for the edges of one zoom
unfoldable pub assign_zoom : ℕ → List ℕ → List (ℕ × ℕ) → List (ℕ × ℕ)
unfolding find put
assign_zoom z [] assignments = assignments
assign_zoom z (eid ∷ eids) assignments =
    assign_zoom z eids
      (if is_some (find eid assignments) then assignments else put eid z assignments)

unfoldable pub assign_all : List (ℕ × List ℕ) → List (ℕ × ℕ) → List (ℕ × ℕ)
unfolding assign_zoom
assign_all [] assignments = assignments
assign_all ((z, eids) ∷ layers) assignments = assign_all layers (assign_zoom z eids assignments)

unfoldable pub enforce_monotonic_reveal : List (ℕ × List ℕ) → List (ℕ × ℕ)
unfolding cumulative assign_all
enforce_monotonic_reveal selected = assign_all (cumulative selected) []

-- The first of the zooms at which an edge was selected.
abbrev pub first_zoom : ℕ → List (ℕ × List ℕ) → List ℕ → Option ℕ
first_zoom eid selected [] = none
first_zoom eid selected (z ∷ zs) =
    if has_number eid (listed z selected) then some z else first_zoom eid selected zs

abbrev pub or_else : Option ℕ → Option ℕ → Option ℕ
or_else (some z) o = some z
or_else none o = o

pub find-assign_zoom :
    (eid z : ℕ) (eids : List ℕ) (a : List (ℕ × ℕ))
    → find eid (assign_zoom z eids a)
      ≡ or_else (find eid a) (if has_number eid eids then some z else none)
unfolding assign_zoom has_number
find-assign_zoom eid z [] a = ground (arith, Option-cases (find eid a))
find-assign_zoom eid z (e ∷ eids) a = ground (
  arith,
  find-assign_zoom eid z eids (if is_some (find e a) then a else put e z a),
  find-put e eid z a,
  Option-cases (find eid a),
)

-- Where the edges of the zooms before are assigned, the others get their first zoom.
find-assign_all :
    (eid : ℕ) (before zs : List ℕ) (selected : List (ℕ × List ℕ)) (a : List (ℕ × ℕ))
    → has_number eid before ≡ is_some (find eid a)
    → find eid (assign_all (cumulative_from before zs selected) a)
      ≡ or_else (find eid a) (first_zoom eid selected zs)
unfolding assign_all cumulative_from
find-assign_all eid before [] selected a h = ground (arith, Option-cases (find eid a))
find-assign_all eid before (z ∷ zs) selected a h =
    let shown = union (listed z selected) before in
    let one = find-assign_zoom eid z shown a in
    let held = has_number-union eid (listed z selected) before in
    let kept : has_number eid shown ≡ is_some (find eid (assign_zoom z shown a)) =
      ground (arith, Option-cases (find eid a)) in
    let rest = find-assign_all eid shown zs selected (assign_zoom z shown a) kept in
    ground (arith, Option-cases (find eid a))

-- The zoom of an edge is the first from 2 to 7 at which it was selected, and an edge that was
-- selected at none of them has no zoom.
pub enforce_monotonic_reveal-first_zoom :
    (eid : ℕ) (selected : List (ℕ × List ℕ))
    → find eid (enforce_monotonic_reveal selected) ≡ first_zoom eid selected (2 ∷ later_zooms)
unfolding enforce_monotonic_reveal find
enforce_monotonic_reveal-first_zoom eid selected =
    let first = listed 2 selected in
    let a = assign_zoom 2 first [] in
    let one = find-assign_zoom eid 2 first [] in
    let rest =
      find-assign_all eid first later_zooms selected a
        (ground (arith, Bool-cases (has_number eid first))) in
    rest ∙ ground (arith, Bool-cases (has_number eid first))
