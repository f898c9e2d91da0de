-- ===== src/Roads/Selection/Prune/Assignments.antt =====
-- `prune_assignments` of handlers/roads/zoom_selection.py: `prune_layers` on the first zoom of each
-- edge.
use fwh_osm.Prelude.{
  ℕ, zero, suc, ◌+◌, ◌-◌, ◌≤◌, ◌≡◌, refl, true, Option, none, some, List, [], ◌∷◌, arith,
  if◌then◌else◌, leb, min, max, reversed, Option-cases,
}
use fwh_osm.Prelude.Table.{find, listed, has_number}
use fwh_osm.Roads.Graph.{RoadGraph}
use fwh_osm.Roads.Selection.Reveal.{assign_zoom, find-assign_zoom}
use fwh_osm.Roads.Selection.Prune.{prune_layers, zooms_of, sort_down}
use fwh_osm.Roads.Selection.Prune.Layers.{IsNested, IsRevealed, prune_layers-IsRevealed}

-- `{e for e, mz in assignments.items() if mz <= z}`
unfoldable pub edges_up_to : ℕ → List (ℕ × ℕ) → List ℕ
edges_up_to z [] = []
edges_up_to z ((e, mz) ∷ a) = let rest = edges_up_to z a in if leb mz z then e ∷ rest else rest

-- `min(min(zooms), 2)` and `max(max(zooms), 7)`
unfoldable pub lowest : List (ℕ × ℕ) → ℕ
lowest [] = 2
lowest ((_, mz) ∷ a) = min mz (lowest a)

unfoldable pub highest : List (ℕ × ℕ) → ℕ
highest [] = 7
highest ((_, mz) ∷ a) = max mz (highest a)

-- `n` numbers from `lo` on
unfoldable pub numbers_from : ℕ → ℕ → List ℕ
numbers_from lo zero = []
numbers_from lo (suc n) = lo ∷ numbers_from (suc lo) n

unfoldable pub layers_of : List (ℕ × ℕ) → List ℕ → List (ℕ × List ℕ)
unfolding edges_up_to
layers_of a [] = []
layers_of a (z ∷ zs) = (z, edges_up_to z a) ∷ layers_of a zs

-- `if eid not in out: out[eid] = z`, over these zooms
unfoldable pub assign_layers : List ℕ → List (ℕ × List ℕ) → List (ℕ × ℕ) → List (ℕ × ℕ)
unfolding assign_zoom listed
assign_layers [] kept_layers out = out
assign_layers (z ∷ zs) kept_layers out =
    assign_layers zs kept_layers (assign_zoom z (listed z kept_layers) out)

pub record Reassigned : Type 0 where
  pub out : List (ℕ × ℕ)
  pub dropped : ℕ
  pub dropped_m : ℕ

unfoldable pub prune_assignments : RoadGraph → List (ℕ × ℕ) → List (ℕ × List ℕ) → Option Reassigned
prune_assignments g assignments backbone_by_zoom =
    let lo = lowest assignments in
    let zs = numbers_from lo (highest assignments + 1 - lo) in
    elim (prune_layers g (layers_of assignments zs) backbone_by_zoom) [
      | none ↦ none
      | some r ↦ some (record {
        out = assign_layers (reversed (sort_down (zooms_of r.pruned))) r.pruned [];
        dropped = r.removed;
        dropped_m = r.dropped_m;
      })
    ]

edges_up_to_grows :
    (w z e : ℕ) (a : List (ℕ × ℕ))
    → w ≤ z
    → has_number e (edges_up_to w a) ≡ true
    → has_number e (edges_up_to z a) ≡ true
unfolding edges_up_to has_number
edges_up_to_grows w z e [] le h = h
edges_up_to_grows w z e ((k, mz) ∷ a) le h = ground (arith, edges_up_to_grows w z e a le)

listed-layers_of :
    (z : ℕ) (a : List (ℕ × ℕ)) (zs : List ℕ)
    → listed z (layers_of a zs) ≡ (if has_number z zs then edges_up_to z a else [])
unfolding layers_of listed has_number
listed-layers_of z a [] = refl
listed-layers_of z a (y ∷ zs) = ground (arith, listed-layers_of z a zs)

zooms_of-layers_of : (a : List (ℕ × ℕ)) (zs : List ℕ) → zooms_of (layers_of a zs) ≡ zs
unfolding layers_of
zooms_of-layers_of a [] = refl
zooms_of-layers_of a (z ∷ zs) = rw (zooms_of-layers_of a zs) refl

layers_of-IsNested : (a : List (ℕ × ℕ)) (zs : List ℕ) → IsNested (layers_of a zs)
unfolding has_number
layers_of-IsNested a zs w z key le e m = ground (
  arith,
  listed-layers_of w a zs,
  listed-layers_of z a zs,
  zooms_of-layers_of a zs,
  edges_up_to_grows w z e a le,
)

-- What is kept of a layer was in it.
listed-IsRevealed :
    (g : RoadGraph) (layers pruned : List (ℕ × List ℕ)) (z e : ℕ)
    → IsRevealed g layers pruned
    → has_number e (listed z pruned) ≡ true
    → has_number e (listed z layers) ≡ true
unfolding listed has_number
listed-IsRevealed g layers [] z e h m = absurd (ground arith)
listed-IsRevealed g layers ((y, shown) ∷ pruned) z e (within, _, _, h) m =
    ground (arith, within e, listed-IsRevealed g layers pruned z e h)

-- Each zoom is one at which the edge had been shown.
abbrev pub IsNoEarlier : List (ℕ × ℕ) → List (ℕ × ℕ) → Type 0
IsNoEarlier assignments out =
    (e z : ℕ) → find e out ≡ some z → has_number e (edges_up_to z assignments) ≡ true

assign_layers-IsNoEarlier :
    (a : List (ℕ × ℕ)) (zs : List ℕ) (kept_layers : List (ℕ × List ℕ)) (out : List (ℕ × ℕ))
    → ((z e : ℕ)
        → has_number e (listed z kept_layers) ≡ true
        → has_number e (edges_up_to z a) ≡ true)
    → IsNoEarlier a out
    → IsNoEarlier a (assign_layers zs kept_layers out)
unfolding assign_layers
assign_layers-IsNoEarlier a [] kept_layers out within h = h
assign_layers-IsNoEarlier a (z ∷ zs) kept_layers out within h =
    assign_layers-IsNoEarlier a zs kept_layers (assign_zoom z (listed z kept_layers) out) within
      (λ e y at. ground (
        arith,
        within z e,
        h e y,
        find-assign_zoom e z (listed z kept_layers) out,
        Option-cases (find e out),
      ))

-- `prune_assignments` ends without an error, and it reveals no edge at a zoom below the one that it was
-- assigned to, nor an edge that had no zoom.
pub prune_assignments-IsNoEarlier :
    (g : RoadGraph) (assignments : List (ℕ × ℕ)) (backbone_by_zoom : List (ℕ × List ℕ))
    → (r : Reassigned) × (prune_assignments g assignments backbone_by_zoom ≡ some r)
      × IsNoEarlier assignments r.out
unfolding prune_assignments find has_number
prune_assignments-IsNoEarlier g a backbone =
    let zs = numbers_from (lowest a) (highest a + 1 - lowest a) in
    let layers = layers_of a zs in
    let (r, runs, _, revealed, _) =
      prune_layers-IsRevealed g layers backbone (layers_of-IsNested a zs) in
    let up = reversed (sort_down (zooms_of r.pruned)) in
    (
      record { out = assign_layers up r.pruned []; dropped = r.removed; dropped_m = r.dropped_m },
      rw (prune_assignments, runs) refl,
      assign_layers-IsNoEarlier a up r.pruned []
          (λ z e m.
            ground
              (arith, listed-IsRevealed g layers r.pruned z e revealed m, listed-layers_of z a zs))
          (λ e z at. absurd (ground arith)),
    )
