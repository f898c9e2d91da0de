-- ===== src/Roads/Selection/Greedy/Zooms.antt =====
-- `select_edges` of handlers/roads/zoom_selection.py: one zoom after the other. The table of the cells
-- of each edge is the one of the H3 library, and `sample` stands for the sample of the anchors that a
-- random generator with a fixed seed takes.
use fwh_osm.Prelude.{ℕ, Bool, true, false, Option, none, some, List, [], ◌∷◌, String}
use fwh_osm.Prelude.Table.{find, put, listed, find_or}
use fwh_osm.Prelude.Sets.{union}
use fwh_osm.Roads.Graph.{RoadGraph}
use fwh_osm.Roads.Ways.{fc_scores}
use fwh_osm.Roads.Selection.Backbone.{backbone_repair}
use fwh_osm.Roads.Selection.Corridors.{build_corridors}
use fwh_osm.Roads.Selection.Bridge.{edges_by_ref, bridge_route_gaps}
use fwh_osm.Roads.Selection.Cells.{Kilometres, Budget, Setting, Chosen, corridor_score, sort_by}
use fwh_osm.Roads.Selection.Greedy.{
  add_skeleton, eligible, admit_corridors, admit_edges, sparse_floor,
}

-- `MIN_FC_BY_ZOOM`, and `BASE_KM` and `MIN_KM` in thousandths
abbrev min_fcs : List (ℕ × String)
min_fcs =
    (2, "motorway")
    ∷ (3, "trunk")
    ∷ (4, "primary")
    ∷ (5, "secondary")
    ∷ (6, "tertiary")
    ∷ (7, "unclassified")
    ∷ []

abbrev base_kms : List (ℕ × ℕ)
base_kms = (2, 1_000) ∷ (3, 1_500) ∷ (4, 2_500) ∷ (5, 4_000) ∷ (6, 7_000) ∷ (7, 12_000) ∷ []

abbrev min_kms : List (ℕ × ℕ)
min_kms = (2, 200) ∷ (3, 300) ∷ (4, 500) ∷ (5, 800) ∷ (6, 1_500) ∷ (7, 2_500) ∷ []

-- `MIN_FC_BY_ZOOM.get(z, "unclassified")`
unfoldable pub min_fc_by_zoom : ℕ → String
unfolding find
min_fc_by_zoom z = elim (find z min_fcs) [ none ↦ "unclassified" | some fc ↦ fc ]

-- `BASE_KM.get(z, 500.0)`
unfoldable pub base_km_of : ℕ → ℕ
unfolding find
base_km_of z = elim (find z base_kms) [ none ↦ 500_000 | some km ↦ km ]

-- `MIN_KM.get(z, 10.0)`
unfoldable pub min_km_of : ℕ → ℕ
unfolding find
min_km_of z = elim (find z min_kms) [ none ↦ 10_000 | some km ↦ km ]

-- `corridor_of[eid] = corridor`
unfoldable pub corridor_of_edges : List ℕ → List ℕ → List (ℕ × List ℕ) → List (ℕ × List ℕ)
unfolding put
corridor_of_edges corridor [] t = t
corridor_of_edges corridor (eid ∷ eids) t = corridor_of_edges corridor eids (put eid corridor t)

unfoldable pub corridor_table : List (List ℕ) → List (ℕ × List ℕ) → List (ℕ × List ℕ)
unfolding corridor_of_edges
corridor_table [] t = t
corridor_table (corridor ∷ corridors) t =
    corridor_table corridors (corridor_of_edges corridor corridor t)

-- `selected_by_zoom[z]` and `backbone_out[z]`
pub record Layer : Type 0 where
  pub selected : List ℕ
  pub backbone_added : List ℕ

-- `range(2, 8)`
abbrev pub zoom_range : List ℕ
zoom_range = 2 ∷ 3 ∷ 4 ∷ 5 ∷ 6 ∷ 7 ∷ []

module _ {F : Type 0} (o : Kilometres F) (g : RoadGraph) (sample : List ℕ → List ℕ) where
  -- The first pass of a zoom, and the corridor of each edge. `by_corridor` is `CORRIDOR_SELECTION`.
  unfoldable pub greedy : Bool → Setting F → List ℕ → Option (Chosen F × List (ℕ × List ℕ))
  greedy by_corridor s skeleton =
      let c : Chosen F = record { selected = skeleton; cell_used_km = [] } in
      elim by_corridor [
        | true ↦ elim (build_corridors g (eligible o g s skeleton s.z_scores)) [
          | none ↦ none
          | some corridors ↦ some (
            admit_corridors o g s (sort_by o (corridor_score o g s.z_scores) corridors) c,
            corridor_table corridors [],
          )
        ]
        | false ↦ some (admit_edges o g s (sort_by o (λ p. p.1) s.z_scores) c, [])
      ]

  unfoldable pub select_zoom : Bool → Setting F → String → List ℕ → Option Layer
  select_zoom by_corridor s floor_fc anchors =
      elim (greedy by_corridor s (add_skeleton s.fc_floor g.edges)) [
        | none ↦ none
        | some (c, corridor_of) ↦
            elim (backbone_repair g c.selected anchors (sample anchors) s.fc_floor) [
              | none ↦ none
              | some added ↦
                  let full =
                    sparse_floor o g s corridor_of (sort_by o (λ p. p.1) s.z_scores) s.z_budgets
                      (record c { selected = union c.selected added }) in
                  elim (bridge_route_gaps g full.selected floor_fc (edges_by_ref g.edges [])) [
                    | none ↦ none
                    | some bridged ↦
                        some (record {
                          selected = union full.selected bridged;
                          backbone_added = added;
                        })
                  ]
            ]
      ]

  abbrev pub setting_of :
      List (ℕ × List ℕ)
      → F
      → List (ℕ × List (ℕ × F))
      → List (ℕ × List (ℕ × Budget F))
      → ℕ
      → Setting F
  setting_of edge_cells overdraft scores budgets z = record {
    edge_cells = edge_cells;
    z_scores = listed z scores;
    z_budgets = listed z budgets;
    base_km = o.of_milli (base_km_of z);
    min_km = o.of_milli (min_km_of z);
    fc_floor = find_or 0 (min_fc_by_zoom z) fc_scores;
    overdraft = overdraft;
  }

  unfoldable pub select_zooms :
      Bool → (ℕ → Setting F) → List (ℕ × List ℕ) → List ℕ → Option (List (ℕ × Layer))
  select_zooms by_corridor settings anchors [] = some []
  select_zooms by_corridor settings anchors (z ∷ zs) =
      let rest = select_zooms by_corridor settings anchors zs in
      elim (select_zoom by_corridor (settings z) (min_fc_by_zoom z) (listed z anchors)) [
        | none ↦ none
        | some layer ↦ elim rest [ none ↦ none | some layers ↦ some ((z, layer) ∷ layers) ]
      ]

  unfoldable pub select_edges :
      Bool
      → List (ℕ × List ℕ)
      → F
      → List (ℕ × List (ℕ × F))
      → List (ℕ × List (ℕ × Budget F))
      → List (ℕ × List ℕ)
      → Option (List (ℕ × Layer))
  select_edges by_corridor edge_cells overdraft scores budgets anchors =
      select_zooms by_corridor (setting_of edge_cells overdraft scores budgets) anchors zoom_range
