-- ===== src/Roads/Selection/Greedy/Shown.antt =====
-- What `select_edges` shows at a zoom: the skeleton in full, and beside it only edges that reach the
-- floor of the zoom, or that bridge a gap in a numbered route.
use fwh_osm.Prelude.{
  ℕ, ◌≡◌, refl, ◌⊎◌, Bool, true, false, ◌&&◌, some, List, [], ◌∷◌, arith, String, leb, is_some,
  keep, has_name, All, All-imp, All-keep, Bool-cases, inl, inr,
}
use fwh_osm.Prelude.Table.{find, listed, find_or}
use fwh_osm.Prelude.Sets.{union, has_number-union, IsSubset}
use fwh_osm.Prelude.Text.{Text}
use fwh_osm.Roads.Graph.{LogicalEdge, RoadGraph}
use fwh_osm.Roads.Graph.Built.{IsSound}
use fwh_osm.Roads.Ways.{fc_scores}
use fwh_osm.Roads.Selection.Backbone.Repairs.{IsAdmitted, backbone_repair-IsAdmitted}
use fwh_osm.Roads.Selection.Corridors.Partition.{
  IsStored, append_key-IsStored, build_corridors-total,
}
use fwh_osm.Roads.Selection.Bridge.{fc_order, allowed_classes, ref_tokens, add_tokens, edges_by_ref}
use fwh_osm.Roads.Selection.Bridge.Gaps.{IsOfClass, bridge_route_gaps-IsOfClass}
use fwh_osm.Roads.Selection.Cells.{Kilometres, Budget, Setting, Chosen, corridor_score, sort_by}
use fwh_osm.Roads.Selection.Greedy.{
  skeleton_fcs, add_skeleton, eligible, admit_corridors, admit_edges, sparse_floor,
}
use fwh_osm.Roads.Selection.Greedy.Zooms.{
  min_fc_by_zoom, corridor_table, Layer, greedy, select_zoom, setting_of, select_zooms, zoom_range,
  select_edges,
}
use fwh_osm.Roads.Selection.Greedy.Admits.{
  All-partition, sort_by-All, union-All, union-IsSubset, Grows, eligible-IsAdmitted,
  admit_corridors-Grows, admit_edges-Grows, IsTable, corridor_table-IsTable, sparse_floor-Grows,
}

-- Every edge of the list is the one that is stored under its id.
abbrev pub IsIndexed : RoadGraph → List LogicalEdge → Type 0
IsIndexed g = All (λ (e : LogicalEdge). find e.edge_id g.edge_by_id ≡ some e)

-- A stored edge that reaches the floor, or one of a class that may bridge a gap at it.
abbrev pub IsShown : RoadGraph → ℕ → String → ℕ → Type 0
IsShown g fc_floor floor_fc eid =
    IsAdmitted g fc_floor eid ⊎ IsOfClass g (allowed_classes floor_fc fc_order) eid

pub record IsLayer (g : RoadGraph) (fc_floor : ℕ) (floor_fc : String) (layer : Layer) : Type 0 where
  pub shown : All (IsShown g fc_floor floor_fc) layer.selected
  pub skeleton : IsSubset (add_skeleton fc_floor g.edges) layer.selected
  pub backbone : All (IsAdmitted g fc_floor) layer.backbone_added
  pub kept : IsSubset layer.backbone_added layer.selected

-- The layers of these zooms, in this order.
abbrev pub IsLayers : RoadGraph → List ℕ → List (ℕ × Layer) → Type 0
IsLayers g [] [] = Unit
IsLayers g (z ∷ zs) ((y, layer) ∷ layers) =
    (y ≡ z)
    × (IsLayer g (find_or 0 (min_fc_by_zoom z) fc_scores) (min_fc_by_zoom z) layer
        × IsLayers g zs layers)
IsLayers g _ _ = ⊥

add_skeleton-IsAdmitted :
    (g : RoadGraph) (fc_floor : ℕ) (es : List LogicalEdge)
    → IsIndexed g es
    → All (IsAdmitted g fc_floor) (add_skeleton fc_floor es)
unfolding add_skeleton
add_skeleton-IsAdmitted g fc_floor [] h = tt
add_skeleton-IsAdmitted g fc_floor (e ∷ es) (at, h) =
    let rest = add_skeleton-IsAdmitted g fc_floor es h in
    elim (Bool-cases (has_name e.fc skeleton_fcs && leb fc_floor e.fc_score)) [
      | inl goes ↦ rw (add_skeleton, goes) ((e, at, ground arith), rest)
      | inr skip ↦ rw (add_skeleton, skip) rest
    ]

module _ (g : RoadGraph) where
  abbrev AllStored : List (Text × List ℕ) → Type 0
  AllStored = All (λ (p : Text × List ℕ). All (IsStored g) p.1)

  add_tokens-IsStored :
      (eid : ℕ) (tokens : List Text) (t : List (Text × List ℕ))
      → IsStored g eid
      → AllStored t
      → AllStored (add_tokens eid tokens t)
  unfolding add_tokens
  add_tokens-IsStored eid [] t s h = h
  add_tokens-IsStored eid (token ∷ tokens) t s h =
      add_tokens-IsStored eid tokens _ s (append_key-IsStored g eid token t s h)

  edges_by_ref-IsStored :
      (es : List LogicalEdge) (t : List (Text × List ℕ))
      → IsIndexed g es
      → AllStored t
      → AllStored (edges_by_ref es t)
  unfolding edges_by_ref
  edges_by_ref-IsStored [] t h k = k
  edges_by_ref-IsStored (e ∷ es) t (at, h) k =
      edges_by_ref-IsStored es (add_tokens e.edge_id (ref_tokens e.ref) t) h
        (add_tokens-IsStored e.edge_id (ref_tokens e.ref) t (e, at) k)

module _ {F : Type 0} (o : Kilometres F) (g : RoadGraph) (sample : List ℕ → List ℕ) where
  abbrev Start : List ℕ → Chosen F
  Start skeleton = record { selected = skeleton; cell_used_km = [] }

  greedy-Grows :
      (by_corridor : Bool) (s : Setting F) (skeleton : List ℕ)
      → (c : Chosen F) × (corridor_of : List (ℕ × List ℕ)) × (greedy o g sample by_corridor s
            skeleton
          ≡ some (c, corridor_of))
        × Grows (IsAdmitted g s.fc_floor) (Start skeleton) c
        × IsTable o g s corridor_of
  unfolding greedy find
  greedy-Grows false s skeleton = (
    admit_edges o g s (sort_by o (λ p. p.1) s.z_scores) (Start skeleton),
    [],
    refl,
    admit_edges-Grows o g s (sort_by o (λ p. p.1) s.z_scores) (Start skeleton),
    λ eid es at. absurd (ground arith),
  )
  greedy-Grows true s skeleton =
      let ids = eligible o g s skeleton s.z_scores in
      let (corridors, builds, same) = build_corridors-total g ids in
      let stored = keep (λ eid. is_some (find eid g.edge_by_id)) ids in
      let P = IsAdmitted g s.fc_floor in
      let good = All-partition P corridors stored same (
        All-keep P (λ eid. is_some (find eid g.edge_by_id)) ids
          (eligible-IsAdmitted o g s skeleton s.z_scores)) in
      let sorted = sort_by o (corridor_score o g s.z_scores) corridors in
      (
        admit_corridors o g s sorted (Start skeleton),
        corridor_table corridors [],
        rw (greedy, builds) refl,
        admit_corridors-Grows o g s sorted (Start skeleton)
            (sort_by-All o (corridor_score o g s.z_scores) (All P) corridors good),
        corridor_table-IsTable o g s corridors [] good (λ eid es at. absurd (ground arith)),
      )

  select_zoom-IsLayer :
      (by_corridor : Bool) (s : Setting F) (floor_fc : String) (anchors : List ℕ)
      → IsSound g
      → IsIndexed g g.edges
      → (layer : Layer) × (select_zoom o g sample by_corridor s floor_fc anchors ≡ some layer)
        × IsLayer g s.fc_floor floor_fc layer
  unfolding select_zoom
  select_zoom-IsLayer by_corridor s floor_fc anchors sound indexed =
      let P = IsAdmitted g s.fc_floor in
      let skeleton = add_skeleton s.fc_floor g.edges in
      let whole = add_skeleton-IsAdmitted g s.fc_floor g.edges indexed in
      let (c, corridor_of, first, grown, table) = greedy-Grows by_corridor s skeleton in
      let (added, repairs, admitted) =
        backbone_repair-IsAdmitted g c.selected anchors (sample anchors) s.fc_floor sound in
      let c1 : Chosen F = record c { selected = union c.selected added } in
      let candidates = sort_by o (λ p. p.1) s.z_scores in
      let full = sparse_floor o g s corridor_of candidates s.z_budgets c1 in
      let padded = sparse_floor-Grows o g s corridor_of candidates s.z_budgets c1 table in
      let (bridged, bridges, classes) =
        bridge_route_gaps-IsOfClass g full.selected floor_fc (edges_by_ref g.edges [])
          (edges_by_ref-IsStored g g.edges [] indexed tt) in
      let Q = IsShown g s.fc_floor floor_fc in
      let reach = padded.holds (union-All P c.selected added (grown.holds whole) admitted) in
      (
        record { selected = union full.selected bridged; backbone_added = added },
        rw (select_zoom, first, repairs, bridges) refl,
        record {
          shown =
              union-All Q full.selected bridged (All-imp P Q full.selected (λ n h. inl h) reach) (
                All-imp (IsOfClass g (allowed_classes floor_fc fc_order)) Q bridged (λ n h. inr h)
                  classes);
          skeleton = λ n h.
              union-IsSubset full.selected bridged n
                (padded.keeps n (union-IsSubset c.selected added n (grown.keeps n h)));
          backbone = admitted;
          kept = λ n h.
              union-IsSubset full.selected bridged n
                (padded.keeps n (ground (arith, has_number-union n c.selected added)));
        },
      )

  select_zooms-IsLayers :
      (by_corridor : Bool) (edge_cells : List (ℕ × List ℕ)) (overdraft : F)
      (scores : List (ℕ × List (ℕ × F))) (budgets : List (ℕ × List (ℕ × Budget F)))
      (anchors : List (ℕ × List ℕ)) (zs : List ℕ)
      → IsSound g
      → IsIndexed g g.edges
      → (layers : List (ℕ × Layer)) × (select_zooms o g sample by_corridor
            (setting_of o g sample edge_cells overdraft scores budgets)
            anchors
            zs
          ≡ some layers)
        × IsLayers g zs layers
  unfolding select_zooms
  select_zooms-IsLayers by_corridor edge_cells overdraft scores budgets anchors [] sound indexed =
      ([], refl, tt)
  select_zooms-IsLayers by_corridor edge_cells overdraft scores budgets anchors (z ∷ zs) sound
        indexed =
      let settings = setting_of o g sample edge_cells overdraft scores budgets in
      let (layer, one, h) =
        select_zoom-IsLayer by_corridor (settings z) (min_fc_by_zoom z) (listed z anchors) sound
          indexed in
      let (layers, others, hs) =
        select_zooms-IsLayers by_corridor edge_cells overdraft scores budgets anchors zs sound
          indexed in
      ((z, layer) ∷ layers, rw (select_zooms, one, others) refl, (refl, (h, hs)))

-- In a sound graph whose edges are all stored, `select_edges` ends without an error, whichever way
-- the corridors are chosen, whatever the floats do and whatever the sample of the anchors is. For
-- each zoom from 2 to 7 its layer holds the motorways and trunk roads that reach the floor, and what
-- the repair of the backbone added; each of its edges is stored, and it reaches the score of the
-- floor or its class is one that may bridge a gap at this zoom.
pub select_edges-IsLayers :
    {F : Type 0} (o : Kilometres F) (g : RoadGraph) (sample : List ℕ → List ℕ) (by_corridor : Bool)
    (edge_cells : List (ℕ × List ℕ)) (overdraft : F) (scores : List (ℕ × List (ℕ × F)))
    (budgets : List (ℕ × List (ℕ × Budget F))) (anchors : List (ℕ × List ℕ))
    → IsSound g
    → IsIndexed g g.edges
    → (layers : List (ℕ × Layer)) × (select_edges o g sample by_corridor edge_cells overdraft scores
          budgets anchors
        ≡ some layers)
      × IsLayers g zoom_range layers
unfolding select_edges
select_edges-IsLayers o g sample by_corridor edge_cells overdraft scores budgets anchors sound
      indexed =
    select_zooms-IsLayers o g sample by_corridor edge_cells overdraft scores budgets anchors
      zoom_range sound indexed
