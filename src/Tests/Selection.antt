-- ===== src/Tests/Selection.antt =====
-- A trunk road with an island and a stub, over the zooms.
use fwh_osm.Prelude.{
  ℕ, ◌+◌, ◌*◌, ◌/◌, ◌==◌, ltb, leb, keep, is_some, true, ◌≡◌, refl, arith, false, some, List, [],
  ◌∷◌, String,
}
use fwh_osm.Prelude.Table.{find, put, listed, has_number}
use fwh_osm.Prelude.Sets.{count}
use fwh_osm.Roads.Graph.{LogicalEdge, RoadGraph, new_graph, add_edge}
use fwh_osm.Roads.Graph.Built.{IsSound, new_graph-IsSound, add_edge-IsSound}
use fwh_osm.Roads.Selection.Reveal.{
  enforce_monotonic_reveal, first_zoom, later_zooms, enforce_monotonic_reveal-first_zoom,
}
use fwh_osm.Roads.Selection.Prune.{
  Kept, Layered, prune_fragments, prune_layers, removed_from, total_m, prune_down, sort_down,
  sub_adjacency, pieces_from, drop_pieces, group_edges, ferries, zooms_of,
}
use fwh_osm.Roads.Selection.Prune.Whole.{IsPruned, prune_fragments-IsPruned}
use fwh_osm.Roads.Selection.Prune.Dropped.{IsExplained}
use fwh_osm.Roads.Selection.Prune.Layers.{IsNested, IsRevealed, prune_layers-IsRevealed}
use fwh_osm.Roads.Selection.Prune.Assignments.{
  prune_assignments, edges_up_to, lowest, highest, numbers_from, layers_of, assign_layers,
}
use fwh_osm.Roads.Selection.Corridors.{build_corridors}
use fwh_osm.Roads.Selection.Corridors.Partition.{total, build_corridors-total}
use fwh_osm.Roads.Selection.Cells.{Kilometres, Budget}
use fwh_osm.Roads.Selection.Greedy.Zooms.{Layer, zoom_range, select_edges}
use fwh_osm.Roads.Selection.Greedy.Shown.{IsIndexed, IsLayers, select_edges-IsLayers}

road : ℕ → ℕ → ℕ → ℕ → String → ℕ → LogicalEdge
road id a b len fc score = record {
  edge_id = id;
  from_node = a;
  to_node = b;
  osm_way_ids = id ∷ [];
  coords = [];
  length_m = len;
  fc = fc;
  fc_score = score;
  ref = "";
  name = "";
  maxspeed = 0;
  lanes = 0;
  bridge = false;
  tunnel = false;
  oneway = false;
  surface_unpaved = false;
}

-- 1 - 2 is a trunk road of three kilometres; 3 - 4 a stub that a lesser road continues to 2.
abbrev network : RoadGraph
network =
    add_edge
      (add_edge (add_edge new_graph (road 0 1 2 3000 "trunk" 88)) (road 1 3 4 200 "trunk" 88))
      (road 2 4 2 900 "tertiary" 45)

network-IsSound : IsSound network
unfolding road add_edge find put
network-IsSound =
    add_edge-IsSound
      (add_edge (add_edge new_graph (road 0 1 2 3000 "trunk" 88)) (road 1 3 4 200 "trunk" 88))
      (road 2 4 2 900 "tertiary" 45) refl
      (add_edge-IsSound (add_edge new_graph (road 0 1 2 3000 "trunk" 88))
        (road 1 3 4 200 "trunk" 88) refl
        (add_edge-IsSound new_graph (road 0 1 2 3000 "trunk" 88) refl new_graph-IsSound))

stub_dropped :
    prune_fragments network (0 ∷ 1 ∷ []) 3 []
    ≡ some (record { kept = 0 ∷ []; dropped = 1; dropped_m = 200 })
unfolding prune_fragments sub_adjacency pieces_from drop_pieces group_edges road add_edge
stub_dropped = refl

prune_fragments-IsPruned_example :
    (k : Kept) × (prune_fragments network (0 ∷ 1 ∷ []) 3 [] ≡ some k)
    × IsPruned network (0 ∷ 1 ∷ []) [] k
prune_fragments-IsPruned_example = prune_fragments-IsPruned network (0 ∷ 1 ∷ []) 3 []

enforce_monotonic_reveal-first_zoom_example :
    find 1 (enforce_monotonic_reveal ((2, 0 ∷ []) ∷ (4, 1 ∷ []) ∷ (5, 1 ∷ 2 ∷ []) ∷ []))
    ≡ first_zoom 1 ((2, 0 ∷ []) ∷ (4, 1 ∷ []) ∷ (5, 1 ∷ 2 ∷ []) ∷ []) (2 ∷ later_zooms)
enforce_monotonic_reveal-first_zoom_example =
    enforce_monotonic_reveal-first_zoom 1 ((2, 0 ∷ []) ∷ (4, 1 ∷ []) ∷ (5, 1 ∷ 2 ∷ []) ∷ [])

abbrev layers : List (ℕ × List ℕ)
layers = (3, 0 ∷ 1 ∷ []) ∷ (6, 0 ∷ 1 ∷ 2 ∷ []) ∷ []

layers-IsNested : IsNested layers
unfolding listed has_number
layers-IsNested w z key le n m = ground arith

prune_layers-IsRevealed_example :
    (r : Layered) × (prune_layers network layers [] ≡ some r)
    × ((z : ℕ) → count z (zooms_of r.pruned) ≡ count z (zooms_of layers))
    × IsRevealed network layers r.pruned
    × IsExplained network layers [] r.pruned
prune_layers-IsRevealed_example = prune_layers-IsRevealed network layers [] layers-IsNested

build_corridors-total_example :
    (corridors : List (List ℕ)) × (build_corridors network (2 ∷ 0 ∷ 1 ∷ 9 ∷ []) ≡ some corridors)
    × ((id : ℕ)
        → total id corridors
          ≡ count id (keep (λ eid. is_some (find eid network.edge_by_id)) (2 ∷ 0 ∷ 1 ∷ 9 ∷ [])))
build_corridors-total_example = build_corridors-total network (2 ∷ 0 ∷ 1 ∷ 9 ∷ [])

-- Kilometres in whole metres.
abbrev metres : Kilometres ℕ
metres = record {
  nothing = 0;
  plus = λ a b. a + b;
  times = λ a b. a * b;
  over = λ a b. a / b;
  is_zero = λ a. a == 0;
  less = λ a b. ltb a b;
  at_most = λ a b. leb a b;
  km_of = λ m. m;
  of_milli = λ m. m;
  of_number = λ n. n;
}

network-IsIndexed : IsIndexed network network.edges
unfolding road add_edge find put
network-IsIndexed = (refl, (refl, (refl, tt)))

abbrev cells_of : List (ℕ × List ℕ)
cells_of = (0, 1 ∷ []) ∷ (1, 1 ∷ []) ∷ (2, 1 ∷ 2 ∷ []) ∷ []

abbrev scores_of : List (ℕ × List (ℕ × ℕ))
scores_of = (3, (0, 90) ∷ (1, 80) ∷ (2, 40) ∷ []) ∷ (6, (2, 50) ∷ (0, 90) ∷ []) ∷ []

abbrev budgets_of : List (ℕ × List (ℕ × Budget ℕ))
budgets_of = (6, (2, record { budget_km = some 100; anchor_count = 1 }) ∷ []) ∷ []

select_edges-IsLayers_example :
    (layers : List (ℕ × Layer)) × (select_edges metres network
        (λ anchors. anchors)
        true
        cells_of
        250
        scores_of
        budgets_of
        ((3, 1 ∷ 2 ∷ []) ∷ [])
      ≡ some layers)
    × IsLayers network zoom_range layers
select_edges-IsLayers_example =
    select_edges-IsLayers metres network (λ anchors. anchors) true cells_of 250 scores_of budgets_of
      ((3, 1 ∷ 2 ∷ []) ∷ []) network-IsSound network-IsIndexed

-- An edge of the backbone of zoom 3 is dropped with the orphan that it belongs to at zoom 6, where it
-- is not in the backbone.
backbone_dropped :
    prune_layers network ((3, 1 ∷ []) ∷ (6, 1 ∷ []) ∷ []) ((3, 1 ∷ []) ∷ [])
    ≡ some (record { pruned = (6, []) ∷ (3, []) ∷ []; removed = 1; dropped_m = 200 })
unfolding prune_layers prune_down sort_down removed_from total_m ferries prune_fragments
    sub_adjacency pieces_from drop_pieces group_edges road add_edge
backbone_dropped = refl

-- The stub waits for the road that leads to it.
stub_waits :
    prune_assignments network ((0, 3) ∷ (1, 3) ∷ (2, 6) ∷ []) []
    ≡ some (record { out = (0, 3) ∷ (1, 6) ∷ (2, 6) ∷ []; dropped = 1; dropped_m = 200 })
unfolding prune_assignments edges_up_to lowest highest numbers_from layers_of assign_layers
    prune_layers prune_down sort_down removed_from total_m ferries prune_fragments sub_adjacency
    pieces_from drop_pieces group_edges road add_edge
stub_waits = refl
