-- ===== src/Tests/Roads.antt =====
-- Three nodes and three edges, and ways that meet.
use fwh_osm.Prelude.{ℕ, ◌≡◌, ◌⊎◌, inl, refl, arith, true, false, Option, none, some, List, [], ◌∷◌}
use fwh_osm.Prelude.Int.{pos}
use fwh_osm.Prelude.Table.{find, put, append_at, listed, has_number}
use fwh_osm.Roads.Graph.{Coord, LogicalEdge, RoadGraph, new_graph, add_edge, other_end, neighbors}
use fwh_osm.Roads.Graph.Built.{IsSound, Joins, new_graph-IsSound, add_edge-IsSound, neighbors-Joins}
use fwh_osm.Roads.Search.{
  heappush, relax_edge, relax, visit, search, search_from, walk_back, path_to, listed_total,
  shortest_path,
}
use fwh_osm.Roads.Search.Best.{Walk, IsBest, shortest_path-IsBest}
use fwh_osm.Roads.Ways.{Way, way_class, is_skipped, way_data}
use fwh_osm.Roads.Topology.{
  TopologyHandler, new_handler, node, way, track_nodes, segments_of, decision_nodes, split_way,
}
use fwh_osm.Roads.Topology.Split.{IsSplit, split_way-IsSplit}
use fwh_osm.Roads.Topology.Chains.{Chain, merge_segments, build_edges, finalize}
use fwh_osm.Roads.Topology.Chains.Merges.{chain_count, segment_count, merge_segments-count}

road : ℕ → ℕ → ℕ → ℕ → ℕ → LogicalEdge
road id a b len score = record {
  edge_id = id;
  from_node = a;
  to_node = b;
  osm_way_ids = id ∷ [];
  coords = [];
  length_m = len;
  fc = "primary";
  fc_score = score;
  ref = "";
  name = "";
  maxspeed = 0;
  lanes = 0;
  bridge = false;
  tunnel = false;
  oneway = false;
  surface_unpaved = false;
}

-- From 1 to 3 directly, or over 2; the way over 2 is shorter, but its second half is a lesser road.
abbrev triangle : RoadGraph
triangle =
    add_edge (add_edge (add_edge new_graph (road 0 1 2 5 60)) (road 1 2 3 5 30)) (road 2 1 3 20 75)

triangle-IsSound : IsSound triangle
unfolding road add_edge find put
triangle-IsSound =
    add_edge-IsSound (add_edge (add_edge new_graph (road 0 1 2 5 60)) (road 1 2 3 5 30))
      (road 2 1 3 20 75) refl
      (add_edge-IsSound (add_edge new_graph (road 0 1 2 5 60)) (road 1 2 3 5 30) refl
        (add_edge-IsSound new_graph (road 0 1 2 5 60) refl new_graph-IsSound))

over_two : shortest_path triangle 1 3 0 ≡ some (0 ∷ 1 ∷ [])
unfolding shortest_path search_from path_to search relax road add_edge find put append_at listed
    relax_edge heappush other_end walk_back listed_total visit
over_two = refl

direct : shortest_path triangle 1 3 60 ≡ some (2 ∷ [])
unfolding shortest_path search_from path_to search relax road add_edge find put append_at listed
    relax_edge heappush other_end walk_back listed_total visit
direct = refl

shortest_path-IsBest_example :
    ((shortest_path triangle 1 3 60 ≡ some [])
      × ((es : List ℕ) (total : ℕ) → Walk triangle 60 es 1 3 total → ⊥))
    ⊎ ((path : List ℕ) × (shortest_path triangle 1 3 60 ≡ some path) × IsBest triangle 60 1 3 path)
shortest_path-IsBest_example =
    shortest_path-IsBest triangle 1 3 60 triangle-IsSound (λ e. omega arith)

neighbors-Joins_example :
    (ns : List ℕ) × (neighbors triangle 3 ≡ some ns)
    × ((w : ℕ)
        → (has_number w ns ≡ true → Joins triangle 3 w)
          × (Joins triangle 3 w → has_number w ns ≡ true))
neighbors-Joins_example = neighbors-Joins triangle 3 triangle-IsSound

-- Two ways that meet at node 3, and a path that is skipped.
primary : ℕ → List ℕ → Way
primary id nodes = record {
  way_id = id;
  tags = ("highway", "primary") ∷ [];
  nodes = nodes;
  speed = 50;
  lane_count = 2;
}

at : ℕ → Coord
at n = (pos n, pos 0)

scanned : TopologyHandler
unfolding primary at
scanned =
    way
      (way
        (way
          (node (node (node (node (node new_handler 1 (at 1)) 2 (at 2)) 3 (at 3)) 4 (at 4)) 5
            (at 5))
          (primary 10 (1 ∷ 2 ∷ 3 ∷ [])))
        (record {
          way_id = 11;
          tags = ("highway", "footway") ∷ [];
          nodes = 2 ∷ 4 ∷ [];
          speed = 0;
          lane_count = 0;
        }))
      (primary 12 (3 ∷ 4 ∷ 5 ∷ []))

merge_segments-count_example :
    (cs : List Chain) × (merge_segments (segments_of (decision_nodes scanned) scanned.ways)
      ≡ some cs)
    × ((id : ℕ)
        → chain_count id cs ≡ segment_count id (segments_of (decision_nodes scanned) scanned.ways))
unfolding scanned
merge_segments-count_example =
    merge_segments-count (segments_of (decision_nodes scanned) scanned.ways)

split_way-IsSplit_example :
    IsSplit
      (decision_nodes scanned)
      (1 ∷ 2 ∷ 3 ∷ [])
      (split_way (decision_nodes scanned) (1 ∷ 2 ∷ 3 ∷ []))
unfolding scanned primary way node is_skipped way_class way_data track_nodes
split_way-IsSplit_example =
    split_way-IsSplit scanned (way_data (primary 10 (1 ∷ 2 ∷ 3 ∷ []))) (inl refl) refl

edge_ways : List LogicalEdge → List (List ℕ)
edge_ways [] = []
edge_ways (e ∷ es) = e.osm_way_ids ∷ edge_ways es

ways_of : Option (RoadGraph × TopologyHandler) → List (List ℕ)
unfolding edge_ways
ways_of none = []
ways_of (some (g, h)) = edge_ways g.edges

-- The chain is extended forward only, so the second of two ways that follow each other is merged
-- into the first when it is scanned later, and not when it is scanned first.
two_ways_one_edge : ways_of (finalize (λ c d. 1) scanned) ≡ (10 ∷ 12 ∷ []) ∷ []
unfolding ways_of finalize scanned primary way node is_skipped way_class way_data track_nodes at
    merge_segments segments_of decision_nodes build_edges
two_ways_one_edge = refl

scanned_back : TopologyHandler
unfolding primary at
scanned_back =
    way
      (way
        (node (node (node (node (node new_handler 1 (at 1)) 2 (at 2)) 3 (at 3)) 4 (at 4)) 5 (at 5))
        (primary 12 (3 ∷ 4 ∷ 5 ∷ [])))
      (primary 10 (1 ∷ 2 ∷ 3 ∷ []))

two_ways_two_edges : ways_of (finalize (λ c d. 1) scanned_back) ≡ (12 ∷ []) ∷ (10 ∷ []) ∷ []
unfolding ways_of finalize scanned_back primary way node is_skipped way_class way_data track_nodes
    at merge_segments segments_of decision_nodes build_edges
two_ways_two_edges = refl
