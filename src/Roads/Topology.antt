-- ===== src/Roads/Topology.antt =====
-- `TopologyHandler` of handlers/roads/zoom_graph.py: what the scan collects, the decision nodes, and
-- the segments that the ways are cut into. The two passes over a file are `node` and `way`.
pub mod Split
pub mod Chains
use fwh_osm.Prelude.{
  ℕ, zero, suc, ◌+◌, String, Bool, true, false, not, ◌&&◌, ◌||◌, Option, none, some, List, [], ◌∷◌,
  ◌++◌, if◌then◌else◌, str_eq, ltb, leb, ◌==◌, length, has_name, last_or,
}
use fwh_osm.Prelude.Table.{find, put, has_number}
use fwh_osm.Roads.Graph.{Coord}
use fwh_osm.Roads.Ways.{Way, WayData, way_class, is_skipped, way_data}

pub record TopologyHandler : Type 0 where
  pub node_coords : List (ℕ × Coord)
  pub ways : List WayData
  pub node_way_count : List (ℕ × ℕ)
  pub node_fc_set : List (ℕ × List String)
  pub node_ref_set : List (ℕ × List String)

abbrev pub new_handler : TopologyHandler
new_handler = record {
  node_coords = [];
  ways = [];
  node_way_count = [];
  node_fc_set = [];
  node_ref_set = [];
}

unfoldable pub node : TopologyHandler → ℕ → Coord → TopologyHandler
unfolding put
node h id location = record h { node_coords = put id location h.node_coords }

-- `counts[nid] += 1`
unfoldable pub count_up : ℕ → List (ℕ × ℕ) → List (ℕ × ℕ)
count_up nid [] = (nid, 1) ∷ []
count_up nid ((k, n) ∷ t) = if k == nid then (k, n + 1) ∷ t else (k, n) ∷ count_up nid t

-- `sets[nid].add(x)`
unfoldable pub add_to : ℕ → String → List (ℕ × List String) → List (ℕ × List String)
add_to nid x [] = (nid, x ∷ []) ∷ []
add_to nid x ((k, xs) ∷ t) =
    if k == nid
    then (k, if has_name x xs then xs else xs ++ x ∷ []) ∷ t
    else (k, xs) ∷ add_to nid x t

unfoldable pub track_nodes : WayData → List ℕ → TopologyHandler → TopologyHandler
unfolding count_up add_to
track_nodes wd [] h = h
track_nodes wd (nid ∷ nids) h = track_nodes wd nids (record h {
  node_way_count = count_up nid h.node_way_count;
  node_fc_set = add_to nid wd.fc h.node_fc_set;
  node_ref_set = if str_eq wd.ref "" then h.node_ref_set else add_to nid wd.ref h.node_ref_set;
})

unfoldable pub way : TopologyHandler → Way → TopologyHandler
unfolding is_skipped way_data track_nodes
way h w =
    if is_skipped w
    then h
    else let wd = way_data w in track_nodes wd wd.node_refs (record h { ways = h.ways ++ wd ∷ [] })

-- `len(sets.get(nid, set())) > 1`
abbrev pub differs : ℕ → List (ℕ × List String) → Bool
differs nid sets = elim (find nid sets) [ none ↦ false | some xs ↦ ltb 1 (length xs) ]

-- The nodes of three or more ways, of two classes, or of two reference numbers.
unfoldable pub junctions : TopologyHandler → List (ℕ × ℕ) → List ℕ
unfolding find
junctions h [] = []
junctions h ((nid, count) ∷ t) =
    let rest = junctions h t in
    if leb 3 count
    then nid ∷ rest
    else if differs nid h.node_fc_set
    then nid ∷ rest
    else if differs nid h.node_ref_set
    then nid ∷ rest
    else rest

-- The first and the last node of each way.
unfoldable pub end_nodes : List WayData → List ℕ
end_nodes [] = []
end_nodes (wd ∷ wds) = elim wd.node_refs [
  | [] ↦ end_nodes wds
  | nid ∷ nids ↦ nid ∷ last_or nid nids ∷ end_nodes wds
]

unfoldable pub decision_nodes : TopologyHandler → List ℕ
unfolding junctions end_nodes
decision_nodes h = junctions h h.node_way_count ++ end_nodes h.ways

-- The loop over the nodes of a way; what follows the last decision node is dropped.
unfoldable pub split_from : List ℕ → List ℕ → List ℕ → List (List ℕ)
unfolding has_number
split_from decisions current [] = []
split_from decisions current (nid ∷ nids) =
    let segment = current ++ nid ∷ [] in
    elim (has_number nid decisions && leb 2 (length segment)) [
      | true ↦ segment ∷ split_from decisions (nid ∷ []) nids
      | false ↦ split_from decisions segment nids
    ]

unfoldable pub split_way : List ℕ → List ℕ → List (List ℕ)
unfolding split_from
split_way decisions [] = []
split_way decisions (nid ∷ nids) = split_from decisions (nid ∷ []) nids

abbrev pub Segment : Type 0
Segment = List ℕ × WayData

unfoldable pub tag_segments : WayData → List (List ℕ) → List Segment
tag_segments wd [] = []
tag_segments wd (s ∷ ss) = (s, wd) ∷ tag_segments wd ss

unfoldable pub segments_of : List ℕ → List WayData → List Segment
unfolding split_way tag_segments
segments_of decisions [] = []
segments_of decisions (wd ∷ wds) =
    tag_segments wd (split_way decisions wd.node_refs) ++ segments_of decisions wds
