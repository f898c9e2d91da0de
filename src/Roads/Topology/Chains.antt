-- ===== src/Roads/Topology/Chains.antt =====
-- `TopologyHandler.finalize` of handlers/roads/zoom_graph.py: segments that meet at a node of degree
-- two are merged into chains, and each chain becomes a logical edge. The `while` loop that extends a
-- chain runs on fuel: one round for each segment, and one to find that there is no other. `none` is
-- an `IndexError`, or fuel that is used up. The distance of two points is a parameter.
pub mod Finds
pub mod Extends
pub mod Merges
pub mod Edges
use fwh_osm.Prelude.{
  ℕ, zero, suc, ◌+◌, String, Bool, true, false, not, ◌&&◌, Option, none, some, List, [], ◌∷◌, ◌++◌,
  if◌then◌else◌, str_eq, ltb, ◌==◌, length, drop, reversed, replicate, get_elem?, set, last_or,
}
use fwh_osm.Prelude.Table.{find, put, append_at, listed}
use fwh_osm.Roads.Graph.{Coord, LogicalEdge, RoadGraph, new_graph, add_edge}
use fwh_osm.Roads.Ways.{WayData, compute_fc_score}
use fwh_osm.Roads.Topology.{Segment, TopologyHandler, new_handler, decision_nodes, segments_of}

-- `(segment_index, is_start)`
abbrev pub Meeting : Type 0
Meeting = ℕ × Bool

-- `node → list of (segment_index, is_start)`, from the segment `idx` on
unfoldable pub map_segments : ℕ → List Segment → List (ℕ × List Meeting) → List (ℕ × List Meeting)
unfolding append_at
map_segments idx [] t = t
map_segments idx (([], wd) ∷ segs) t = map_segments (suc idx) segs t
map_segments idx ((n ∷ ns, wd) ∷ segs) t =
    map_segments (suc idx) segs (append_at (last_or n ns) (idx, false) (append_at n (idx, true) t))

-- `s[0] == tail` and `s[-1] == tail`
abbrev pub starts_at : ℕ → List ℕ → Bool
starts_at tail [] = false
starts_at tail (n ∷ ns) = n == tail

abbrev pub stops_at : ℕ → List ℕ → Bool
stops_at tail [] = false
stops_at tail (n ∷ ns) = last_or n ns == tail

-- `s[:-1]`
unfoldable pub but_last : List ℕ → List ℕ
but_last [] = []
but_last (n ∷ []) = []
but_last (n ∷ k ∷ ns) = n ∷ but_last (k ∷ ns)

-- `next_seg`: the segment that continues a chain, and what it adds to the nodes.
pub record Next : Type 0 where
  pub index : ℕ
  pub added : List ℕ
  pub data_of : WayData

-- What the loop over the candidates does with one segment: continue, or break with it.
unfoldable pub consider : ℕ → String → ℕ → ℕ → Bool → Segment → Option Next
unfolding but_last
consider degree chain_fc tail sidx is_start (s, swd) =
    if not (str_eq swd.fc chain_fc)
    then none
    else if not (degree == 2)
    then none
    else if is_start && starts_at tail s
    then some (record { index = sidx; added = drop 1 s; data_of = swd })
    else if not is_start && stops_at tail s
    then some (record { index = sidx; added = reversed (but_last s); data_of = swd })
    else none

-- `for sidx, is_start in candidates`
unfoldable pub find_next :
    List Segment → List Bool → ℕ → String → ℕ → List Meeting → Option (Option Next)
unfolding consider
find_next segments used degree chain_fc tail [] = some none
find_next segments used degree chain_fc tail ((sidx, is_start) ∷ candidates) =
    let rest = find_next segments used degree chain_fc tail candidates in
    elim (get_elem? used sidx) [
      | none ↦ none
      | some true ↦ rest
      | some false ↦ elim (get_elem? segments sidx) [
        | none ↦ none
        | some segment ↦ elim (consider degree chain_fc tail sidx is_start segment) [
          | none ↦ rest
          | some next ↦ some (some next)
        ]
      ]
    ]

-- The segments that make up one edge; the attributes are those of the first.
pub record Chain : Type 0 where
  pub chain_nodes : List ℕ
  pub chain_ways : List ℕ
  pub origin : WayData

-- `used[sidx] = True`, and the chain with the segment behind it
unfoldable pub attach : Next → Chain → Chain
attach n c = record c {
  chain_ways = c.chain_ways ++ n.data_of.way_id ∷ [];
  chain_nodes = c.chain_nodes ++ n.added;
}

module _ (segments : List Segment) (node_seg_map : List (ℕ × List Meeting)) where
  unfoldable pub next_of : List Bool → Chain → Option (Option Next)
  unfolding find_next listed
  next_of used c =
      let tail = last_or 0 c.chain_nodes in
      let candidates = listed tail node_seg_map in
      find_next segments used (length candidates) c.origin.fc tail candidates

  -- "Try to extend forward"
  unfoldable pub extend : ℕ → List Bool → Chain → Option (List Bool × Chain)
  unfolding next_of attach
  extend zero used c = none
  extend (suc fuel) used c = elim (next_of used c) [
    | none ↦ none
    | some none ↦ some (used, c)
    | some (some n) ↦ extend fuel (set used n.index true) (attach n c)
  ]

  -- `for idx, (seg, wd) in enumerate(segments)`, from `idx` on
  unfoldable pub chains_from : ℕ → List Segment → List Bool → Option (List Chain)
  unfolding extend
  chains_from idx [] used = some []
  chains_from idx ((seg, wd) ∷ segs) used = elim (get_elem? used idx) [
    | none ↦ none
    | some true ↦ chains_from (suc idx) segs used
    | some false ↦
        elim (extend (suc (length segments)) (set used idx true)
          (record { chain_nodes = seg; chain_ways = wd.way_id ∷ []; origin = wd })) [
            | none ↦ none
            | some (used', chain) ↦ elim (chains_from (suc idx) segs used') [
              | none ↦ none
              | some cs ↦ some (chain ∷ cs)
            ]
          ]
  ]

unfoldable pub merge_segments : List Segment → Option (List Chain)
unfolding chains_from map_segments
merge_segments segments =
    chains_from segments (map_segments 0 segments []) 0 segments (replicate (length segments) false)

-- The coordinates of the nodes that have one.
unfoldable pub coords_of : List (ℕ × Coord) → List ℕ → List Coord
unfolding find
coords_of node_coords [] = []
coords_of node_coords (nid ∷ nids) =
    let rest = coords_of node_coords nids in
    elim (find nid node_coords) [ none ↦ rest | some c ↦ c ∷ rest ]

-- `if nid in self._node_coords: graph.node_coords[nid] = self._node_coords[nid]`
unfoldable pub record_node : List (ℕ × Coord) → ℕ → RoadGraph → RoadGraph
unfolding find put
record_node node_coords nid g = elim (find nid node_coords) [
  | none ↦ g
  | some c ↦ record g { node_coords = put nid c g.node_coords }
]

module _ (distance : Coord → Coord → ℕ) where
  unfoldable pub polyline_length_m : List Coord → ℕ
  polyline_length_m [] = 0
  polyline_length_m (c ∷ []) = 0
  polyline_length_m (c ∷ d ∷ cs) = distance c d + polyline_length_m (d ∷ cs)

  unfoldable pub chain_edge : ℕ → List Coord → Chain → LogicalEdge
  unfolding polyline_length_m compute_fc_score
  chain_edge edge_id coords c =
      let wd = c.origin in
      record {
        edge_id = edge_id;
        from_node = elim c.chain_nodes [ [] ↦ 0 | n ∷ ns ↦ n ];
        to_node = last_or 0 c.chain_nodes;
        osm_way_ids = c.chain_ways;
        coords = coords;
        length_m = polyline_length_m coords;
        fc = wd.fc;
        fc_score =
            compute_fc_score wd.fc wd.ref wd.bridge wd.tunnel wd.surface_unpaved
              wd.access_restricted;
        ref = wd.ref;
        name = wd.name;
        maxspeed = wd.maxspeed;
        lanes = wd.lanes;
        bridge = wd.bridge;
        tunnel = wd.tunnel;
        oneway = wd.oneway;
        surface_unpaved = wd.surface_unpaved;
      }

  -- The rest of the round: an edge, unless fewer than two coordinates are known.
  unfoldable pub build_edges : List (ℕ × Coord) → ℕ → List Chain → RoadGraph → RoadGraph
  unfolding coords_of chain_edge record_node add_edge
  build_edges node_coords edge_id [] g = g
  build_edges node_coords edge_id (c ∷ cs) g =
      let coords = coords_of node_coords c.chain_nodes in
      let e = chain_edge edge_id coords c in
      elim (ltb (length coords) 2) [
        | true ↦ build_edges node_coords edge_id cs g
        | false ↦
            build_edges node_coords (suc edge_id) cs (
              record_node node_coords e.to_node
                (record_node node_coords e.from_node (add_edge g e)))
      ]

  -- The graph, and the handler with its memory freed.
  unfoldable pub finalize : TopologyHandler → Option (RoadGraph × TopologyHandler)
  finalize h = elim (merge_segments (segments_of (decision_nodes h) h.ways)) [
    | none ↦ none
    | some chains ↦ some (build_edges h.node_coords 0 chains new_graph, new_handler)
  ]
