-- ===== src/Roads/Graph.antt =====
-- `LogicalEdge` and `RoadGraph` of handlers/roads/zoom_graph.py: the edges and what is kept of them
-- for a lookup. A coordinate is counted in steps of 1e-7 degrees, as OSM stores it, a length and a
-- score in a fixed unit. `none` is the `KeyError` of a subscript.
pub mod Built
use fwh_osm.Prelude.{
  ℕ, ◌≡◌, String, Bool, Option, none, some, List, [], ◌∷◌, ◌++◌, if◌then◌else◌, ◌==◌,
}
use fwh_osm.Prelude.Int.{ℤ}
use fwh_osm.Prelude.Table.{find, put, append_at, listed}

-- `(lon, lat)`
abbrev pub Coord : Type 0
Coord = ℤ × ℤ

pub record LogicalEdge : Type 0 where
  pub edge_id : ℕ
  pub from_node : ℕ
  pub to_node : ℕ
  pub osm_way_ids : List ℕ
  pub coords : List Coord
  pub length_m : ℕ
  pub fc : String
  pub fc_score : ℕ
  pub ref : String
  pub name : String
  pub maxspeed : ℕ
  pub lanes : ℕ
  pub bridge : Bool
  pub tunnel : Bool
  pub oneway : Bool
  pub surface_unpaved : Bool

pub record RoadGraph : Type 0 where
  pub edges : List LogicalEdge
  pub adj : List (ℕ × List ℕ)
  pub node_coords : List (ℕ × Coord)
  pub edge_by_id : List (ℕ × LogicalEdge)

-- `RoadGraph()`
abbrev pub new_graph : RoadGraph
new_graph = record { edges = []; adj = []; node_coords = []; edge_by_id = [] }

unfoldable pub add_edge : RoadGraph → LogicalEdge → RoadGraph
unfolding append_at put
add_edge g e = record g {
  edges = g.edges ++ e ∷ [];
  edge_by_id = put e.edge_id e g.edge_by_id;
  adj = append_at e.to_node e.edge_id (append_at e.from_node e.edge_id g.adj);
}

-- `e.to_node if e.from_node == node_id else e.from_node`
unfoldable pub other_end : LogicalEdge → ℕ → ℕ
other_end e node_id = if e.from_node == node_id then e.to_node else e.from_node

unfoldable pub look_up_edges : List (ℕ × LogicalEdge) → List ℕ → Option (List LogicalEdge)
unfolding find
look_up_edges table [] = some []
look_up_edges table (eid ∷ eids) =
    let rest = look_up_edges table eids in
    elim (find eid table) [
      | none ↦ none
      | some e ↦ elim rest [ none ↦ none | some es ↦ some (e ∷ es) ]
    ]

unfoldable pub edges_of : RoadGraph → ℕ → Option (List LogicalEdge)
unfolding look_up_edges listed
edges_of g node_id = look_up_edges g.edge_by_id (listed node_id g.adj)

unfoldable pub other_ends : ℕ → List LogicalEdge → List ℕ
unfolding other_end
other_ends node_id [] = []
other_ends node_id (e ∷ es) = other_end e node_id ∷ other_ends node_id es

unfoldable pub neighbors : RoadGraph → ℕ → Option (List ℕ)
unfolding edges_of other_ends
neighbors g node_id = elim (edges_of g node_id) [
  | none ↦ none
  | some es ↦ some (other_ends node_id es)
]
