-- ===== src/Roads/Topology/Chains/Edges.antt =====
-- The graph that the chains become.
use fwh_osm.Prelude.{ℕ, ◌≤◌, ◌≡◌, none}
use fwh_osm.Prelude.Table.{find}
use fwh_osm.Roads.Graph.{RoadGraph}
use fwh_osm.Roads.Graph.Built.{IsSound}

-- The graph is sound, and no id from `edge_id` on is taken.
abbrev IsOpen : ℕ → RoadGraph → Type 0
IsOpen edge_id g = IsSound g × ((eid : ℕ) → edge_id ≤ eid → find eid g.edge_by_id ≡ none)
