-- ===== src/Roads.antt =====
-- The road network of a region (handlers/roads/zoom_graph.py): the graph of logical edges, its
-- shortest paths, the scores of roads, and the topology that is built from the ways of an extract.
pub mod Graph
pub mod Search
pub mod Ways
pub mod Topology
pub mod Selection
