-- ===== src/Roads/Selection.antt =====
-- handlers/roads/zoom_selection.py: which roads a zoom level shows. A set of edge ids is a list, and
-- the order in which Python walks a set is the order of the list.
pub mod Reveal
pub mod Prune
pub mod Backbone
pub mod Corridors
pub mod Bridge
pub mod Cells
pub mod Greedy
