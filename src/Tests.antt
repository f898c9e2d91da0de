-- ===== src/Tests.antt =====
-- Runs of the modelled code at small inputs, and the theorems at inputs that meet their hypotheses.
mod Replication
mod Planet
mod Gate
mod Population
mod PbfUpdate
mod OsmFilter
mod Cancel
mod Roads
mod Selection
mod Queries
