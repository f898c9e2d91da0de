-- ===== src/Replication.antt =====
-- src/osm_geocoder/tools/_osm_tools/replication_publish.py: the producer of per-region
-- replication diffs.
pub mod Sequence
pub mod State
pub mod Disk
pub mod Upstream
pub mod Cut
pub mod Publish
pub mod Extract
