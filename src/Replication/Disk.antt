-- ===== src/Replication/Disk.antt =====
-- The published tree of replication_publish.py: for each region the extract
-- `<region>-latest.osm.pbf` and the directory `<region>-updates`. A missing region is one with
-- neither. The readers `region_state`, `extract_state` and `missing_diffs`.
mod Files
mod Read
unfoldable pub use Files.*
unfoldable pub use Read.*
