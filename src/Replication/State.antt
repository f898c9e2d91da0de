-- ===== src/Replication/State.antt =====
-- `format_state` and `parse_state` of replication_publish.py: the state.txt dialect of Osmosis.
mod Format
mod Parse
pub mod Trip
pub mod Clean
unfoldable pub use Format.*
unfoldable pub use Parse.*
