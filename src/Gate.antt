-- ===== src/Gate.antt =====
-- src/osm_geocoder/tools/_osm_tools/download_gate.py: the semaphore that caps the downloads of the
-- whole fleet. `Store` says what the code uses of a MongoDB collection, which is a parameter.
pub mod Store
pub mod Slots
pub mod Seed
pub mod Leases
pub mod Acquire
pub mod Block
unfoldable pub use Slots.*
