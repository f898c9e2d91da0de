-- ===== src/Population.antt =====
-- src/osm_geocoder/handlers/population/population_filter.py: places filtered, ranked and counted by
-- population.
pub mod Places
pub mod Parse
pub mod Match
pub mod Filter
pub mod Top
pub mod Stats
pub mod Extract
