-- ===== src/OsmFilter.antt =====
-- src/osm_geocoder/handlers/filters/osm_type_filter.py: elements of a PBF by type and tag, with the
-- nodes that the ways need. Coordinates are the integers that a PBF holds.
pub mod Elements
pub mod Scan
pub mod Direct
pub mod Collector
pub mod FirstPass
pub mod Agree
pub mod TwoPass
pub mod Rings
