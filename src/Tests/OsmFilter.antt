-- ===== src/Tests/OsmFilter.antt =====
-- A file whose ways stand before and behind their nodes.
use fwh_osm.Prelude.{true, some, List, [], ◌∷◌, ◌≡◌, refl, All}
use fwh_osm.Prelude.Int.{pos}
use fwh_osm.OsmFilter.Elements.{
  way_type, Tags, Feature, Geometry, polygon, put, coords_of, append_some, locate, ends_at,
  is_closed, has_tag, tag, is_yes, is_area, way_geometry, located_way, way_feature, feature_of_type,
  to_geojson_feature, same_type,
}
use fwh_osm.OsmFilter.Scan.{
  Entity, node, way, Filter, wanted_value, value_fits, tag_fits, matches_filter, element_of,
  is_needed, collect, note_node, visit, scan, collect_node, collect_nodes, dependencies,
  keep_feature, features_of, node_coords, filter_pbf_by_type,
}
use fwh_osm.OsmFilter.Direct.{direct_features}
use fwh_osm.OsmFilter.TwoPass.{filter_pbf_by_type-direct}
use fwh_osm.OsmFilter.Rings.{IsWellFormed, filter_pbf_by_type-IsWellFormed}

abbrev building : Tags
building = ("building", "yes") ∷ []

-- The third node of the building stands behind it.
abbrev file : List Entity
file =
    node 1 [] (pos 0, pos 0)
    ∷ node 2 [] (pos 4, pos 0)
    ∷ way 10 building (1 ∷ 2 ∷ 3 ∷ 1 ∷ [])
    ∷ node 3 [] (pos 4, pos 3)
    ∷ way 11 [] (1 ∷ 9 ∷ [])
    ∷ []

abbrev buildings : Filter
buildings = record {
  osm_type = way_type;
  tag_key = some "building";
  tag_value = some "*";
  include_dependencies = true;
}

abbrev geometries : List Feature → List Geometry
geometries [] = []
geometries (x ∷ xs) = x.geometry ∷ geometries xs

triangle :
    geometries (filter_pbf_by_type buildings file).features
    ≡ polygon ((pos 0, pos 0) ∷ (pos 4, pos 0) ∷ (pos 4, pos 3) ∷ (pos 0, pos 0) ∷ []) ∷ []
unfolding filter_pbf_by_type scan visit collect note_node matches_filter same_type tag_fits
    wanted_value value_fits tag element_of is_needed put dependencies collect_nodes collect_node
    node_coords coords_of features_of keep_feature to_geojson_feature feature_of_type way_feature
    located_way way_geometry is_closed ends_at is_area has_tag is_yes locate append_some
triangle = refl

filter_pbf_by_type-direct_example :
    ((filter_pbf_by_type buildings file).features ≡ direct_features buildings file file)
    × ((filter_pbf_by_type buildings file).original_count ≡ 5)
filter_pbf_by_type-direct_example = filter_pbf_by_type-direct buildings file

filter_pbf_by_type-IsWellFormed_example :
    All (λ (x : Feature). IsWellFormed x.geometry) (filter_pbf_by_type buildings file).features
filter_pbf_by_type-IsWellFormed_example = filter_pbf_by_type-IsWellFormed buildings file
