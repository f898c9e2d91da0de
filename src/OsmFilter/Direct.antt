-- ===== src/OsmFilter/Direct.antt =====
-- The filter read off the file at once: each element with the coordinates of all the nodes there.
use fwh_osm.Prelude.{ℕ, Option, none, some, List, [], ◌∷◌, ◌++◌, if◌then◌else◌, ◌==◌}
use fwh_osm.OsmFilter.Elements.{Location, Element, Feature, to_geojson_feature}
use fwh_osm.OsmFilter.Scan.{
  Entity, node, way, relation, Filter, matches_filter, element_of, keep_feature,
}

abbrev pub or_else : Option Location → Option Location → Option Location
or_else none b = b
or_else (some a) b = some a

-- Where a node is, by the last entry of the file for it.
unfoldable pub node_at : ℕ → List Entity → Option Location
node_at k [] = none
node_at k (node id tags at ∷ xs) = or_else (node_at k xs) (if k == id then some at else none)
node_at k (way id tags refs ∷ xs) = node_at k xs
node_at k (relation id tags members ∷ xs) = node_at k xs

-- The elements that match, in the order of the file.
unfoldable pub matched_one : Filter → Entity → List Element
unfolding matches_filter element_of
matched_one f x = let e = element_of x in if matches_filter f e.tags e.osm_type then e ∷ [] else []

unfoldable pub matched : Filter → List Entity → List Element
unfolding matched_one
matched f [] = []
matched f (x ∷ xs) = matched_one f x ++ matched f xs

abbrev pub all_coords : Filter → List Entity → Option (ℕ → Option Location)
all_coords f file = if f.include_dependencies then some (λ k. node_at k file) else none

unfoldable pub direct_feature : Filter → List Entity → Entity → Option Feature
unfolding matches_filter element_of to_geojson_feature node_at
direct_feature f file x =
    let e = element_of x in
    if matches_filter f e.tags e.osm_type then to_geojson_feature e (all_coords f file) else none

unfoldable pub direct_features : Filter → List Entity → List Entity → List Feature
unfolding direct_feature keep_feature
direct_features f file [] = []
direct_features f file (x ∷ xs) = keep_feature (direct_feature f file x) (direct_features f file xs)
