-- ===== src/OsmFilter/Elements.antt =====
-- `OSMType`, the elements, and their GeoJSON features.
use fwh_osm.Prelude.{
  ℕ, String, Bool, true, false, ◌&&◌, ◌||◌, Option, none, some, List, [], ◌∷◌, if◌then◌else◌,
  str_eq, ltb, leb, ◌==◌, length, is_some, is_empty,
}
use fwh_osm.Prelude.Int.{ℤ, eqb_ℤ}
use fwh_osm.Prelude.Result.{Result}
use fwh_osm.Prelude.Text.{Text, codes}
use fwh_osm.Population.Places.{from_string}

pub data OsmType : Type 0 where
  node_type way_type relation_type all_types : OsmType

abbrev pub osm_type_aliases : List (Text × OsmType)
osm_type_aliases =
    (codes "node", node_type)
    ∷ (codes "n", node_type)
    ∷ (codes "way", way_type)
    ∷ (codes "w", way_type)
    ∷ (codes "relation", relation_type)
    ∷ (codes "rel", relation_type)
    ∷ (codes "r", relation_type)
    ∷ (codes "*", all_types)
    ∷ (codes "all", all_types)
    ∷ (codes "any", all_types)
    ∷ []

unfoldable pub osm_type_from_string : Text → Result OsmType
unfolding from_string
osm_type_from_string value = from_string osm_type_aliases value

unfoldable pub same_type : OsmType → OsmType → Bool
same_type node_type node_type = true
same_type way_type way_type = true
same_type relation_type relation_type = true
same_type all_types all_types = true
same_type _ _ = false

-- `(lon, lat)`
abbrev pub Location : Type 0
Location = ℤ × ℤ

abbrev pub same_location : Location → Location → Bool
same_location (a, b) (c, d) = eqb_ℤ a c && eqb_ℤ b d

-- The pairs of a `TagList`; in `{t.k: t.v for t in tags}` the last pair of a key stays.
abbrev pub Tags : Type 0
Tags = List (String × String)

unfoldable pub tag : String → Tags → Option String
tag k [] = none
tag k ((n, v) ∷ rest) =
    let later = tag k rest in if is_some later then later else if str_eq k n then some v else none

pub record Member : Type 0 where
  pub type : OsmType
  pub ref : ℕ
  pub role : String

pub record Element : Type 0 where
  pub id : ℕ
  pub osm_type : OsmType
  pub tags : Tags
  pub location : Option Location
  pub node_refs : List ℕ
  pub members : List Member

pub data Geometry : Type 0 where
  no_geometry : Geometry
  point : Location → Geometry
  line_string polygon : List Location → Geometry

-- `members` is only there for a relation. A tag named `osm_id` or `osm_type`, which would replace the
-- two in the properties, stays among the tags here.
pub record Feature : Type 0 where
  pub osm_id : ℕ
  pub osm_type : OsmType
  pub tags : Tags
  pub members : Option (List Member)
  pub geometry : Geometry

-- A dict of coordinates: the value of a key stands once.
abbrev pub Coords : Type 0
Coords = List (ℕ × Location)

unfoldable pub put : ℕ → Location → Coords → Coords
put k at [] = (k, at) ∷ []
put k at ((n, old) ∷ rest) =
    let later = put k at rest in if k == n then (k, at) ∷ rest else (n, old) ∷ later

unfoldable pub coords_of : ℕ → Coords → Option Location
coords_of k [] = none
coords_of k ((n, at) ∷ rest) = let later = coords_of k rest in if k == n then some at else later

-- The loop over `node_refs`: a node without coordinates is left out.
unfoldable pub append_some : Option Location → List Location → List Location
append_some none rest = rest
append_some (some at) rest = at ∷ rest

unfoldable pub locate : (ℕ → Option Location) → List ℕ → List Location
unfolding append_some
locate coords [] = []
locate coords (r ∷ rs) = append_some (coords r) (locate coords rs)

-- `coords[0] == coords[-1]`
unfoldable pub ends_at : Location → Location → List Location → Bool
ends_at first last [] = same_location first last
ends_at first last (next ∷ rest) = ends_at first next rest

unfoldable pub is_closed : List Location → Bool
unfolding ends_at
is_closed [] = false
is_closed (c ∷ cs) = leb 4 (length (c ∷ cs)) && ends_at c c cs

unfoldable pub has_tag : Tags → List String → Bool
unfolding tag
has_tag tags [] = false
has_tag tags (k ∷ ks) = is_some (tag k tags) || has_tag tags ks

abbrev pub area_tags : List String
area_tags = "building" ∷ "landuse" ∷ "natural" ∷ "leisure" ∷ "amenity" ∷ "boundary" ∷ []

unfoldable pub is_yes : Option String → Bool
is_yes none = false
is_yes (some v) = str_eq v "yes"

unfoldable pub is_area : Tags → Bool
unfolding has_tag is_yes tag
is_area tags = has_tag tags area_tags || is_yes (tag "area" tags)

abbrev pub feature : Element → Option (List Member) → Geometry → Feature
feature e members geometry = record {
  osm_id = e.id;
  osm_type = e.osm_type;
  tags = e.tags;
  members = members;
  geometry = geometry;
}

unfoldable pub way_geometry : Tags → List Location → Geometry
unfolding is_closed is_area
way_geometry tags coords =
    if is_closed coords && is_area tags then polygon coords else line_string coords

unfoldable pub located_way : Element → List Location → Option Feature
unfolding way_geometry
located_way e coords =
    if ltb (length coords) 2 then none else some (feature e none (way_geometry e.tags coords))

unfoldable pub way_feature : Element → Option (ℕ → Option Location) → Option Feature
unfolding located_way locate
way_feature e none = if is_empty e.node_refs then none else some (feature e none no_geometry)
way_feature e (some coords) =
    if is_empty e.node_refs then none else located_way e (locate coords e.node_refs)

unfoldable pub node_feature : Element → Option Location → Option Feature
node_feature e none = none
node_feature e (some at) = some (feature e none (point at))

unfoldable pub feature_of_type : OsmType → Element → Option (ℕ → Option Location) → Option Feature
unfolding node_feature way_feature
feature_of_type node_type e coords = node_feature e e.location
feature_of_type way_type e coords = way_feature e coords
feature_of_type relation_type e coords = some (feature e (some e.members) no_geometry)
feature_of_type all_types e coords = none

-- The coordinates are looked up by node.
unfoldable pub to_geojson_feature : Element → Option (ℕ → Option Location) → Option Feature
unfolding feature_of_type
to_geojson_feature e coords = feature_of_type e.osm_type e coords
