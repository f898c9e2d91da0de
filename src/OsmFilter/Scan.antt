-- ===== src/OsmFilter/Scan.antt =====
-- `OSMTypeHandler`, `filter_pbf_by_type` and `_describe_osm_filter`.
use fwh_osm.Prelude.{
  ℕ, suc, String, Bool, true, false, not, ◌&&◌, ◌||◌, Option, none, some, List, [], ◌∷◌, ◌++◌,
  if◌then◌else◌, str_eq, ◌==◌, length, is_empty,
}
use fwh_osm.Prelude.Text.{Text, codes}
use fwh_osm.OsmFilter.Elements.{
  OsmType, node_type, way_type, relation_type, all_types, same_type, Location, Tags, tag, Member,
  Element, Feature, Coords, put, coords_of, to_geojson_feature,
}

-- What pyosmium hands to the handler, in the order of the file.
pub data Entity : Type 0 where
  node : ℕ → Tags → Location → Entity
  way : ℕ → Tags → List ℕ → Entity
  relation : ℕ → Tags → List Member → Entity

-- The arguments of the filter; an empty text is no key and no value.
pub record Filter : Type 0 where
  pub osm_type : OsmType
  pub tag_key : Option String
  pub tag_value : Option String
  pub include_dependencies : Bool

abbrev pub non_empty : Option String → Option String
non_empty none = none
non_empty (some s) = if str_eq s "" then none else some s

-- `tag_value if tag_value != "*" else None`
unfoldable pub wanted_value : Option String → Option String
wanted_value none = none
wanted_value (some v) = if str_eq v "*" then none else non_empty (some v)

unfoldable pub value_fits : Option String → Option String → Bool
value_fits none wanted = false
value_fits (some v) none = true
value_fits (some v) (some w) = str_eq v w

unfoldable pub tag_fits : Option String → Option String → Tags → Bool
unfolding value_fits tag
tag_fits none wanted tags = true
tag_fits (some k) wanted tags = value_fits (tag k tags) wanted

unfoldable pub matches_filter : Filter → Tags → OsmType → Bool
unfolding same_type tag_fits wanted_value
matches_filter f tags t =
    (same_type f.osm_type all_types || same_type f.osm_type t)
    && tag_fits (non_empty f.tag_key) (wanted_value f.tag_value) tags

unfoldable pub element_of : Entity → Element
element_of (node id tags at) = record {
  id = id;
  osm_type = node_type;
  tags = tags;
  location = some at;
  node_refs = [];
  members = [];
}
element_of (way id tags refs) = record {
  id = id;
  osm_type = way_type;
  tags = tags;
  location = none;
  node_refs = refs;
  members = [];
}
element_of (relation id tags members) = record {
  id = id;
  osm_type = relation_type;
  tags = tags;
  location = none;
  node_refs = [];
  members = members;
}

pub record Handler : Type 0 where
  pub elements : List Element
  pub total_count : ℕ
  pub needed_node_ids : List ℕ
  pub dependency_nodes : Coords

abbrev pub new_handler : Handler
new_handler = record { elements = []; total_count = 0; needed_node_ids = []; dependency_nodes = [] }

unfoldable pub is_needed : ℕ → List ℕ → Bool
is_needed k [] = false
is_needed k (n ∷ ns) = k == n || is_needed k ns

-- The element is appended, if it matches.
unfoldable pub collect : Filter → Entity → Handler → Handler
unfolding matches_filter element_of
collect f x h =
    let e = element_of x in
    if matches_filter f e.tags e.osm_type
    then record h {
      elements = h.elements ++ e ∷ [];
      needed_node_ids =
          if f.include_dependencies then h.needed_node_ids ++ e.node_refs else h.needed_node_ids;
    }
    else h

unfoldable pub note_node : Filter → Entity → Handler → Handler
unfolding put is_needed
note_node f (node id tags at) h =
    if f.include_dependencies && is_needed id h.needed_node_ids
    then record h { dependency_nodes = put id at h.dependency_nodes }
    else h
note_node f (way id tags refs) h = h
note_node f (relation id tags members) h = h

-- One callback: `node`, `way` or `relation`.
unfoldable pub visit : Filter → Entity → Handler → Handler
unfolding collect note_node
visit f x h = collect f x (note_node f x (record h { total_count = suc h.total_count }))

unfoldable pub scan : Filter → List Entity → Handler → Handler
unfolding visit
scan f [] h = h
scan f (x ∷ xs) h = scan f xs (visit f x h)

-- `NodeCollector`
unfoldable pub collect_node : List ℕ → Entity → Coords → Coords
unfolding put is_needed
collect_node needed (node id tags at) coords =
    if is_needed id needed then put id at coords else coords
collect_node needed (way id tags refs) coords = coords
collect_node needed (relation id tags members) coords = coords

unfoldable pub collect_nodes : List ℕ → List Entity → Coords → Coords
unfolding collect_node
collect_nodes needed [] coords = coords
collect_nodes needed (x ∷ xs) coords = collect_nodes needed xs (collect_node needed x coords)

-- The second pass, if there is something to look for.
unfoldable pub dependencies : Filter → List Entity → Handler → Coords
unfolding collect_nodes
dependencies f file h =
    if f.include_dependencies && not (is_empty h.needed_node_ids)
    then collect_nodes h.needed_node_ids file []
    else h.dependency_nodes

unfoldable pub keep_feature : Option Feature → List Feature → List Feature
keep_feature none rest = rest
keep_feature (some x) rest = x ∷ rest

unfoldable pub features_of : Option (ℕ → Option Location) → List Element → List Feature
unfolding keep_feature to_geojson_feature
features_of coords [] = []
features_of coords (e ∷ es) = keep_feature (to_geojson_feature e coords) (features_of coords es)

unfoldable pub joined : Text → List Text → Text
joined sep [] = []
joined sep (p ∷ []) = p
joined sep (p ∷ q ∷ ps) = p ++ (sep ++ joined sep (q ∷ ps))

unfoldable pub type_value : OsmType → Text
type_value node_type = codes "node"
type_value way_type = codes "way"
type_value relation_type = codes "relation"
type_value all_types = codes "*"

unfoldable pub type_part : OsmType → List Text
unfolding type_value
type_part all_types = []
type_part t = (codes "type=" ++ type_value t) ∷ []

unfoldable pub tag_part : Option String → Option String → List Text
tag_part none v = []
tag_part (some k) none = (codes k ++ codes "=*") ∷ []
tag_part (some k) (some v) = (codes k ++ (codes "=" ++ codes v)) ∷ []

unfoldable pub describe_osm_filter : Filter → Text
unfolding type_part tag_part joined wanted_value
describe_osm_filter f =
    let parts =
      type_part f.osm_type
      ++ (tag_part (non_empty f.tag_key) (wanted_value f.tag_value)
          ++ (if f.include_dependencies then codes "+deps" ∷ [] else [])) in
    if is_empty parts then codes "all elements" else joined (codes ", ") parts

pub record OsmFilteredFeatures : Type 0 where
  pub features : List Feature
  pub feature_count : ℕ
  pub original_count : ℕ
  pub osm_type : Text
  pub filter_applied : Text
  pub dependencies_included : Bool
  pub dependency_count : ℕ

-- `handler.dependency_nodes if include_dependencies else None`
unfoldable pub node_coords : Filter → Coords → Option (ℕ → Option Location)
unfolding coords_of
node_coords f nodes = if f.include_dependencies then some (λ k. coords_of k nodes) else none

-- The features are what is written; the counts are reported.
unfoldable pub filter_pbf_by_type : Filter → List Entity → OsmFilteredFeatures
unfolding scan dependencies features_of describe_osm_filter node_coords type_value
filter_pbf_by_type f file =
    let h = scan f file new_handler in
    let nodes = dependencies f file h in
    let features = features_of (node_coords f nodes) h.elements in
    record {
      features = features;
      feature_count = length features;
      original_count = h.total_count;
      osm_type = type_value f.osm_type;
      filter_applied = describe_osm_filter f;
      dependencies_included = f.include_dependencies;
      dependency_count = if f.include_dependencies then length nodes else 0;
    }
