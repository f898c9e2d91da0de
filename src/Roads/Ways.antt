-- ===== src/Roads/Ways.antt =====
-- The tags of a road: classes, scores and modifiers of handlers/roads/zoom_graph.py, and the rule
-- for a car ferry of tools/_osm_tools/ferry_access.py. A score is counted in hundredths. The numbers
-- that are read from `maxspeed` and `lanes` are arguments.
pub mod Scores
use fwh_osm.Prelude.{
  ℕ, ◌+◌, ◌-◌, ◌≤◌, String, Bool, true, false, not, ◌&&◌, ◌||◌, Option, none, some, List, [], ◌∷◌,
  ◌++◌, if◌then◌else◌, str_eq, ltb, leb, min, length, has_name, is_some,
}
use fwh_osm.Prelude.Table.{find_name, find_or}

abbrev pub ferry_fc : String
ferry_fc = "ferry"

-- `FC_SCORES`
abbrev pub fc_scores : List (String × ℕ)
fc_scores =
    ("motorway", 100)
    ∷ ("trunk", 88)
    ∷ ("primary", 75)
    ∷ ("secondary", 60)
    ∷ ("tertiary", 45)
    ∷ ("unclassified", 30)
    ∷ ("residential", 18)
    ∷ ("service", 8)
    ∷ ("track", 4)
    ∷ ("path", 2)
    ∷ ("ferry", 0)
    ∷ []

abbrev pub highway_to_fc : List (String × String)
highway_to_fc =
    ("motorway", "motorway")
    ∷ ("motorway_link", "motorway")
    ∷ ("trunk", "trunk")
    ∷ ("trunk_link", "trunk")
    ∷ ("primary", "primary")
    ∷ ("primary_link", "primary")
    ∷ ("secondary", "secondary")
    ∷ ("secondary_link", "secondary")
    ∷ ("tertiary", "tertiary")
    ∷ ("tertiary_link", "tertiary")
    ∷ ("residential", "residential")
    ∷ ("living_street", "residential")
    ∷ ("service", "service")
    ∷ ("unclassified", "unclassified")
    ∷ ("track", "track")
    ∷ ("path", "path")
    ∷ ("footway", "path")
    ∷ ("cycleway", "path")
    ∷ ("bridleway", "path")
    ∷ []

abbrev pub routable_fcs : List String
routable_fcs =
    "motorway" ∷ "trunk" ∷ "primary" ∷ "secondary" ∷ "tertiary" ∷ "unclassified" ∷ ferry_fc ∷ []

abbrev pub unpaved_surfaces : List String
unpaved_surfaces =
    "unpaved" ∷ "gravel" ∷ "dirt" ∷ "sand" ∷ "grass" ∷ "ground" ∷ "earth" ∷ "mud" ∷ "compacted"
    ∷ "fine_gravel" ∷ []

abbrev pub restricted_access : List String
restricted_access = "private" ∷ "no" ∷ "customers" ∷ "delivery" ∷ []

abbrev pub Tags : Type 0
Tags = List (String × String)

-- `tags.get(k) is None`
abbrev pub lacks : String → Tags → Bool
lacks k tags = not (is_some (find_name k tags))

-- `tags.get(k) == v`
abbrev pub has_value : String → String → Tags → Bool
has_value k v tags = elim (find_name k tags) [ none ↦ false | some w ↦ str_eq w v ]

unfoldable pub is_car_ferry : Tags → Bool
unfolding find_name
is_car_ferry tags =
    if not (has_value "route" "ferry" tags || has_value "route" "shuttle_train" tags)
    then false
    else let motorcar =
        if lacks "motorcar" tags
        then find_name "motor_vehicle" tags
        else find_name "motorcar" tags in
      elim motorcar [ some v ↦ str_eq v "yes" | none ↦ lacks "foot" tags && lacks "bicycle" tags ]

-- `_classify_fc`
unfoldable pub classify_fc : String → String
unfolding find_or
classify_fc highway = find_or "" highway highway_to_fc

-- `_compute_fc_score`: what is added comes before what is taken away, and a result below zero is
-- raised to zero, where the subtraction stops.
unfoldable pub compute_fc_score : String → String → Bool → Bool → Bool → Bool → ℕ
unfolding find_or
compute_fc_score fc ref bridge tunnel surface_unpaved access_restricted =
    let base = find_or 0 fc fc_scores in
    let with_ref = if str_eq ref "" then base else base + 5 in
    let with_structure = if bridge || tunnel then with_ref + 3 else with_ref in
    let with_surface = if surface_unpaved then with_structure - 10 else with_structure in
    let score = if access_restricted then with_surface - 15 else with_surface in min 100 score

-- `_WayData`
pub record WayData : Type 0 where
  pub way_id : ℕ
  pub node_refs : List ℕ
  pub fc : String
  pub ref : String
  pub name : String
  pub maxspeed : ℕ
  pub lanes : ℕ
  pub bridge : Bool
  pub tunnel : Bool
  pub oneway : Bool
  pub surface_unpaved : Bool
  pub access_restricted : Bool

-- An OSM way as the scan hands it over, with the two numbers that are read from its tags.
pub record Way : Type 0 where
  pub way_id : ℕ
  pub tags : Tags
  pub nodes : List ℕ
  pub speed : ℕ
  pub lane_count : ℕ

-- `"k" in tags and tags.get("k") != "no"`
abbrev pub is_built : String → Tags → Bool
is_built k tags = elim (find_name k tags) [ none ↦ false | some v ↦ not (str_eq v "no") ]

-- The class of a way: a ferry has no `highway` tag.
unfoldable pub way_class : Tags → String
unfolding find_or is_car_ferry classify_fc
way_class tags =
    let highway = find_or "" "highway" tags in
    if str_eq highway "" && is_car_ferry tags then ferry_fc else classify_fc highway

-- `not fc or fc not in ROUTABLE_FCS`, or fewer than two nodes
unfoldable pub is_skipped : Way → Bool
unfolding way_class
is_skipped w =
    let fc = way_class w.tags in
    (str_eq fc "" || not (has_name fc routable_fcs)) || ltb (length w.nodes) 2

unfoldable pub way_data : Way → WayData
unfolding way_class find_or
way_data w = record {
  way_id = w.way_id;
  node_refs = w.nodes;
  fc = way_class w.tags;
  ref = find_or "" "ref" w.tags;
  name = find_or "" "name" w.tags;
  maxspeed = w.speed;
  lanes = w.lane_count;
  bridge = is_built "bridge" w.tags;
  tunnel = is_built "tunnel" w.tags;
  oneway = has_name (find_or "" "oneway" w.tags) ("yes" ∷ "1" ∷ "true" ∷ []);
  surface_unpaved = has_name (find_or "" "surface" w.tags) unpaved_surfaces;
  access_restricted = has_name (find_or "" "access" w.tags) restricted_access;
}
