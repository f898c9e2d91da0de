-- ===== src/OsmFilter/Rings.antt =====
-- The geometries that are written: lines of at least two points, and closed rings.
use fwh_osm.Prelude.{
  ℕ, ◌≤◌, true, ◌&&◌, Option, none, some, List, [], ◌∷◌, ◌++◌, ◌≡◌, sym, ap, arith, ltb, leb,
  length, is_empty, All, and_parts, Bool-cases, Option-cases, inl, inr,
}
use fwh_osm.Prelude.Int.{eqb_ℤ, eqb_ℤ→eq}
use fwh_osm.OsmFilter.Elements.{
  OsmType, node_type, way_type, relation_type, all_types, Location, same_location, Tags, Element,
  Feature, Geometry, no_geometry, point, line_string, polygon, ends_at, is_closed, is_area,
  way_geometry, located_way, way_feature, node_feature, feature_of_type, to_geojson_feature, locate,
}
use fwh_osm.OsmFilter.Scan.{
  Entity, Filter, scan, new_handler, keep_feature, features_of, filter_pbf_by_type,
}

-- A ring ends where it begins.
pub record IsRing (cs : List Location) : Type 0 where
  pub first : Location
  pub middle : List Location
  pub closed : cs ≡ first ∷ (middle ++ first ∷ [])
  pub long : 4 ≤ length cs

abbrev pub IsWellFormed : Geometry → Type 0
IsWellFormed no_geometry = Unit
IsWellFormed (point at) = Unit
IsWellFormed (line_string cs) = 2 ≤ length cs
IsWellFormed (polygon cs) = IsRing cs

same_location→eq : (a b : Location) → same_location a b ≡ true → a ≡ b
same_location→eq (a, b) (c, d) h =
    let parts = and_parts (eqb_ℤ a c) (eqb_ℤ b d) h in
    let left = eqb_ℤ→eq a c parts.0 in let right = eqb_ℤ→eq b d parts.1 in cc

ends_at-split :
    (first last : Location) (rest : List Location)
    → ends_at first last rest ≡ true
    → (middle : List Location) × (last ∷ rest ≡ middle ++ first ∷ [])
unfolding ends_at
ends_at-split first last [] h = ([], ap (λ x. x ∷ []) (sym (same_location→eq first last h)))
ends_at-split first last (next ∷ rest) h =
    let (middle, e) = ends_at-split first next rest h in (last ∷ middle, ap (λ l. last ∷ l) e)

is_closed-IsRing : (cs : List Location) → is_closed cs ≡ true → IsRing cs
unfolding is_closed ends_at
is_closed-IsRing [] h = cc
is_closed-IsRing (c ∷ []) h = absurd (ground arith)
is_closed-IsRing (c ∷ d ∷ cs) h =
    let parts = and_parts (leb 4 (length (c ∷ d ∷ cs))) (ends_at c d cs) h in
    let (middle, e) = ends_at-split c d cs parts.1 in
    record {
      first = c;
      middle = middle;
      closed = ap (λ l. c ∷ l) e;
      long = (let l = parts.0 in ground (arith, l));
    }

way_geometry-IsWellFormed :
    (tags : Tags) (cs : List Location) → 2 ≤ length cs → IsWellFormed (way_geometry tags cs)
unfolding way_geometry
way_geometry-IsWellFormed tags cs two = elim (Bool-cases (is_closed cs && is_area tags)) [
  | inl ring ↦ rw ring (is_closed-IsRing cs (and_parts (is_closed cs) (is_area tags) ring).0)
  | inr line ↦ rw line two
]

abbrev IsFine : Option Feature → Type 0
IsFine none = Unit
IsFine (some x) = IsWellFormed x.geometry

located_way-IsFine : (e : Element) (cs : List Location) → IsFine (located_way e cs)
unfolding located_way
located_way-IsFine e cs = elim (Bool-cases (ltb (length cs) 2)) [
  | inl short ↦ rw short tt
  | inr long ↦ rw long (way_geometry-IsWellFormed e.tags cs (ground arith))
]

way_feature-IsFine :
    (e : Element) (coords : Option (ℕ → Option Location)) → IsFine (way_feature e coords)
unfolding way_feature
way_feature-IsFine e none = elim (Bool-cases (is_empty e.node_refs)) [
  | inl nothing ↦ rw nothing tt
  | inr refs ↦ rw refs tt
]
way_feature-IsFine e (some coords) = elim (Bool-cases (is_empty e.node_refs)) [
  | inl nothing ↦ rw nothing tt
  | inr refs ↦ rw refs (located_way-IsFine e (locate coords e.node_refs))
]

feature-IsFine :
    (t : OsmType) (e : Element) (coords : Option (ℕ → Option Location))
    → IsFine (feature_of_type t e coords)
unfolding feature_of_type node_feature
feature-IsFine node_type e coords = elim (Option-cases e.location) [
  | inl nowhere ↦ rw nowhere tt
  | inr (at, here) ↦ rw here tt
]
feature-IsFine way_type e coords = way_feature-IsFine e coords
feature-IsFine relation_type e coords = tt
feature-IsFine all_types e coords = tt

keep_feature-All :
    (o : Option Feature) (rest : List Feature)
    → IsFine o
    → All (λ (x : Feature). IsWellFormed x.geometry) rest
    → All (λ (x : Feature). IsWellFormed x.geometry) (keep_feature o rest)
unfolding keep_feature
keep_feature-All none rest h all = all
keep_feature-All (some x) rest h all = (h, all)

features_of-All :
    (coords : Option (ℕ → Option Location)) (es : List Element)
    → All (λ (x : Feature). IsWellFormed x.geometry) (features_of coords es)
unfolding features_of to_geojson_feature
features_of-All coords [] = tt
features_of-All coords (e ∷ es) =
    keep_feature-All _ (features_of coords es) (feature-IsFine e.osm_type e coords)
      (features_of-All coords es)

-- Whatever the file, each line that `filter_pbf_by_type` writes has at least two points, and each
-- polygon is a ring of at least four that ends where it begins.
pub filter_pbf_by_type-IsWellFormed :
    (f : Filter) (file : List Entity)
    → All (λ (x : Feature). IsWellFormed x.geometry) (filter_pbf_by_type f file).features
unfolding filter_pbf_by_type
filter_pbf_by_type-IsWellFormed f file = features_of-All _ (scan f file new_handler).elements
