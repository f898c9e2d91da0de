-- ===== src/Population/Filter.antt =====
-- `filter_geojson_by_population`, on the features of a collection that was read.
pub mod Exact
pub mod Whole
use fwh_osm.Prelude.{
  ℕ, suc, ◌≤◌, String, Bool, true, false, not, Option, none, some, List, [], ◌∷◌, if◌then◌else◌,
  length,
}
use fwh_osm.Prelude.Int.{ℤ, pos}
use fwh_osm.Prelude.Result.{Result, ok, err, ◌>>=◌, type_error, attribute_error}
use fwh_osm.Prelude.Text.{Text}
use fwh_osm.Population.Places.{
  PlaceType, all_places, Operator, Value, null, Tags, get, matches_place_type, place_from_string,
  operator_from_string, place_value,
}
use fwh_osm.Population.Parse.{parse_population}
use fwh_osm.Population.Match.{matches_population, describe_filter}

-- The `properties` of a feature: not there, `null`, or an object.
pub data Properties : Type 0 where
  absent null_properties : Properties
  object : Tags → Properties

-- `rest` stands for the other members of a feature.
pub record Feature : Type 0 where
  pub properties : Properties
  pub rest : ℕ

-- `tags.get(k)`
unfoldable pub get_value : String → Tags → Value
unfolding get
get_value k tags = elim (get k tags) [ none ↦ null | some v ↦ v ]

-- The tests of one round of the loop.
unfoldable pub select_number : Option ℤ → ℤ → Option ℤ → Operator → Result Bool
unfolding matches_population
select_number none min_pop max_pop operator = ok false
select_number (some population) min_pop max_pop operator =
    matches_population population min_pop max_pop operator

unfoldable pub select_tags : Tags → PlaceType → ℤ → Option ℤ → Operator → Result Bool
unfolding matches_place_type parse_population get_value select_number
select_tags tags place_type min_pop max_pop operator =
    if matches_place_type tags place_type
    then select_number (parse_population (get_value "population" tags)) min_pop max_pop operator
    else ok false

-- `"population" in None`, or `None.get`
unfoldable pub null_error : PlaceType → Result Bool
null_error all_places = err type_error
null_error _ = err attribute_error

unfoldable pub select : PlaceType → ℤ → Option ℤ → Operator → Properties → Result Bool
unfolding select_tags null_error
select place_type min_pop max_pop operator absent =
    select_tags [] place_type min_pop max_pop operator
select place_type min_pop max_pop operator null_properties = null_error place_type
select place_type min_pop max_pop operator (object tags) =
    select_tags tags place_type min_pop max_pop operator

unfoldable pub keep_if : {A : Type 0} → Bool → A → List A → List A
keep_if true a rest = a ∷ rest
keep_if false a rest = rest

unfoldable pub filter_features :
    PlaceType → ℤ → Option ℤ → Operator → List Feature → Result (List Feature)
unfolding select keep_if
filter_features place_type min_pop max_pop operator [] = ok []
filter_features place_type min_pop max_pop operator (f ∷ fs) =
    select place_type min_pop max_pop operator f.properties >>= (λ picked.
      filter_features place_type min_pop max_pop operator fs
      >>= (λ rest. ok (keep_if picked f rest)))

pub record PopulationFilteredFeatures : Type 0 where
  pub feature_count : ℕ
  pub original_count : ℕ
  pub place_type : Text
  pub min_population : ℤ
  pub max_population : ℤ
  pub filter_applied : Text

-- A place type or an operator is given as such, or by a name.
pub data Argument (A : Type 0) : Type 0 where
  given : A → Argument A
  named : Text → Argument A

unfoldable pub resolve : {A : Type 0} → (Text → Result A) → Argument A → Result A
resolve parse (given a) = ok a
resolve parse (named s) = parse s

abbrev or_zero : Option ℤ → ℤ
or_zero none = pos 0
or_zero (some n) = n

-- The result is made after the output is written.
unfoldable pub report :
    PlaceType → ℤ → Option ℤ → ℕ → List Feature → Result Text → Result PopulationFilteredFeatures
report place_type min_pop max_pop original kept (err e) = err e
report place_type min_pop max_pop original kept (ok words) = ok (record {
  feature_count = length kept;
  original_count = original;
  place_type = place_value place_type;
  min_population = min_pop;
  max_population = or_zero max_pop;
  filter_applied = words;
})

-- The output, and the result.
abbrev pub Written : Type 0
Written = Result PopulationFilteredFeatures × Option (List Feature)

unfoldable pub write_filtered :
    PlaceType → ℤ → Option ℤ → Operator → ℕ → Result (List Feature) → Written
unfolding report describe_filter
write_filtered place_type min_pop max_pop operator original (err e) = (err e, none)
write_filtered place_type min_pop max_pop operator original (ok kept) = (
  report place_type min_pop max_pop original kept
      (describe_filter place_type min_pop max_pop operator),
  some kept,
)

unfoldable pub filter_resolved :
    List Feature → ℤ → Option ℤ → Result PlaceType → Result Operator → Written
unfolding write_filtered filter_features
filter_resolved features min_pop max_pop (err e) operator = (err e, none)
filter_resolved features min_pop max_pop (ok place_type) (err e) = (err e, none)
filter_resolved features min_pop max_pop (ok place_type) (ok operator) =
    write_filtered place_type min_pop max_pop operator (length features)
      (filter_features place_type min_pop max_pop operator features)

unfoldable pub filter_geojson_by_population :
    List Feature → ℤ → Option ℤ → Argument PlaceType → Argument Operator → Written
unfolding filter_resolved resolve
filter_geojson_by_population features min_pop max_pop place_type operator =
    filter_resolved features min_pop max_pop (resolve place_from_string place_type)
      (resolve operator_from_string operator)
