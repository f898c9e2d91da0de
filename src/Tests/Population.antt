-- ===== src/Tests/Population.antt =====
-- Places of three sizes, and the theorems of Population at them.
use fwh_osm.Prelude.{
  ℕ, String, true, false, none, some, List, [], ◌∷◌, ◌++◌, ◌≡◌, refl, length, All,
}
use fwh_osm.Prelude.Int.{ℤ, pos}
use fwh_osm.Prelude.Result.{Error, ok, err}
use fwh_osm.Prelude.Text.{codes, strip, lstrip_by, rstrip_by, value, value_from, decimal}
use fwh_osm.Population.Places.{
  PlaceType, city, town, Operator, gte, str, Tags, get, lookup, from_string, place_from_string,
  operator_from_string, value_in, place_names, admin_levels, matches_tags, matches_place_type,
  place_value,
}
use fwh_osm.Population.Parse.{
  has_char, remove_char, split, cons_head, looks_like_thousands, drop_separators, numeric, read_int,
  parse_stripped, parse_population,
}
use fwh_osm.Population.Match.{
  grouped, group_digits, grouped_int, matches_population, describe_filter, type_words, range_words,
}
use fwh_osm.Population.Filter.{
  object, Feature, get_value, select_number, select_tags, select, keep_if, filter_features,
  PopulationFilteredFeatures, given, named, resolve, report, write_filtered, filter_resolved,
  filter_geojson_by_population,
}
use fwh_osm.Population.Filter.Whole.{IsFiltered, filter_geojson_exact, filter_geojson_needs_bound}
use fwh_osm.Population.Top.{top_n_by_population, pop}
use fwh_osm.Population.Top.Ranked.{AllBelow, IsRanked, having, top_n_by_population-IsTop}
use fwh_osm.Population.Stats.{PopulationStats}
use fwh_osm.Population.Extract.{Node, new_handler, apply_file}
use fwh_osm.Population.Extract.Kept.{IsRun, apply_file-IsRun}

abbrev place_tags : String → String → Tags
place_tags place population =
    ("place", str (codes place)) ∷ ("population", str (codes population)) ∷ []

abbrev feature : ℕ → String → String → Feature
feature n place population = record { properties = object (place_tags place population); rest = n }

abbrev three : List Feature
three = feature 1 "city" "1,234" ∷ feature 2 "town" "~900" ∷ feature 3 "city" "1.000.000+" ∷ []

about_1234 : parse_population (str (codes "~1,234+")) ≡ some (pos 1234)
unfolding parse_population parse_stripped strip lstrip_by rstrip_by drop_separators has_char
    remove_char numeric read_int value value_from
about_1234 = refl

-- A period is dropped as well: this reads 12345.
decimal_point : parse_population (str (codes "1234.5")) ≡ some (pos 12345)
unfolding parse_population parse_stripped strip lstrip_by rstrip_by drop_separators has_char split
    cons_head looks_like_thousands numeric read_int value value_from
decimal_point = refl

-- The two cities of at least 1000.
abbrev report_2 : PopulationFilteredFeatures
report_2 = record {
  feature_count = 2;
  original_count = 3;
  place_type = codes "city";
  min_population = pos 1000;
  max_population = pos 0;
  filter_applied = codes "city with population >= 1,000";
}

filter_geojson_exact_example :
    (place : PlaceType) × (o : Operator) × (resolve place_from_string (named (codes " Cities"))
      ≡ ok place)
    × (resolve operator_from_string (given gte) ≡ ok o)
    × IsFiltered three
        (pos 1000)
        none
        place
        o
        report_2
        (filter_geojson_by_population three (pos 1000) none (named (codes " Cities")) (given gte)).1
unfolding filter_geojson_by_population filter_resolved write_filtered filter_features select
    select_tags select_number matches_population keep_if report describe_filter range_words
    type_words grouped_int grouped group_digits decimal parse_population parse_stripped strip
    lstrip_by rstrip_by drop_separators has_char remove_char split cons_head looks_like_thousands
    numeric read_int value value_from matches_place_type matches_tags value_in place_names
    admin_levels get get_value resolve place_from_string from_string lookup place_value
filter_geojson_exact_example =
    filter_geojson_exact three (pos 1000) none (named (codes " Cities")) (given gte) report_2 refl

filter_geojson_needs_bound_example :
    (x : Error) × ((filter_geojson_by_population []
        (pos 5)
        none
        (given town)
        (named (codes "range"))).0
      ≡ err x)
unfolding resolve operator_from_string from_string lookup strip lstrip_by rstrip_by
filter_geojson_needs_bound_example =
    filter_geojson_needs_bound [] (pos 5) (given town) (named (codes "range")) refl

top_n_by_population-IsTop_example :
    let out = top_n_by_population three (pos 2) in
    (length out ≡ 2)
    × IsRanked out
    × ((left_out : List Feature) × All (λ (f : Feature). AllBelow (pop f) left_out) out
        × ((p : ℤ) → having p (out ++ left_out) ≡ having p three))
top_n_by_population-IsTop_example = top_n_by_population-IsTop three 2

-- 1234 and 1000000
abbrev stats_2 : PopulationStats
stats_2 = record {
  total_places = 2;
  total_population = 1001234;
  min_population = 1234;
  max_population = 1000000;
  avg_population = 500617;
  place_type = codes "city";
}

abbrev oslo : Node
oslo = record {
  id = 7;
  valid = true;
  location = (pos 10, pos 60);
  tags = ("place", codes "city") ∷ ("population", codes "700,000") ∷ [];
}

abbrev nodes : List Node
nodes =
    oslo ∷ record oslo { valid = false } ∷ record oslo { tags = ("place", codes "city") ∷ [] } ∷ []

apply_file-IsRun_example : IsRun city 700000 nodes (apply_file city 700000 nodes new_handler)
apply_file-IsRun_example = apply_file-IsRun city 700000 nodes
