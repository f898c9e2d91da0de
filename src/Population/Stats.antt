-- ===== src/Population/Stats.antt =====
-- `calculate_population_stats`.
pub mod Sums
pub mod Counted
pub mod Bounds
use fwh_osm.Prelude.{
  ℕ, zero, suc, ◌+◌, ◌/◌, min, max, Bool, true, false, Option, none, some, List, [], ◌∷◌,
  if◌then◌else◌, length,
}
use fwh_osm.Prelude.Int.{ℤ, pos, negsuc}
use fwh_osm.Prelude.Result.{Result, ok, err, ◌>>=◌, type_error, attribute_error}
use fwh_osm.Prelude.Text.{Text}
use fwh_osm.Population.Places.{
  PlaceType, all_places, Tags, matches_place_type, place_from_string, place_value,
}
use fwh_osm.Population.Parse.{parse_population}
use fwh_osm.Population.Filter.{
  Properties, absent, null_properties, object, Feature, get_value, Argument, resolve,
}

pub record PopulationStats : Type 0 where
  pub total_places : ℕ
  pub total_population : ℕ
  pub min_population : ℕ
  pub max_population : ℕ
  pub avg_population : ℕ
  pub place_type : Text

-- `population is not None and population > 0`
unfoldable pub positive : Option ℤ → Option ℕ
positive (some (pos (suc n))) = some (suc n)
positive _ = none

unfoldable pub counted_tags : PlaceType → Tags → Option ℕ
unfolding matches_place_type parse_population get_value positive
counted_tags place_type tags =
    if matches_place_type tags place_type
    then positive (parse_population (get_value "population" tags))
    else none

-- `"population" in None`, or `None.get`
unfoldable pub null_count : PlaceType → Result (Option ℕ)
null_count all_places = err type_error
null_count _ = err attribute_error

unfoldable pub counted : PlaceType → Properties → Result (Option ℕ)
unfolding counted_tags null_count
counted place_type absent = ok (counted_tags place_type [])
counted place_type null_properties = null_count place_type
counted place_type (object tags) = ok (counted_tags place_type tags)

unfoldable pub append_some : Option ℕ → List ℕ → List ℕ
append_some none rest = rest
append_some (some n) rest = n ∷ rest

unfoldable pub populations : PlaceType → List Feature → Result (List ℕ)
unfolding counted append_some
populations place_type [] = ok []
populations place_type (f ∷ fs) =
    counted place_type f.properties
    >>= (λ found. populations place_type fs >>= (λ rest. ok (append_some found rest)))

unfoldable pub sum : List ℕ → ℕ
sum [] = 0
sum (n ∷ ns) = n + sum ns

-- `min` and `max` of a list that begins with `n`
unfoldable pub least_of : ℕ → List ℕ → ℕ
least_of n [] = n
least_of n (m ∷ ms) = min n (least_of m ms)

unfoldable pub greatest_of : ℕ → List ℕ → ℕ
greatest_of n [] = n
greatest_of n (m ∷ ms) = max n (greatest_of m ms)

unfoldable pub stats_of : PlaceType → List ℕ → PopulationStats
unfolding sum least_of greatest_of
stats_of place_type [] = record {
  total_places = 0;
  total_population = 0;
  min_population = 0;
  max_population = 0;
  avg_population = 0;
  place_type = place_value place_type;
}
stats_of place_type (n ∷ ns) = record {
  total_places = length (n ∷ ns);
  total_population = sum (n ∷ ns);
  min_population = least_of n ns;
  max_population = greatest_of n ns;
  avg_population = sum (n ∷ ns) / length (n ∷ ns);
  place_type = place_value place_type;
}

unfoldable pub calculate_population_stats :
    List Feature → Argument PlaceType → Result PopulationStats
unfolding populations stats_of resolve
calculate_population_stats features place_type =
    resolve place_from_string place_type
    >>= (λ place. populations place features >>= (λ found. ok (stats_of place found)))
