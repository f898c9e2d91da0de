-- ===== src/Population/Top.antt =====
-- `top_n_by_population`: the most populous features. `sorted(…, reverse=True)` is stable.
pub mod Ranked
use fwh_osm.Prelude.{
  ℕ, suc, Bool, true, false, Option, none, some, List, [], ◌∷◌, if◌then◌else◌, length, take,
}
use fwh_osm.Prelude.Int.{ℤ, pos, negsuc, leb_ℤ}
use fwh_osm.Population.Places.{Value, Tags}
use fwh_osm.Population.Parse.{parse_population}
use fwh_osm.Population.Filter.{Properties, absent, null_properties, object, Feature, get_value}

-- `feature.get("properties", {}) or {}`
unfoldable pub props_of : Properties → Tags
props_of absent = []
props_of null_properties = []
props_of (object tags) = tags

unfoldable pub first_of : Option ℤ → Option ℤ → ℤ
first_of (some n) second = n
first_of none (some n) = n
first_of none none = negsuc 0

-- `_pop`
unfoldable pub pop : Feature → ℤ
unfolding props_of first_of parse_population get_value
pop f =
    let props = props_of f.properties in
    first_of (parse_population (get_value "population_value" props))
      (parse_population (get_value "population" props))

-- In front of the first feature that is not above it.
unfoldable pub insert_ranked : Feature → List Feature → List Feature
insert_ranked f [] = f ∷ []
insert_ranked f (g ∷ gs) =
    let rest = insert_ranked f gs in if leb_ℤ (pop g) (pop f) then f ∷ g ∷ gs else g ∷ rest

unfoldable pub sorted_by_pop : List Feature → List Feature
unfolding insert_ranked
sorted_by_pop [] = []
sorted_by_pop (f ∷ fs) = insert_ranked f (sorted_by_pop fs)

-- The output.
unfoldable pub top_n_by_population : List Feature → ℤ → List Feature
unfolding sorted_by_pop
top_n_by_population features (pos n) = take n (sorted_by_pop features)
top_n_by_population features (negsuc n) = sorted_by_pop features
