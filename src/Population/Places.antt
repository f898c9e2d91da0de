-- ===== src/Population/Places.antt =====
-- `PlaceType`, `Operator`, their names, and the tags of a place.
use fwh_osm.Prelude.{
  String, Bool, false, ◌&&◌, ◌||◌, Option, none, some, List, [], ◌∷◌, if◌then◌else◌, str_eq,
  is_some,
}
use fwh_osm.Prelude.Int.{ℤ}
use fwh_osm.Prelude.Result.{Result, ok, err, value_error}
use fwh_osm.Prelude.Text.{Text, codes, strip, lower, same_text}

pub data PlaceType : Type 0 where
  city town village hamlet suburb country state county municipality all_places : PlaceType

pub data Operator : Type 0 where
  gt gte lt lte eq_to ne between : Operator

-- The value behind a name in a table; `dict.get`, on a table whose names differ.
unfoldable pub lookup {ℓ} : {A : Type ℓ} → Text → List (Text × A) → Option A
lookup k [] = none
lookup k ((n, a) ∷ rest) = if same_text k n then some a else lookup k rest

abbrev pub place_aliases : List (Text × PlaceType)
place_aliases =
    (codes "city", city)
    ∷ (codes "cities", city)
    ∷ (codes "town", town)
    ∷ (codes "towns", town)
    ∷ (codes "village", village)
    ∷ (codes "villages", village)
    ∷ (codes "hamlet", hamlet)
    ∷ (codes "hamlets", hamlet)
    ∷ (codes "suburb", suburb)
    ∷ (codes "suburbs", suburb)
    ∷ (codes "country", country)
    ∷ (codes "countries", country)
    ∷ (codes "nation", country)
    ∷ (codes "state", state)
    ∷ (codes "states", state)
    ∷ (codes "province", state)
    ∷ (codes "provinces", state)
    ∷ (codes "county", county)
    ∷ (codes "counties", county)
    ∷ (codes "municipality", municipality)
    ∷ (codes "municipalities", municipality)
    ∷ (codes "all", all_places)
    ∷ (codes "*", all_places)
    ∷ []

abbrev pub operator_aliases : List (Text × Operator)
operator_aliases =
    (codes "gt", gt)
    ∷ (codes ">", gt)
    ∷ (codes "gte", gte)
    ∷ (codes ">=", gte)
    ∷ (codes "lt", lt)
    ∷ (codes "<", lt)
    ∷ (codes "lte", lte)
    ∷ (codes "<=", lte)
    ∷ (codes "eq", eq_to)
    ∷ (codes "=", eq_to)
    ∷ (codes "==", eq_to)
    ∷ (codes "ne", ne)
    ∷ (codes "!=", ne)
    ∷ (codes "<>", ne)
    ∷ (codes "between", between)
    ∷ (codes "range", between)
    ∷ []

-- `value.lower().strip()`, looked up, or a `ValueError`
unfoldable pub from_string {ℓ} : {A : Type ℓ} → List (Text × A) → Text → Result A
unfolding lookup
from_string aliases value = elim (lookup (strip (lower value)) aliases) [
  | none ↦ err value_error
  | some a ↦ ok a
]

unfoldable pub place_from_string : Text → Result PlaceType
unfolding from_string
place_from_string value = from_string place_aliases value

unfoldable pub operator_from_string : Text → Result Operator
unfolding from_string
operator_from_string value = from_string operator_aliases value

-- `place_type.value`
unfoldable pub place_value : PlaceType → Text
place_value city = codes "city"
place_value town = codes "town"
place_value village = codes "village"
place_value hamlet = codes "hamlet"
place_value suburb = codes "suburb"
place_value country = codes "country"
place_value state = codes "state"
place_value county = codes "county"
place_value municipality = codes "municipality"
place_value all_places = codes "all"

-- A JSON value under a tag's name; `other` is a float, a list or an object, with its `str()`.
pub data Value : Type 0 where
  null : Value
  bool : Bool → Value
  int : ℤ → Value
  str other : Text → Value

abbrev pub Tags : Type 0
Tags = List (String × Value)

unfoldable pub get : String → Tags → Option Value
get k [] = none
get k ((n, v) ∷ rest) = if str_eq k n then some v else get k rest

-- `value in names`: only a string equals one.
unfoldable pub value_in : Option Value → List Text → Bool
value_in v [] = false
value_in (some (str s)) (n ∷ ns) = same_text s n || value_in (some (str s)) ns
value_in v (n ∷ ns) = false

-- `PLACE_TAGS`: the values of `place`, and the levels of an administrative boundary.
unfoldable pub place_names : PlaceType → List Text
place_names city = codes "city" ∷ []
place_names town = codes "town" ∷ []
place_names village = codes "village" ∷ []
place_names hamlet = codes "hamlet" ∷ []
place_names suburb = codes "suburb" ∷ codes "neighbourhood" ∷ codes "quarter" ∷ []
place_names country = codes "country" ∷ []
place_names state = codes "state" ∷ codes "province" ∷ []
place_names county = codes "county" ∷ []
place_names municipality = codes "municipality" ∷ []
place_names all_places = []

unfoldable pub admin_levels : PlaceType → List Text
admin_levels country = codes "2" ∷ []
admin_levels state = codes "4" ∷ []
admin_levels county = codes "6" ∷ []
admin_levels municipality = codes "8" ∷ []
admin_levels _ = []

unfoldable pub matches_tags : List Text → List Text → Tags → Bool
unfolding get value_in
matches_tags names levels tags =
    value_in (get "place" tags) names
    || (value_in (get "boundary" tags) (codes "administrative" ∷ [])
        && value_in (get "admin_level" tags) levels)

unfoldable pub matches_place_type : Tags → PlaceType → Bool
unfolding matches_tags place_names admin_levels
matches_place_type tags all_places = is_some (get "population" tags)
matches_place_type tags place_type =
    matches_tags (place_names place_type) (admin_levels place_type) tags
