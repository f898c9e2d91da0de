-- ===== src/Population/Match.antt =====
-- `matches_population` and `describe_filter`.
use fwh_osm.Prelude.{
  ℕ, suc, ◌%◌, Bool, not, ◌&&◌, Option, none, some, [], ◌∷◌, ◌++◌, if◌then◌else◌, ◌==◌, length,
  is_empty,
}
use fwh_osm.Prelude.Int.{ℤ, pos, negsuc, leb_ℤ, ltb_ℤ, eqb_ℤ}
use fwh_osm.Prelude.Result.{Result, ok, err, value_error, type_error}
use fwh_osm.Prelude.Text.{Text, codes, decimal}
use fwh_osm.Population.Places.{
  PlaceType, all_places, place_value, Operator, gt, gte, lt, lte, eq_to, ne, between,
}
use fwh_osm.Population.Parse.{comma}

unfoldable pub matches_population : ℤ → ℤ → Option ℤ → Operator → Result Bool
matches_population population min_pop max_pop gt = ok (ltb_ℤ min_pop population)
matches_population population min_pop max_pop gte = ok (leb_ℤ min_pop population)
matches_population population min_pop max_pop lt = ok (ltb_ℤ population min_pop)
matches_population population min_pop max_pop lte = ok (leb_ℤ population min_pop)
matches_population population min_pop max_pop eq_to = ok (eqb_ℤ population min_pop)
matches_population population min_pop max_pop ne = ok (not (eqb_ℤ population min_pop))
matches_population population min_pop none between = err value_error
matches_population population min_pop (some m) between =
    ok (leb_ℤ min_pop population && leb_ℤ population m)

-- A comma in front of each group of three digits, but the first group.
unfoldable pub group_digits : Text → Text
group_digits [] = []
group_digits (c ∷ s) =
    let rest = group_digits s in
    if not (is_empty s) && length s % 3 == 0 then c ∷ comma ∷ rest else c ∷ rest

-- `f"{n:,}"`
unfoldable pub grouped : ℕ → Text
unfolding group_digits decimal
grouped n = group_digits (decimal n)

unfoldable pub grouped_int : ℤ → Text
unfolding grouped
grouped_int (pos n) = grouped n
grouped_int (negsuc n) = codes "-" ++ grouped (suc n)

unfoldable pub type_words : PlaceType → Text
unfolding place_value
type_words all_places = codes "all places"
type_words place_type = place_value place_type

-- The words behind `with population`; the empty `max_pop` cannot be formatted.
unfoldable pub range_words : ℤ → Option ℤ → Operator → Result Text
unfolding grouped_int
range_words m top gt = ok (codes "> " ++ grouped_int m)
range_words m top gte = ok (codes ">= " ++ grouped_int m)
range_words m top lt = ok (codes "< " ++ grouped_int m)
range_words m top lte = ok (codes "<= " ++ grouped_int m)
range_words m top eq_to = ok (codes "= " ++ grouped_int m)
range_words m top ne = ok (codes "!= " ++ grouped_int m)
range_words m none between = err type_error
range_words m (some top) between =
    ok (codes "between " ++ (grouped_int m ++ (codes " and " ++ grouped_int top)))

unfoldable pub describe_filter : PlaceType → ℤ → Option ℤ → Operator → Result Text
unfolding type_words range_words
describe_filter place_type min_pop max_pop operator = elim (range_words min_pop max_pop operator) [
  | err e ↦ err e
  | ok words ↦ ok (type_words place_type ++ (codes " with population " ++ words))
]
