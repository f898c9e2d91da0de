-- ===== src/Population/Extract.antt =====
-- The node handler of `extract_places_with_population`, and its run over a file.
pub mod Kept
use fwh_osm.Prelude.{
  ℕ, zero, suc, max, String, Bool, true, false, not, ◌&&◌, ◌||◌, Option, none, some, List, [], ◌∷◌,
  ◌++◌, if◌then◌else◌, ltb, is_some, map, str_eq,
}
use fwh_osm.Prelude.Int.{ℤ, pos}
use fwh_osm.Prelude.Text.{Text}
use fwh_osm.Population.Places.{PlaceType, Tags, Value, str, get, matches_place_type}
use fwh_osm.Population.Parse.{parse_pop}

-- A node of the file: the tags are texts, and the location may be invalid.
pub record Node : Type 0 where
  pub id : ℕ
  pub valid : Bool
  pub location : ℤ × ℤ
  pub tags : List (String × Text)

-- A feature that the writer is given: the tags, `osm_id`, and `population_value` if it is set.
pub record Place : Type 0 where
  pub tags : List (String × Text)
  pub osm_id : ℕ
  pub population_value : Option ℕ
  pub coordinates : ℤ × ℤ

pub record Handler : Type 0 where
  pub written : List Place
  pub kept : ℕ
  pub original : ℕ
  pub max_pop : ℕ

abbrev pub new_handler : Handler
new_handler = record { written = []; kept = 0; original = 0; max_pop = 0 }

abbrev pub as_tags : List (String × Text) → Tags
as_tags = map (λ (t : String × Text). (t.0, str t.1))

-- `tags.get(k, "")`, for text values
unfoldable pub get_text : String → List (String × Text) → Text
get_text k [] = []
get_text k ((n, v) ∷ rest) = let later = get_text k rest in if str_eq k n then v else later

-- `min_pop > 0 and (pop is None or pop < min_pop)`
unfoldable pub is_too_small : ℕ → Option ℕ → Bool
is_too_small min_pop none = ltb 0 min_pop
is_too_small min_pop (some p) = ltb 0 min_pop && ltb p min_pop

unfoldable pub raise_max : Option ℕ → ℕ → ℕ
raise_max none m = m
raise_max (some p) m = max m p

-- Behind the count of `original`.
unfoldable pub keep_node : ℕ → Node → Option ℕ → Handler → Handler
unfolding is_too_small raise_max
keep_node min_pop n p h = if is_too_small min_pop p then h else record {
  written =
      h.written
      ++ record { tags = n.tags; osm_id = n.id; population_value = p; coordinates = n.location }
        ∷ [];
  kept = suc h.kept;
  original = h.original;
  max_pop = raise_max p h.max_pop;
}

unfoldable pub node : PlaceType → ℕ → Node → Handler → Handler
unfolding keep_node get_text parse_pop matches_place_type get
node ptype min_pop n h =
    let tags = as_tags n.tags in
    if not n.valid
    then h
    else if not (is_some (get "place" tags)) && not (is_some (get "population" tags))
    then h
    else if not (matches_place_type tags ptype)
    then h
    else keep_node min_pop n (parse_pop (get_text "population" n.tags))
        (record h { original = suc h.original })

-- `handler.apply_file`: the nodes in the order of the file
unfoldable pub apply_file : PlaceType → ℕ → List Node → Handler → Handler
unfolding node
apply_file ptype min_pop [] h = h
apply_file ptype min_pop (n ∷ ns) h = apply_file ptype min_pop ns (node ptype min_pop n h)
