-- ===== src/Queries/Expression.antt =====
-- `normalise`, `validate` and `digest_of` of tools/_osm_tools/tag_query.py. `none` is an
-- `ExtractionError`. The hash function is a parameter, from texts to texts of hexadecimal digits.
use fwh_osm.Prelude.{
  ℕ, suc, Bool, true, false, not, ◌&&◌, ◌||◌, Option, none, some, List, [], ◌∷◌, ◌++◌,
  if◌then◌else◌, ltb, leb, ◌==◌, is_empty, take,
}
use fwh_osm.Prelude.Text.{Text, codes, is_space, is_digit}
use fwh_osm.Queries.Words.{words, join_words, sorted}

unfoldable pub normalise : Text → Option Text
unfolding words join_words sorted
normalise expression =
    let terms = words expression in
    if is_empty terms then none else some (join_words (sorted terms))

-- The classes of the pattern `_TERM`: `[nwr]` and `[A-Za-z0-9_:.\-]`
abbrev pub is_object_type : ℕ → Bool
is_object_type c = c == b'n' || c == b'w' || c == b'r'

abbrev pub is_key_char : ℕ → Bool
is_key_char c =
    (leb 65 c && leb c 90)
    || (leb 97 c && leb c 122)
    || is_digit c
    || c == b'_'
    || c == b':'
    || c == b'.'
    || c == b'-'

-- `[^\s]+`
unfoldable pub is_value : Text → Bool
is_value [] = false
is_value (c ∷ []) = not (is_space c)
is_value (c ∷ d ∷ s) = not (is_space c) && is_value (d ∷ s)

-- `[A-Za-z0-9_:.\-]*(=[^\s]+)?$`
unfoldable pub key_rest : Text → Bool
unfolding is_value
key_rest [] = true
key_rest (c ∷ s) = let rest = key_rest s in if is_key_char c then rest else c == b'=' && is_value s

unfoldable pub is_key : Text → Bool
unfolding key_rest
is_key [] = false
is_key (c ∷ s) = is_key_char c && key_rest s

-- `_TERM.match`, behind `seen` object types
unfoldable pub is_term_from : ℕ → Text → Bool
unfolding is_key
is_term_from seen [] = false
is_term_from seen (c ∷ s) =
    let rest = is_term_from (suc seen) s in
    if is_object_type c then ltb seen 3 && rest else c == b'/' && leb 1 seen && is_key s

unfoldable pub is_term : Text → Bool
unfolding is_term_from
is_term s = is_term_from 0 s

unfoldable pub all_terms : List Text → Bool
unfolding is_term
all_terms [] = true
all_terms (t ∷ ts) = is_term t && all_terms ts

unfoldable pub validate : Text → Option Text
validate expression = elim (normalise expression) [
  | none ↦ none
  | some norm ↦ if all_terms (words norm) then some norm else none
]

unfoldable pub digest_of : (Text → Text) → Text → Option Text
digest_of sha256 expression = elim (normalise expression) [
  | none ↦ none
  | some norm ↦ some (take 12 (sha256 norm))
]

-- `f"{digest}/{region}-latest.{DEFAULT_FORMAT}"`
unfoldable pub query_rel_path : Text → Text → Text
query_rel_path region digest = digest ++ codes "/" ++ region ++ codes "-latest.geojsonseq"
