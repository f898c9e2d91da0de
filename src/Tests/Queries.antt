-- ===== src/Tests/Queries.antt =====
-- Two terms, asked of an extract of one byte.
use fwh_osm.Prelude.{ℕ, ◌≡◌, refl, true, false, none, some, List, [], ◌∷◌, length, if◌then◌else◌}
use fwh_osm.Prelude.Text.{Text, codes, same_text}
use fwh_osm.Queries.Words.{words, word_parts, join_words, sorted, insert_text, leb_text}
use fwh_osm.Queries.Expression.{
  normalise, validate, all_terms, is_term, is_term_from, is_key, key_rest, is_value, digest_of,
  query_rel_path,
}
use fwh_osm.Queries.Normal.{validate-normal}
use fwh_osm.Queries.Region.{
  Osmium, World, QueryResult, query_region, query_source, run_query, is_up_to_date, resolve_source,
  resolve_from, search_roots, made_up, pbf_rel_path, last_part, cached_result, side_of,
}
use fwh_osm.Queries.Cached.{query_region_again}
use mathlib.Core.List.{Permᴰ}

abbrev asked : Text
asked = codes "nwr/b=1  n/a"

abbrev asked_again : Text
asked_again = codes " n/a nwr/b=1"

sorted_terms : validate asked ≡ some (codes "n/a nwr/b=1")
unfolding validate normalise words word_parts join_words sorted insert_text leb_text all_terms
    is_term is_term_from is_key key_rest is_value
sorted_terms = refl

bare_type : validate (codes "nwr/") ≡ none
unfolding validate normalise words word_parts join_words sorted insert_text leb_text all_terms
    is_term is_term_from is_key key_rest is_value
bare_type = refl

same_terms : Permᴰ (words asked) (words asked_again)
unfolding words word_parts
same_terms = Permᴰ.swap refl refl

validate-normal_example :
    (Permᴰ (words asked) (words asked_again) → validate asked ≡ validate asked_again)
    × ((n : Text)
        → validate asked ≡ some n
        → Permᴰ (words n) (words asked)
          × (all_terms (words n) ≡ true)
          × (validate n ≡ some n)
          × (digest_of (λ t. t) n ≡ digest_of (λ t. t) asked))
validate-normal_example = validate-normal (λ t. t) asked asked_again

-- A file is a list of numbers, and osmium keeps it as it is.
abbrev tool : Osmium (List ℕ) (List ℕ)
tool = record {
  tags_filter = λ terms pbf. some pbf;
  export = λ pbf. some pbf;
  size_of = λ c. length c;
  sha256_of = λ c. c;
  features_of = λ c. length c;
  sha256_text = λ t. t;
}

abbrev disk : World (List ℕ) (List ℕ)
disk = record {
  source_sides = λ p. none;
  extracts = λ p.
      if same_text p (codes "d/r-latest.osm.pbf")
      then some (record { pbf = 7 ∷ []; mtime = 5; size = 1 })
      else none;
  answers = λ p. none;
  query_sides = λ p. none;
}

abbrev after : World (List ℕ) (List ℕ)
after = (query_region tool (codes "c") (codes "d" ∷ []) false (codes "r") asked disk).1

abbrev answer : QueryResult
answer = record {
  expression = codes "n/a nwr/b=1";
  digest = codes "n/a nwr/b=1";
  relative_path = codes "n/a nwr/b=1/r-latest.geojsonseq";
  size_bytes = 1;
  sha256 = 7 ∷ [];
  feature_count = 1;
  was_cached = false;
}

answered :
    query_region tool (codes "c") (codes "d" ∷ []) false (codes "r") asked disk
    ≡ (some answer, after)
unfolding query_region query_source run_query is_up_to_date resolve_source resolve_from search_roots
    made_up pbf_rel_path last_part cached_result side_of validate normalise words word_parts
    join_words sorted insert_text leb_text all_terms is_term is_term_from is_key key_rest is_value
    query_rel_path
answered = refl

query_region_again_example :
    query_region tool (codes "c") (codes "d" ∷ []) false (codes "r") asked_again after
    ≡ (some (record answer { was_cached = true }), after)
query_region_again_example =
    query_region_again tool (codes "c") (codes "d" ∷ []) false (codes "r") asked asked_again answer
      disk after answered same_terms
