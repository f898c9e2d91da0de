-- ===== src/Queries/Region.antt =====
-- `resolve_source`, `is_up_to_date` and `query_region` of tools/_osm_tools/tag_query.py. The two steps
-- of osmium are a parameter, `none` for a step that fails; so are the size, the digest and the number
-- of features of a file. The staging directory, which every way out removes, and the time that a run
-- takes are left out.
use fwh_osm.Prelude.{
  ℕ, Bool, true, false, not, ◌&&◌, Option, none, some, List, [], ◌∷◌, ◌++◌, if◌then◌else◌, ◌==◌,
  reversed, take,
}
use fwh_osm.Prelude.Text.{Text, codes, decimal, same_text}
use fwh_osm.Queries.Words.{words}
use fwh_osm.Queries.Expression.{validate, query_rel_path}

pub record Osmium (Pbf C : Type 0) : Type 0 where
  pub tags_filter : List Text → Pbf → Option Pbf
  pub export : Pbf → Option C
  pub size_of : C → ℕ
  pub sha256_of : C → Text
  pub features_of : C → ℕ
  pub sha256_text : Text → Text

-- An extract on the disk.
pub record Extract (Pbf : Type 0) : Type 0 where
  pub pbf : Pbf
  pub mtime : ℕ
  pub size : ℕ

pub record SourceSide : Type 0 where
  pub sha256 : Text
  pub size_bytes : ℕ

-- The sidecar of an answer.
pub record QuerySide : Type 0 where
  pub size_bytes : ℕ
  pub sha256 : Text
  pub source_sha256 : Text
  pub feature_count : ℕ

-- The sidecars of the download cache and the extracts by their paths, and the answers in the cache
-- with their sidecars by their relative paths.
pub record World (Pbf C : Type 0) : Type 0 where
  pub source_sides : Text → Option SourceSide
  pub extracts : Text → Option (Extract Pbf)
  pub answers : Text → Option C
  pub query_sides : Text → Option QuerySide

pub record QueryResult : Type 0 where
  pub expression : Text
  pub digest : Text
  pub relative_path : Text
  pub size_bytes : ℕ
  pub sha256 : Text
  pub feature_count : ℕ
  pub was_cached : Bool

unfoldable pub pbf_rel_path : Text → Text
pbf_rel_path region = region ++ codes "-latest.osm.pbf"

-- `region.rsplit("/", 1)[-1]`, behind the characters that are read of it
unfoldable pub last_part : Text → Text → Text
last_part read [] = reversed read
last_part read (c ∷ s) = last_part (if c == b'/' then [] else c ∷ read) s

-- `dir / name`
abbrev pub path_in : Text → Text → Text
path_in dir name = dir ++ codes "/" ++ name

unfoldable pub set_text {ℓ} : {V : Type ℓ} → Text → V → (Text → Option V) → Text → Option V
set_text key v t k = if same_text key k then some v else t k

-- What the sidecar of an answer says.
unfoldable pub cached_result : Text → Text → Text → QuerySide → QueryResult
cached_result norm digest out_rel side = record {
  expression = norm;
  digest = digest;
  relative_path = out_rel;
  size_bytes = side.size_bytes;
  sha256 = side.sha256;
  feature_count = side.feature_count;
  was_cached = true;
}

module _ {Pbf : Type 0} where
  -- The side that is made up for an extract without a sidecar.
  unfoldable pub made_up : Extract Pbf → Pbf × SourceSide
  made_up x = (
    x.pbf,
    record {
      sha256 = codes "mtime:" ++ decimal x.mtime ++ codes ":" ++ decimal x.size;
      size_bytes = x.size;
    },
  )

  unfoldable pub search_roots :
      (Text → Option (Extract Pbf)) → Text → List Text → Option (Pbf × SourceSide)
  unfolding made_up pbf_rel_path last_part
  search_roots extracts region [] = none
  search_roots extracts region (root ∷ roots) =
      let rest = search_roots extracts region roots in
      elim (extracts (path_in root (pbf_rel_path region))) [
        | some x ↦ some (made_up x)
        | none ↦ elim (extracts (path_in root (pbf_rel_path (last_part [] region)))) [
          | some x ↦ some (made_up x)
          | none ↦ rest
        ]
      ]

  -- The source by the sidecars and the extracts.
  unfoldable pub resolve_from :
      Text
      → List Text
      → Text
      → (Text → Option SourceSide)
      → (Text → Option (Extract Pbf))
      → Option (Pbf × SourceSide)
  unfolding pbf_rel_path search_roots
  resolve_from cache_root roots region sides extracts = elim (sides (pbf_rel_path region)) [
    | none ↦ search_roots extracts region roots
    | some side ↦ elim (extracts (path_in cache_root (pbf_rel_path region))) [
      | some x ↦ some (x.pbf, side)
      | none ↦ search_roots extracts region roots
    ]
  ]

module _ {Pbf C : Type 0} where
  unfoldable pub resolve_source : Text → List Text → Text → World Pbf C → Option (Pbf × SourceSide)
  unfolding resolve_from
  resolve_source cache_root roots region w =
      resolve_from cache_root roots region w.source_sides w.extracts

  unfoldable pub is_up_to_date : Osmium Pbf C → Text → SourceSide → World Pbf C → Bool
  is_up_to_date o out_rel side w = elim (w.query_sides out_rel) [
    | none ↦ false
    | some existing ↦ elim (w.answers out_rel) [
      | none ↦ false
      | some answer ↦
          same_text existing.source_sha256 side.sha256 && o.size_of answer == existing.size_bytes
    ]
  ]

  unfoldable pub side_of : Osmium Pbf C → SourceSide → C → QuerySide
  side_of o side answer = record {
    size_bytes = o.size_of answer;
    sha256 = o.sha256_of answer;
    source_sha256 = side.sha256;
    feature_count = o.features_of answer;
  }

  -- The two steps of osmium, and what is stored after them.
  unfoldable pub run_query :
      Osmium Pbf C
      → Text
      → Text
      → Text
      → Pbf
      → SourceSide
      → World Pbf C
      → Option QueryResult × World Pbf C
  run_query o norm digest out_rel pbf side w = elim (o.tags_filter (words norm) pbf) [
    | none ↦ (none, w)
    | some filtered ↦ elim (o.export filtered) [
      | none ↦ (none, w)
      | some answer ↦ (
        some (record (cached_result norm digest out_rel (side_of o side answer)) {
          was_cached = false;
        }),
        record w {
          answers = set_text out_rel answer w.answers;
          query_sides = set_text out_rel (side_of o side answer) w.query_sides;
        },
      )
    ]
  ]

  -- A query whose source is found.
  unfoldable pub query_source :
      Osmium Pbf C
      → Bool
      → Text
      → Text
      → Text
      → Pbf
      → SourceSide
      → World Pbf C
      → Option QueryResult × World Pbf C
  query_source o force norm digest out_rel pbf side w =
      if not force && is_up_to_date o out_rel side w
      then elim (w.query_sides out_rel) [
        | none ↦ (none, w)
        | some existing ↦ (some (cached_result norm digest out_rel existing), w)
      ]
      else run_query o norm digest out_rel pbf side w

  unfoldable pub query_region :
      Osmium Pbf C
      → Text
      → List Text
      → Bool
      → Text
      → Text
      → World Pbf C
      → Option QueryResult × World Pbf C
  query_region o cache_root roots force region expression w = elim (validate expression) [
    | none ↦ (none, w)
    | some norm ↦ elim (resolve_source cache_root roots region w) [
      | none ↦ (none, w)
      | some (pbf, side) ↦
          let digest = take 12 (o.sha256_text norm) in
          query_source o force norm digest (query_rel_path region digest) pbf side w
    ]
  ]
