-- ===== src/Queries/Cached.antt =====
-- An answer that was given once is given again from the cache.
use fwh_osm.Prelude.{
  ◌≡◌, refl, sym, ap, subst, ◌∙◌, inl, inr, Bool, true, false, not, ◌&&◌, Option, none, some, List,
  arith, take, Bool-cases, Option-cases,
}
use fwh_osm.Prelude.Text.{Text, same_text_refl}
use fwh_osm.Queries.Words.{words}
use fwh_osm.Queries.Expression.{validate, query_rel_path}
use fwh_osm.Queries.Normal.{validate-normal}
use fwh_osm.Queries.Region.{
  Osmium, SourceSide, QuerySide, World, QueryResult, resolve_source, is_up_to_date, cached_result,
  side_of, set_text, run_query, query_source, query_region,
}
use mathlib.Core.List.{Permᴰ}
use mathlib.Core.Option.{none-ne-some, some-injective}

set_text-same :
    {V : Type 0} (key : Text) (v : V) (t : Text → Option V) → set_text key v t key ≡ some v
unfolding set_text
set_text-same key v t = rw (same_text_refl key) refl

module _ {Pbf C : Type 0} (o : Osmium Pbf C) where
  -- What a call leaves in the cache for its path.
  record Stored (norm digest out_rel : Text) (side : SourceSide) (r : QueryResult) (w : World Pbf C)
      : Type 0 where
    existing : QuerySide
    found : w.query_sides out_rel ≡ some existing
    fresh : is_up_to_date o out_rel side w ≡ true
    same : record r { was_cached = true } ≡ cached_result norm digest out_rel existing

  answer_again :
      (norm digest out_rel : Text) (pbf : Pbf) (side : SourceSide) (r : QueryResult)
      (w : World Pbf C)
      → Stored norm digest out_rel side r w
      → query_source o false norm digest out_rel pbf side w
        ≡ (some (record r { was_cached = true }), w)
  unfolding query_source
  answer_again norm digest out_rel pbf side r w h = rw (query_source, h.fresh, h.found, h.same) refl

  outcome :
      (q r : QueryResult) (v w : World Pbf C)
      → Path (Option QueryResult × World Pbf C) (some q, v) (some r, w)
      → (q ≡ r) × (v ≡ w)
  outcome q r v w h = (some-injective q r (ap (λ p. p.0) h), ap (λ p. p.1) h)

  refused :
      (r : QueryResult) (v w : World Pbf C)
      → Path (Option QueryResult × World Pbf C) (none, v) (some r, w)
      → ⊥
  refused r v w h = none-ne-some r (ap (λ p. p.0) h)

  -- The call leaves its answer, and the sources as they were.
  abbrev Leaves : Text → Text → Text → SourceSide → QueryResult → World Pbf C → World Pbf C → Type 0
  Leaves norm digest out_rel side r w w' =
      Stored norm digest out_rel side r w'
      × (w'.source_sides ≡ w.source_sides)
      × (w'.extracts ≡ w.extracts)

  stored_by_run :
      (norm digest out_rel : Text) (side : SourceSide) (answer : C) (w : World Pbf C)
      → Leaves norm digest out_rel side
          (record (cached_result norm digest out_rel (side_of o side answer)) {
            was_cached = false;
          })
          w
          (record w {
            answers = set_text out_rel answer w.answers;
            query_sides = set_text out_rel (side_of o side answer) w.query_sides;
          })
  unfolding is_up_to_date side_of cached_result
  stored_by_run norm digest out_rel side answer w = (
    record {
      existing = side_of o side answer;
      found = set_text-same out_rel (side_of o side answer) w.query_sides;
      fresh =
          rw
            (
              is_up_to_date,
              set_text-same out_rel (side_of o side answer) w.query_sides,
              set_text-same out_rel answer w.answers,
              same_text_refl side.sha256,
            )
            (ground arith);
      same = refl;
    },
    refl,
    refl,
  )

  run_query-Leaves :
      (norm digest out_rel : Text) (pbf : Pbf) (side : SourceSide) (r : QueryResult)
      (w w' : World Pbf C)
      → run_query o norm digest out_rel pbf side w ≡ (some r, w')
      → Leaves norm digest out_rel side r w w'
  unfolding run_query
  run_query-Leaves norm digest out_rel pbf side r w w' h =
      elim (Option-cases (o.tags_filter (words norm) pbf)) [
        | inl fails ↦
            let e : run_query o norm digest out_rel pbf side w ≡ (none, w) =
              rw (run_query, fails) refl in
            absurd (refused r w w' (sym e ∙ h))
        | inr (filtered, runs) ↦ elim (Option-cases (o.export filtered)) [
          | inl fails ↦
              let e : run_query o norm digest out_rel pbf side w ≡ (none, w) =
                rw (run_query, runs, fails) refl in
              absurd (refused r w w' (sym e ∙ h))
          | inr (answer, exports) ↦
              let q : QueryResult =
                record (cached_result norm digest out_rel (side_of o side answer)) {
                  was_cached = false;
                } in
              let v : World Pbf C = record w {
                answers = set_text out_rel answer w.answers;
                query_sides = set_text out_rel (side_of o side answer) w.query_sides;
              } in
              let e : run_query o norm digest out_rel pbf side w ≡ (some q, v) =
                rw (run_query, runs, exports) refl in
              let (a, b) = outcome q r v w' (sym e ∙ h) in
              subst (λ k. Leaves norm digest out_rel side k w w') a
                (subst (λ k. Leaves norm digest out_rel side q w k) b
                  (stored_by_run norm digest out_rel side answer w))
        ]
      ]

  query_source-Leaves :
      (force : Bool) (norm digest out_rel : Text) (pbf : Pbf) (side : SourceSide) (r : QueryResult)
      (w w' : World Pbf C)
      → query_source o force norm digest out_rel pbf side w ≡ (some r, w')
      → Leaves norm digest out_rel side r w w'
  unfolding query_source cached_result
  query_source-Leaves force norm digest out_rel pbf side r w w' h =
      elim (Bool-cases (not force && is_up_to_date o out_rel side w)) [
        | inr runs ↦
            let e : query_source o force norm digest out_rel pbf side w
                ≡ run_query o norm digest out_rel pbf side w =
              rw (query_source, runs) refl in
            run_query-Leaves norm digest out_rel pbf side r w w' (sym e ∙ h)
        | inl answered ↦ elim (Option-cases (w.query_sides out_rel)) [
          | inl absent ↦
              let e : query_source o force norm digest out_rel pbf side w ≡ (none, w) =
                rw (query_source, answered, absent) refl in
              absurd (refused r w w' (sym e ∙ h))
          | inr (existing, found) ↦
              let q = cached_result norm digest out_rel existing in
              let e : query_source o force norm digest out_rel pbf side w ≡ (some q, w) =
                rw (query_source, answered, found) refl in
              let (a, b) = outcome q r w w' (sym e ∙ h) in
              subst (λ k. Leaves norm digest out_rel side k w w') a
                (subst (λ k. Leaves norm digest out_rel side q w k) b
                  (
                    record {
                      existing = existing;
                      found = found;
                      fresh = ground (arith, Bool-cases force);
                      same = refl;
                    },
                    refl,
                    refl,
                  ))
        ]
      ]

-- The source is found by the sidecars of the downloads and the extracts alone.
resolve_source_by :
    {Pbf C : Type 0} (cache_root : Text) (roots : List Text) (region : Text) (v w : World Pbf C)
    → v.source_sides ≡ w.source_sides
    → v.extracts ≡ w.extracts
    → resolve_source cache_root roots region v ≡ resolve_source cache_root roots region w
unfolding resolve_source
resolve_source_by cache_root roots region v w e f = rw (resolve_source, e, f) refl

-- A query that was answered, by a run or from the cache, is answered from the cache when it is asked
-- again of the extract as it is: with the same result and no change, and that for every expression
-- with the same terms.
pub query_region_again :
    {Pbf C : Type 0} (o : Osmium Pbf C) (cache_root : Text) (roots : List Text) (force : Bool)
    (region e f : Text) (r : QueryResult) (w w' : World Pbf C)
    → query_region o cache_root roots force region e w ≡ (some r, w')
    → Permᴰ (words e) (words f)
    → query_region o cache_root roots false region f w'
      ≡ (some (record r { was_cached = true }), w')
unfolding query_region
query_region_again o cache_root roots force region e f r w w' h p =
    let equal = (validate-normal o.sha256_text e f).0 p in
    elim (Option-cases (validate e)) [
      | inl bad ↦
          let k : query_region o cache_root roots force region e w ≡ (none, w) =
            rw (query_region, bad) refl in
          absurd (refused o r w w' (sym k ∙ h))
      | inr (norm, good) ↦ elim (Option-cases (resolve_source cache_root roots region w)) [
        | inl missing ↦
            let k : query_region o cache_root roots force region e w ≡ (none, w) =
              rw (query_region, good, missing) refl in
            absurd (refused o r w w' (sym k ∙ h))
        | inr ((pbf, side), source) ↦
            let digest = take 12 (o.sha256_text norm) in
            let out_rel = query_rel_path region digest in
            let k : query_region o cache_root roots force region e w
                ≡ query_source o force norm digest out_rel pbf side w =
              rw (query_region, good, source) refl in
            let (stored, sides, extracts) =
              query_source-Leaves o force norm digest out_rel pbf side r w w' (sym k ∙ h) in
            let source' : resolve_source cache_root roots region w' ≡ some (pbf, side) =
              resolve_source_by cache_root roots region w' w sides extracts ∙ source in
            rw (query_region, sym equal ∙ good, source')
              (answer_again o norm digest out_rel pbf side r w' stored)
      ]
    ]
