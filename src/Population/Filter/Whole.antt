-- ===== src/Population/Filter/Whole.antt =====
-- `filter_geojson_by_population` as a whole call.
use fwh_osm.Prelude.{
  ℕ, suc, ◌≤◌, Bool, true, false, Option, none, some, List, [], ◌∷◌, ◌≡◌, ◌↔◌, inl, inr, refl, sym,
  ap, arith, length, Among,
}
use fwh_osm.Prelude.Int.{ℤ}
use fwh_osm.Prelude.Result.{ok-inj, Result, Error, ok, err, Result-cases, type_error}
use fwh_osm.Prelude.Text.{Text}
use fwh_osm.Population.Places.{
  PlaceType, Operator, between, place_from_string, operator_from_string,
}
use fwh_osm.Population.Match.{describe_filter, range_words}
use fwh_osm.Population.Filter.{
  Feature, keep_if, filter_features, PopulationFilteredFeatures, Argument, resolve, report,
  write_filtered, filter_resolved, filter_geojson_by_population,
}
use fwh_osm.Population.Filter.Exact.{IsSelected, round, filter_features-exact}

length-keep_if :
    (b : Bool) (f : Feature) (rest : List Feature) → length (keep_if b f rest) ≤ suc (length rest)
unfolding keep_if
length-keep_if true f rest = omega arith
length-keep_if false f rest = omega arith

length-filter_features :
    (place_type : PlaceType) (m : ℤ) (top : Option ℤ) (o : Operator) (fs kept : List Feature)
    → filter_features place_type m top o fs ≡ ok kept
    → length kept ≤ length fs
unfolding filter_features
length-filter_features place_type m top o [] kept e = ground (arith, e)
length-filter_features place_type m top o (f ∷ fs) kept e =
    let (b, rest, good, fine, is) = round place_type m top o f fs kept e in
    let shorter = length-filter_features place_type m top o fs rest fine in
    rw is (omega (arith, shorter, length-keep_if b f rest))

-- What a call that returns has done.
pub record IsFiltered (features : List Feature) (m : ℤ) (top : Option ℤ) (place : PlaceType)
    (o : Operator) (r : PopulationFilteredFeatures) (out : Option (List Feature)) : Type 0 where
  pub kept : List Feature
  pub written : out ≡ some kept
  pub exact : (g : Feature) → Among g kept ↔ (Among g features × IsSelected place m top o g)
  pub feature_count : r.feature_count ≡ length kept
  pub original_count : r.original_count ≡ length features
  pub no_more : length kept ≤ length features

report-ok :
    (place : PlaceType) (m : ℤ) (top : Option ℤ) (n : ℕ) (kept : List Feature) (words : Result Text)
    (r : PopulationFilteredFeatures)
    → report place m top n kept words ≡ ok r
    → (r.feature_count ≡ length kept) × (r.original_count ≡ n)
unfolding report
report-ok place m top n kept (err x) r e = cc
report-ok place m top n kept (ok words) r e =
    let is = ok-inj e in
    (
      ap (λ (k : PopulationFilteredFeatures). k.feature_count) (sym is),
      ap (λ (k : PopulationFilteredFeatures). k.original_count) (sym is),
    )

module _ (features : List Feature) (m : ℤ) (top : Option ℤ) where
  write_filtered-IsFiltered :
      (place : PlaceType) (o : Operator) (r : PopulationFilteredFeatures)
      → (write_filtered place m top o (length features) (filter_features place m top o features)).0
        ≡ ok r
      → IsFiltered features m top place o r
          (write_filtered place m top o
            (length features)
            (filter_features place m top o features)).1
  unfolding write_filtered
  write_filtered-IsFiltered place o r e =
      elim (Result-cases (filter_features place m top o features)) [
        | inl (x, bad) ↦ absurd (ground (arith, bad, e))
        | inr (kept, good) ↦
            let counts = report-ok place m top (length features) kept _ r (rw good at e) in
            record {
              kept = kept;
              written = rw good refl;
              exact = λ g. filter_features-exact place m top o features kept g good;
              feature_count = counts.0;
              original_count = counts.1;
              no_more = length-filter_features place m top o features kept good;
            }
      ]

  resolved-IsFiltered :
      (rp : Result PlaceType) (ro : Result Operator) (r : PopulationFilteredFeatures)
      → (filter_resolved features m top rp ro).0 ≡ ok r
      → (place : PlaceType) × (o : Operator) × (rp ≡ ok place)
        × (ro ≡ ok o)
        × IsFiltered features m top place o r (filter_resolved features m top rp ro).1
  unfolding filter_resolved
  resolved-IsFiltered (err x) ro r e = cc
  resolved-IsFiltered (ok place) (err x) r e = cc
  resolved-IsFiltered (ok place) (ok o) r e =
      (place, o, refl, refl, write_filtered-IsFiltered place o r e)

  -- A call that returns has written the features that the arguments select, and no others: those
  -- whose tags match the place type, whose population can be read, and whose number compares as
  -- the operator says. It counts them, and the features that it was given.
  pub filter_geojson_exact :
      (place_type : Argument PlaceType) (operator : Argument Operator)
      (r : PopulationFilteredFeatures)
      → (filter_geojson_by_population features m top place_type operator).0 ≡ ok r
      → (place : PlaceType) × (o : Operator) × (resolve place_from_string place_type ≡ ok place)
        × (resolve operator_from_string operator ≡ ok o)
        × IsFiltered features m top place o r
            (filter_geojson_by_population features m top place_type operator).1
  unfolding filter_geojson_by_population
  filter_geojson_exact place_type operator r e = resolved-IsFiltered _ _ r e

write_filtered-between :
    (place : PlaceType) (m : ℤ) (n : ℕ) (kept : Result (List Feature))
    → (x : Error) × ((write_filtered place m none between n kept).0 ≡ err x)
unfolding write_filtered report describe_filter range_words
write_filtered-between place m n (err x) = (x, refl)
write_filtered-between place m n (ok kept) = (type_error, refl)

resolved-between :
    (features : List Feature) (m : ℤ) (rp : Result PlaceType)
    → (x : Error) × ((filter_resolved features m none rp (ok between)).0 ≡ err x)
unfolding filter_resolved
resolved-between features m (err x) = (x, refl)
resolved-between features m (ok place) = write_filtered-between place m (length features) _

-- A call with the operator `between`, but with no upper bound, raises, whatever the features.
pub filter_geojson_needs_bound :
    (features : List Feature) (m : ℤ) (place_type : Argument PlaceType)
    (operator : Argument Operator)
    → resolve operator_from_string operator ≡ ok between
    → (x : Error) × ((filter_geojson_by_population features m none place_type operator).0 ≡ err x)
unfolding filter_geojson_by_population
filter_geojson_needs_bound features m place_type operator e =
    rw e (resolved-between features m (resolve place_from_string place_type))
