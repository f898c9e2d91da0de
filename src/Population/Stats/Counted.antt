-- ===== src/Population/Stats/Counted.antt =====
-- Only numbers above zero are counted.
use fwh_osm.Prelude.{
  ℕ, zero, suc, ◌<◌, Option, none, some, List, [], ◌∷◌, ◌≡◌, ◌≢◌, inl, inr, refl, ◌∙◌, ap, subst,
  arith, All, Bool-cases,
}
use fwh_osm.Prelude.Result.{ok-inj, ok, Result-cases}
use fwh_osm.Population.Places.{
  PlaceType, city, town, village, hamlet, suburb, country, state, county, municipality, all_places,
  Tags, matches_place_type,
}
use fwh_osm.Prelude.Int.{ℤ, pos, negsuc}
use fwh_osm.Population.Parse.{parse_population}
use fwh_osm.Population.Filter.{Feature, Properties, absent, null_properties, object, get_value}
use fwh_osm.Population.Stats.{positive, counted_tags, counted, null_count, append_some, populations}

grow :
    (o : Option ℕ) (rest : List ℕ)
    → ((n : ℕ) → o ≡ some n → 0 < n)
    → All (λ (n : ℕ). 0 < n) rest
    → All (λ (n : ℕ). 0 < n) (append_some o rest)
unfolding append_some
grow none rest h all = all
grow (some n) rest h all = (h n refl, all)

positive-above : (o : Option ℤ) (n : ℕ) → positive o ≡ some n → 0 < n
unfolding positive
positive-above none n e = cc
positive-above (some (pos zero)) n e = cc
positive-above (some (pos (suc k))) n e = ground (arith, e)
positive-above (some (negsuc k)) n e = cc

null_count-err : (place : PlaceType) (o : Option ℕ) → null_count place ≢ ok o
unfolding null_count
null_count-err city o e = cc
null_count-err town o e = cc
null_count-err village o e = cc
null_count-err hamlet o e = cc
null_count-err suburb o e = cc
null_count-err country o e = cc
null_count-err state o e = cc
null_count-err county o e = cc
null_count-err municipality o e = cc
null_count-err all_places o e = cc

counted_tags-above :
    (place : PlaceType) (tags : Tags) (n : ℕ) → counted_tags place tags ≡ some n → 0 < n
unfolding counted_tags
counted_tags-above place tags n e = elim (Bool-cases (matches_place_type tags place)) [
  | inl fits ↦ positive-above (parse_population (get_value "population" tags)) n (rw fits at e)
  | inr other ↦ absurd (ground (arith, other, e))
]

counted-above :
    (place : PlaceType) (props : Properties) (n : ℕ) → counted place props ≡ ok (some n) → 0 < n
unfolding counted
counted-above place absent n e = counted_tags-above place [] n (ok-inj e)
counted-above place null_properties n e = absurd (null_count-err place (some n) e)
counted-above place (object tags) n e = counted_tags-above place tags n (ok-inj e)

pub populations-above :
    (place : PlaceType) (fs : List Feature) (found : List ℕ)
    → populations place fs ≡ ok found
    → All (λ (n : ℕ). 0 < n) found
unfolding populations append_some
populations-above place [] found e = subst (All (λ (n : ℕ). 0 < n)) (ok-inj e) tt
populations-above place (f ∷ fs) found e = elim (Result-cases (counted place f.properties)) [
  | inl (x, bad) ↦ absurd (ground (arith, bad, e))
  | inr (o, good) ↦ elim (Result-cases (populations place fs)) [
    | inl (x, bad) ↦ absurd (ground (arith, bad, good, e))
    | inr (rest, fine) ↦
        let is : append_some o rest ≡ found = ok-inj (rw fine at (rw good at e)) in
        subst (All (λ (n : ℕ). 0 < n)) is (
          grow o rest (λ n h. counted-above place f.properties n (good ∙ ap ok h))
            (populations-above place fs rest fine))
  ]
]
