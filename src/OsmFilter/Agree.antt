-- ===== src/OsmFilter/Agree.antt =====
-- Features depend only on the coordinates of the nodes that they need.
use fwh_osm.Prelude.{
  ℕ, true, ◌||◌, Option, some, List, [], ◌∷◌, ◌++◌, ◌≡◌, inl, inr, refl, ◌∙◌, ap, arith, ◌==◌,
  Bool-cases,
}
use fwh_osm.OsmFilter.Elements.{
  OsmType, node_type, way_type, relation_type, all_types, Location, Element, append_some, locate,
  way_feature, feature_of_type, to_geojson_feature,
}
use fwh_osm.OsmFilter.Scan.{
  Entity, Filter, matches_filter, element_of, is_needed, keep_feature, features_of,
}
use fwh_osm.OsmFilter.FirstPass.{refs_of}
use fwh_osm.OsmFilter.Direct.{matched_one, matched, all_coords, direct_feature, direct_features}

is_needed-append : (k : ℕ) (a b : List ℕ) → is_needed k (a ++ b) ≡ (is_needed k a || is_needed k b)
unfolding is_needed
is_needed-append k [] b = refl
is_needed-append k (n ∷ ns) b = ground (arith, is_needed-append k ns b)

-- Two ways to look nodes up that agree on the nodes that are needed give the same.
locate-agree :
    (c d : ℕ → Option Location) (rs : List ℕ)
    → ((k : ℕ) → is_needed k rs ≡ true → c k ≡ d k)
    → locate c rs ≡ locate d rs
unfolding locate is_needed
locate-agree c d [] h = refl
locate-agree c d (r ∷ rs) h =
    let here : c r ≡ d r = h r (first r rs) in
    let rest = locate-agree c d rs (λ k m. h k (ground (arith, m))) in
    ap (λ o. append_some o (locate c rs)) here ∙ ap (append_some (d r)) rest
  where
    first : (r : ℕ) (rs : List ℕ) → (r == r || is_needed r rs) ≡ true
    first r rs = ground arith

to_geojson_feature-agree :
    (e : Element) (c d : ℕ → Option Location)
    → ((k : ℕ) → is_needed k e.node_refs ≡ true → c k ≡ d k)
    → to_geojson_feature e (some c) ≡ to_geojson_feature e (some d)
unfolding to_geojson_feature
to_geojson_feature-agree e c d h = by_type e.osm_type
  where
    by_type : (t : OsmType) → feature_of_type t e (some c) ≡ feature_of_type t e (some d)
    by_type node_type = unfold feature_of_type in refl
    by_type way_type =
        unfold feature_of_type way_feature in (rw (locate-agree c d e.node_refs h) refl)
    by_type relation_type = unfold feature_of_type in refl
    by_type all_types = unfold feature_of_type in refl

pub features_of-agree :
    (es : List Element) (c d : ℕ → Option Location)
    → ((k : ℕ) → is_needed k (refs_of es) ≡ true → c k ≡ d k)
    → features_of (some c) es ≡ features_of (some d) es
unfolding features_of
features_of-agree [] c d h = refl
features_of-agree (e ∷ es) c d h =
    let split = λ (k : ℕ). is_needed-append k e.node_refs (refs_of es) in
    let here = to_geojson_feature-agree e c d (λ k m. h k (ground (arith, m, split k))) in
    let rest = features_of-agree es c d (λ k m. h k (ground (arith, m, split k))) in
    ap (λ o. keep_feature o (features_of (some c) es)) here
    ∙ ap (keep_feature (to_geojson_feature e (some d))) rest

pub features_of-matched :
    (f : Filter) (file xs : List Entity)
    → features_of (all_coords f file) (matched f xs) ≡ direct_features f file xs
unfolding features_of matched matched_one direct_features direct_feature keep_feature
features_of-matched f file [] = refl
features_of-matched f file (x ∷ xs) =
    elim (Bool-cases (matches_filter f (element_of x).tags (element_of x).osm_type)) [
      | inl hit ↦ rw hit (
          ap (keep_feature (to_geojson_feature (element_of x) (all_coords f file)))
            (features_of-matched f file xs))
      | inr miss ↦ rw miss (features_of-matched f file xs)
    ]
