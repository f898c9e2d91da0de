-- ===== src/Population/Filter/Exact.antt =====
-- The filter keeps exactly the selected features; without an upper bound `between` always fails.
use fwh_osm.Prelude.{
  Bool, true, false, not, Option, none, some, List, [], ◌∷◌, ◌≡◌, ◌≢◌, ◌⊎◌, ◌↔◌, inl, inr, refl,
  sym, ◌∙◌, ap, subst, arith, Among, Bool-cases, Option-cases,
}
use fwh_osm.Prelude.Int.{ℤ, eqb_ℤ, ◌≤ℤ◌, ◌<ℤ◌, eqb_ℤ_iff}
use fwh_osm.Prelude.Result.{ok, Result-cases}
use fwh_osm.Population.Places.{
  PlaceType, city, town, village, hamlet, suburb, country, state, county, municipality, all_places,
  Operator, gt, gte, lt, lte, eq_to, ne, between, Tags, matches_place_type,
}
use fwh_osm.Population.Parse.{parse_population}
use fwh_osm.Population.Match.{matches_population}
use fwh_osm.Population.Filter.{
  Properties, absent, null_properties, object, Feature, get_value, select_number, select_tags,
  null_error, select, keep_if, filter_features,
}

-- What each operator means.
abbrev pub Holds : Operator → ℤ → ℤ → Option ℤ → Type 0
Holds gt p m top = m <ℤ p
Holds gte p m top = m ≤ℤ p
Holds lt p m top = p <ℤ m
Holds lte p m top = p ≤ℤ m
Holds eq_to p m top = p ≡ m
Holds ne p m top = p ≢ m
Holds between p m none = ⊥
Holds between p m (some t) = (m ≤ℤ p) × (p ≤ℤ t)

matches_population-Holds :
    (p m : ℤ) (top : Option ℤ) (o : Operator) (b : Bool)
    → matches_population p m top o ≡ ok b
    → (b ≡ true) ↔ Holds o p m top
unfolding matches_population
matches_population-Holds p m top gt b e = ground arith
matches_population-Holds p m top gte b e = ground arith
matches_population-Holds p m top lt b e = ground arith
matches_population-Holds p m top lte b e = ground arith
matches_population-Holds p m top eq_to b e =
    let iff = eqb_ℤ_iff p m in
    let is : b ≡ eqb_ℤ p m = ground (arith, e) in (λ t. iff.0 (sym is ∙ t), λ same. is ∙ iff.1 same)
matches_population-Holds p m top ne b e =
    let iff = eqb_ℤ_iff p m in
    let is : b ≡ not (eqb_ℤ p m) = ground (arith, e) in
    (
      λ t same. let yes = iff.1 same in ground (arith, is, t, yes),
      λ apart. elim (Bool-cases (eqb_ℤ p m)) [
        | inl same ↦ absurd (apart (iff.0 same))
        | inr other ↦ ground (arith, is, other)
      ],
    )
matches_population-Holds p m none between b e = cc
matches_population-Holds p m (some t) between b e = ground arith

-- A feature that the arguments select: its place, its number, and how the number compares.
abbrev pub tags_of : Properties → Option Tags
tags_of absent = some []
tags_of null_properties = none
tags_of (object tags) = some tags

pub record IsSelected (place_type : PlaceType) (m : ℤ) (top : Option ℤ) (o : Operator) (f : Feature)
    : Type 0 where
  pub tags : Tags
  pub population : ℤ
  pub has_tags : tags_of f.properties ≡ some tags
  pub place : matches_place_type tags place_type ≡ true
  pub number : parse_population (get_value "population" tags) ≡ some population
  pub holds : Holds o population m top

null_error-err : (place_type : PlaceType) (b : Bool) → null_error place_type ≢ ok b
unfolding null_error
null_error-err city b e = cc
null_error-err town b e = cc
null_error-err village b e = cc
null_error-err hamlet b e = cc
null_error-err suburb b e = cc
null_error-err country b e = cc
null_error-err state b e = cc
null_error-err county b e = cc
null_error-err municipality b e = cc
null_error-err all_places b e = cc

module _ (place_type : PlaceType) (m : ℤ) (top : Option ℤ) (o : Operator) where
  abbrev SelectedTags : Tags → Type 0
  SelectedTags tags =
      (matches_place_type tags place_type ≡ true)
      × ((p : ℤ) × (parse_population (get_value "population" tags) ≡ some p) × Holds o p m top)

  select_tags_iff :
      (tags : Tags) (b : Bool)
      → select_tags tags place_type m top o ≡ ok b
      → (b ≡ true) ↔ SelectedTags tags
  unfolding select_tags select_number
  select_tags_iff tags b e = elim (Bool-cases (matches_place_type tags place_type)) [
    | inr other ↦ (
      λ t. absurd (ground (arith, other, e, t)),
      λ (place, _). absurd (ground (arith, other, place)),
    )
    | inl place ↦
        let rest : select_number (parse_population (get_value "population" tags)) m top o ≡ ok b =
          ground (arith, place, e) in
        elim (Option-cases (parse_population (get_value "population" tags))) [
          | inl missing ↦
              let no : b ≡ false = ground (arith, missing, rest) in
              (
                λ t. absurd (ground (arith, no, t)),
                λ (_, (p, found, _)). absurd (ground (arith, missing, found)),
              )
          | inr (p, found) ↦
              let compared : matches_population p m top o ≡ ok b = rw found at rest in
              let iff = matches_population-Holds p m top o b compared in
              (
                λ t. (place, (p, found, iff.0 t)),
                λ (_, (p', found', holds)).
                    let same : p' ≡ p = ground (arith, found, found') in
                    iff.1 (subst (λ k. Holds o k m top) same holds),
              )
        ]
  ]

  IsSelected-tags :
      (f : Feature) (tags : Tags)
      → tags_of f.properties ≡ some tags
      → SelectedTags tags ↔ IsSelected place_type m top o f
  IsSelected-tags f tags has = (
    λ (place, (p, number, holds)). record {
      tags = tags;
      population = p;
      has_tags = has;
      place = place;
      number = number;
      holds = holds;
    },
    λ sel.
        let same : sel.tags ≡ tags = (let found = sel.has_tags in ground (arith, has, found)) in
        subst SelectedTags same (sel.place, (sel.population, sel.number, sel.holds)),
  )

  select_iff :
      (f : Feature) (props : Properties) (b : Bool)
      → f.properties ≡ props
      → select place_type m top o props ≡ ok b
      → (b ≡ true) ↔ IsSelected place_type m top o f
  unfolding select
  select_iff f absent b has e =
      let iff = select_tags_iff [] b e in
      let tags = IsSelected-tags f [] (ap tags_of has) in
      (λ t. tags.0 (iff.0 t), λ sel. iff.1 (tags.1 sel))
  select_iff f null_properties b has e = absurd (null_error-err place_type b e)
  select_iff f (object tags) b has e =
      let iff = select_tags_iff tags b e in
      let back = IsSelected-tags f tags (ap tags_of has) in
      (λ t. back.0 (iff.0 t), λ sel. iff.1 (back.1 sel))

  keep_if-Among :
      (f g : Feature) (b : Bool) (rest : List Feature)
      → Among g (keep_if b f rest) ↔ (((g ≡ f) × (b ≡ true)) ⊎ Among g rest)
  unfolding keep_if
  keep_if-Among f g true rest = (
    λ h. elim h [ inl e ↦ inl (e, refl) | inr r ↦ inr r ],
    λ h. elim h [ inl (e, _) ↦ inl e | inr r ↦ inr r ],
  )
  keep_if-Among f g false rest = (λ h. inr h, λ h. elim h [ inl (e, t) ↦ cc | inr r ↦ r ])

  -- What a round that goes well does.
  pub round :
      (f : Feature) (fs kept : List Feature)
      → filter_features place_type m top o (f ∷ fs) ≡ ok kept
      → (b : Bool) × (rest : List Feature) × (select place_type m top o f.properties ≡ ok b)
        × (filter_features place_type m top o fs ≡ ok rest)
        × (kept ≡ keep_if b f rest)
  unfolding filter_features
  round f fs kept e = elim (Result-cases (select place_type m top o f.properties)) [
    | inl (x, bad) ↦ absurd (ground (arith, bad, e))
    | inr (b, good) ↦ elim (Result-cases (filter_features place_type m top o fs)) [
      | inl (x, bad) ↦ absurd (ground (arith, bad, good, e))
      | inr (rest, fine) ↦ (b, rest, good, fine, ground (arith, fine, good, e))
    ]
  ]

  pub filter_features-exact :
      (fs kept : List Feature) (g : Feature)
      → filter_features place_type m top o fs ≡ ok kept
      → Among g kept ↔ (Among g fs × IsSelected place_type m top o g)
  unfolding filter_features
  filter_features-exact [] kept g e =
      let none_kept : kept ≡ [] = ground (arith, e) in
      (λ h. absurd (subst (Among g) none_kept h), λ (h, _). absurd h)
  filter_features-exact (f ∷ fs) kept g e =
      let (b, rest, good, fine, is) = round f fs kept e in
      let iff = select_iff f f.properties b refl good in
      let later = filter_features-exact fs rest g fine in
      let here = keep_if-Among f g b rest in
      (
        λ h. elim (here.0 (subst (Among g) is h)) [
          | inl (same, t) ↦ (inl same, subst (IsSelected place_type m top o) (sym same) (iff.0 t))
          | inr r ↦ let (among, sel) = later.0 r in (inr among, sel)
        ],
        λ (among, sel). subst (Among g) (sym is) (
            here.1 (elim among [
              | inl same ↦ inl (same, iff.1 (subst (IsSelected place_type m top o) same sel))
              | inr r ↦ inr (later.1 (r, sel))
            ])),
      )
