-- ===== src/Population/Extract/Kept.antt =====
-- What a run of the handler over a file has written and counted, said of the nodes of the file.
use fwh_osm.Prelude.{
  ℕ, suc, ◌+◌, ◌≤◌, max, Bool, true, false, not, ◌&&◌, ◌||◌, Option, none, some, List, [], ◌∷◌,
  ◌++◌, ◌≡◌, ◌⊎◌, inl, inr, refl, sym, ◌∙◌, ap, subst, arith, length, append_assoc, keep, leb, ◌==◌,
  map, Among, is_some, Bool-cases,
}
use mathlib.Core.Option.{some-injective}
use fwh_osm.Population.Places.{PlaceType, get, matches_place_type}
use fwh_osm.Population.Parse.{parse_pop}
use fwh_osm.Population.Extract.{
  Node, Place, Handler, new_handler, as_tags, get_text, is_too_small, raise_max, keep_node, node,
  apply_file,
}

abbrev pub population_of : Node → Option ℕ
population_of n = parse_pop (get_text "population" n.tags)

-- A node with a location, one of the two tags, and the place type.
abbrev pub is_candidate : PlaceType → Node → Bool
is_candidate ptype n =
    n.valid
    && (is_some (get "place" (as_tags n.tags)) || is_some (get "population" (as_tags n.tags)))
    && matches_place_type (as_tags n.tags) ptype

-- A number of at least the bound; without a number only where no bound is asked for.
abbrev pub reaches : ℕ → Option ℕ → Bool
reaches min_pop none = min_pop == 0
reaches min_pop (some p) = leb min_pop p

abbrev pub is_wanted : PlaceType → ℕ → Node → Bool
is_wanted ptype min_pop n = is_candidate ptype n && reaches min_pop (population_of n)

-- The feature of a node.
abbrev pub place_of : Node → Place
place_of n = record {
  tags = n.tags;
  osm_id = n.id;
  population_value = population_of n;
  coordinates = n.location;
}

-- The greatest of the numbers that are there; zero is the greatest of none.
abbrev pub IsGreatest : ℕ → List (Option ℕ) → Type 0
IsGreatest m vs = ((p : ℕ) → Among (some p) vs → p ≤ m) × ((m ≡ 0) ⊎ Among (some m) vs)

-- The handler after a run over the nodes.
pub record IsRun (ptype : PlaceType) (min_pop : ℕ) (ns : List Node) (h : Handler) : Type 0 where
  pub written : h.written ≡ map place_of (keep (is_wanted ptype min_pop) ns)
  pub kept : h.kept ≡ length (keep (is_wanted ptype min_pop) ns)
  pub original : h.original ≡ length (keep (is_candidate ptype) ns)
  pub greatest : IsGreatest h.max_pop (map population_of (keep (is_wanted ptype min_pop) ns))

module _ (ptype : PlaceType) (min_pop : ℕ) (n : Node) (h : Handler) where
  is_bare : Bool
  is_bare =
      not (is_some (get "place" (as_tags n.tags)))
      && not (is_some (get "population" (as_tags n.tags)))

  candidate_parts :
      is_candidate ptype n ≡ true
      → (n.valid ≡ true) × (is_bare ≡ false) × (matches_place_type (as_tags n.tags) ptype ≡ true)
  unfolding is_bare
  candidate_parts c =
      let place = is_some (get "place" (as_tags n.tags)) in
      let population = is_some (get "population" (as_tags n.tags)) in
      let fits = matches_place_type (as_tags n.tags) ptype in parts n.valid place population fits c
    where
      parts :
          (a b c d : Bool)
          → (a && (b || c) && d) ≡ true
          → (a ≡ true) × ((not b && not c) ≡ false) × (d ≡ true)
      parts a b c d e = ground arith

  node-candidate :
      is_candidate ptype n ≡ true
      → node ptype min_pop n h
        ≡ keep_node min_pop n (population_of n) (record h { original = suc h.original })
  unfolding node is_bare
  node-candidate c =
      let (good, tagged, fits) = candidate_parts c in rw good (rw tagged (rw fits refl))

  node-other : is_candidate ptype n ≡ false → node ptype min_pop n h ≡ h
  unfolding node
  node-other c = elim (Bool-cases n.valid) [
    | inr bad ↦ rw bad refl
    | inl good ↦
        elim (Bool-cases (
          not (is_some (get "place" (as_tags n.tags)))
          && not (is_some (get "population" (as_tags n.tags))))) [
            | inl bare ↦ rw good (rw bare refl)
            | inr tagged ↦ elim (Bool-cases (matches_place_type (as_tags n.tags) ptype)) [
              | inr other ↦ rw good (rw tagged (rw other refl))
              | inl fits ↦ absurd (ground arith)
            ]
          ]
  ]

too_small-reaches : (min_pop : ℕ) (o : Option ℕ) → is_too_small min_pop o ≡ not (reaches min_pop o)
unfolding is_too_small
too_small-reaches min_pop none = ground arith
too_small-reaches min_pop (some p) = ground arith

raise_all : List (Option ℕ) → ℕ → ℕ
raise_all [] m = m
raise_all (o ∷ os) m = raise_all os (raise_max o m)

raise_all-IsGreatest :
    (os : List (Option ℕ)) (m : ℕ)
    → (m ≤ raise_all os m)
      × ((p : ℕ) → Among (some p) os → p ≤ raise_all os m)
      × ((raise_all os m ≡ m) ⊎ Among (some (raise_all os m)) os)
unfolding raise_all raise_max
raise_all-IsGreatest [] m = (omega arith, (λ p a. absurd a), inl refl)
raise_all-IsGreatest (none ∷ os) m =
    let (above, bound, is) = raise_all-IsGreatest os m in
    (
      above,
      (λ p a. elim a [ inl e ↦ absurd (cc) | inr k ↦ bound p k ]),
      elim is [ inl e ↦ inl e | inr k ↦ inr (inr k) ],
    )
raise_all-IsGreatest (some q ∷ os) m =
    let (above, bound, is) = raise_all-IsGreatest os (max m q) in
    (
      omega (arith, above),
      (λ p a. elim a [
        | inl e ↦ let same : p ≡ q = some-injective p q e in omega (arith, above, same)
        | inr k ↦ bound p k
      ]),
      elim is [
        | inr k ↦ inr (inr k)
        | inl e ↦ elim (Bool-cases (leb q m)) [
          | inl low ↦ inl (ground (arith, e))
          | inr high ↦
              let top : raise_all os (max m q) ≡ q = ground (arith, e) in inr (inl (ap some top))
        ]
      ],
    )

-- The same, behind what the handler held before.
record RunsTo (ptype : PlaceType) (min_pop : ℕ) (ns : List Node) (h h' : Handler) : Type 0 where
  written : h'.written ≡ h.written ++ map place_of (keep (is_wanted ptype min_pop) ns)
  kept : h'.kept ≡ h.kept + length (keep (is_wanted ptype min_pop) ns)
  original : h'.original ≡ h.original + length (keep (is_candidate ptype) ns)
  max_pop : h'.max_pop ≡ raise_all (map population_of (keep (is_wanted ptype min_pop) ns)) h.max_pop

append-nil : (ps : List Place) → ps ++ [] ≡ ps
append-nil [] = refl
append-nil (p ∷ ps) = ap (λ qs. p ∷ qs) (append-nil ps)

apply_file-RunsTo :
    (ptype : PlaceType) (min_pop : ℕ) (ns : List Node) (h : Handler)
    → RunsTo ptype min_pop ns h (apply_file ptype min_pop ns h)
unfolding apply_file keep_node raise_all
apply_file-RunsTo ptype min_pop [] h = record {
  written = sym (append-nil h.written);
  kept = omega arith;
  original = omega arith;
  max_pop = refl;
}
apply_file-RunsTo ptype min_pop (n ∷ ns) h = elim (Bool-cases (is_candidate ptype n)) [
  | inr other ↦
      let k = apply_file-RunsTo ptype min_pop ns h in
      rw (node-other ptype min_pop n h other) (record {
        written = rw other k.written;
        kept = rw other k.kept;
        original = rw other k.original;
        max_pop = rw other k.max_pop;
      })
  | inl fits ↦
      let small = too_small-reaches min_pop (population_of n) in
      elim (Bool-cases (reaches min_pop (population_of n))) [
        | inr below ↦
            let k = apply_file-RunsTo ptype min_pop ns (record h { original = suc h.original }) in
            rw (node-candidate ptype min_pop n h fits, keep_node, small, below)
              (record {
                written = rw (fits, below) k.written;
                kept = rw (fits, below) k.kept;
                original = rw fits (omega (arith, k.original));
                max_pop = rw (fits, below) k.max_pop;
              })
        | inl large ↦
            let h1 : Handler = record {
              written = h.written ++ place_of n ∷ [];
              kept = suc h.kept;
              original = suc h.original;
              max_pop = raise_max (population_of n) h.max_pop;
            } in
            let k = apply_file-RunsTo ptype min_pop ns h1 in
            rw (node-candidate ptype min_pop n h fits, keep_node, small, large)
              (record {
                written =
                    rw (fits, large)
                      (k.written
                        ∙ append_assoc h.written (place_of n ∷ [])
                            (map place_of (keep (is_wanted ptype min_pop) ns)));
                kept = rw (fits, large) (omega (arith, k.kept));
                original = rw fits (omega (arith, k.original));
                max_pop = rw (fits, large) k.max_pop;
              })
      ]
]

-- Run the new handler over the nodes of a file. A candidate is a node with a location, a `place` or a
-- `population` tag, and the place type; it is wanted if its number is at least the bound, or if no
-- bound is asked for. The features of the wanted nodes are written, in the order of the file, with
-- the number of the tag; the counts are those of the wanted nodes and of the candidates, and the
-- maximum is the greatest number of a wanted node, or zero.
pub apply_file-IsRun :
    (ptype : PlaceType) (min_pop : ℕ) (ns : List Node)
    → IsRun ptype min_pop ns (apply_file ptype min_pop ns new_handler)
apply_file-IsRun ptype min_pop ns =
    let k = apply_file-RunsTo ptype min_pop ns new_handler in
    let wanted = map population_of (keep (is_wanted ptype min_pop) ns) in
    let (_, bound, is) = raise_all-IsGreatest wanted 0 in
    record {
      written = k.written;
      kept = omega (arith, k.kept);
      original = omega (arith, k.original);
      greatest = subst (λ m. IsGreatest m wanted) (sym k.max_pop) (bound, is);
    }
