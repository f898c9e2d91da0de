-- ===== src/Roads/Selection/Prune/Dropped.antt =====
-- An edge that a layer misses was dropped from the layer of its zoom or of a higher one.
use fwh_osm.Prelude.{
  ℕ, ◌≤◌, ◌≡◌, refl, true, false, some, List, [], ◌∷◌, arith, All, Bool-cases, inl, inr, sym, subst,
  none, Option-cases, ◌∙◌,
}
use mathlib.Core.Option.{none-ne-some, some-injective}
use fwh_osm.Prelude.Table.{listed, has_number}
use fwh_osm.Prelude.Sets.{minus, union, intersect, has_number-minus, has_number-union}
use fwh_osm.Roads.Graph.{RoadGraph}
use fwh_osm.Roads.Selection.Prune.{Kept, prune_fragments, ferries, prune_down}
use fwh_osm.Roads.Selection.Prune.Whole.{prune_fragments-IsPruned}
use fwh_osm.Roads.Selection.Prune.Sorted.{IsDescending}

module _ (g : RoadGraph) (layers backbone : List (ℕ × List ℕ)) where
  -- What a layer of zoom `z` protects, and the edge that `prune_fragments` drops from it.
  abbrev pub protected_at : ℕ → List ℕ
  protected_at z = union (listed z backbone) (intersect (ferries g.edges) (listed z layers))

  -- The pruning of some layer, at the zoom `z` or above, has dropped the edge.
  pub record IsDropped (z e : ℕ) : Type 0 where
    pub zoom : ℕ
    pub above : z ≤ zoom
    pub pruning : Kept
    pub pruned : prune_fragments g (listed zoom layers) zoom (protected_at zoom) ≡ some pruning
    pub held : has_number e (listed zoom layers) ≡ true
    pub gone : has_number e pruning.kept ≡ false

  -- Only such edges are missing.
  abbrev pub IsExplained : List (ℕ × List ℕ) → Type 0
  IsExplained [] = Unit
  IsExplained ((z, shown) ∷ pruned) =
      ((e : ℕ) → has_number e (listed z layers) ≡ true → has_number e shown ≡ false → IsDropped z e)
      × IsExplained pruned

  IsDropped-le : (y z e : ℕ) → y ≤ z → IsDropped z e → IsDropped y e
  IsDropped-le y z e le d = record {
    zoom = d.zoom;
    above = omega (arith, d.above);
    pruning = d.pruning;
    pruned = d.pruned;
    held = d.held;
    gone = d.gone;
  }

  pub prune_down-IsExplained :
      (zs doomed : List ℕ) (top : ℕ) (pruned : List (ℕ × List ℕ))
      → IsDescending zs
      → All (λ w. w ≤ top) zs
      → ((e : ℕ) → has_number e doomed ≡ true → IsDropped top e)
      → prune_down g layers backbone zs doomed ≡ some pruned
      → IsExplained pruned
  unfolding prune_down
  prune_down-IsExplained [] doomed top pruned d below why runs =
      let same : [] ≡ pruned = some-injective [] pruned runs in subst IsExplained same tt
  prune_down-IsExplained (z ∷ zs) doomed top pruned (under, d) (le, below) why runs =
      let selected = listed z layers in
      let (k, cuts, _) = prune_fragments-IsPruned g selected z (protected_at z) in
      let lost = minus selected k.kept in
      let doomed' = union doomed lost in
      let why' : (e : ℕ) → has_number e doomed' ≡ true → IsDropped z e = λ e m.
        elim (Bool-cases (has_number e doomed)) [
          | inl old ↦ IsDropped-le z top e le (why e old)
          | inr new ↦ record {
            zoom = z;
            above = omega arith;
            pruning = k;
            pruned = cuts;
            held =
                ground (arith, has_number-union e doomed lost, has_number-minus e selected k.kept);
            gone =
                ground (arith, has_number-union e doomed lost, has_number-minus e selected k.kept);
          }
        ] in
      elim (Option-cases (prune_down g layers backbone zs doomed')) [
        | inl fails ↦
            let e : prune_down g layers backbone (z ∷ zs) doomed ≡ none =
              rw (prune_down, cuts, fails) refl in
            absurd (none-ne-some pruned (sym e ∙ runs))
        | inr (rest, goes) ↦
            let shown = minus selected doomed' in
            let e : prune_down g layers backbone (z ∷ zs) doomed ≡ some ((z, shown) ∷ rest) =
              rw (prune_down, cuts, goes) refl in
            let same = some-injective ((z, shown) ∷ rest) pruned (sym e ∙ runs) in
            subst IsExplained same (
              (λ e m out. why' e (ground (arith, has_number-minus e selected doomed'))),
              prune_down-IsExplained zs doomed' z rest d under why' goes,
            )
      ]
