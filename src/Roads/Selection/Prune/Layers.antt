-- ===== src/Roads/Selection/Prune/Layers.antt =====
-- The layers that are left grow with the zoom.
use fwh_osm.Prelude.{
  ℕ, ◌≤◌, ◌≡◌, refl, true, false, some, List, [], ◌∷◌, arith, All-imp, length, All, ap, ◌∙◌,
}
use fwh_osm.Prelude.Table.{listed, has_number}
use fwh_osm.Prelude.Sets.{
  minus, union, intersect, has_number-minus, has_number-union, has_number-intersect, IsSubset,
  count,
}
use fwh_osm.Roads.Graph.{RoadGraph}
use fwh_osm.Roads.Selection.Prune.{
  Layered, sort_down, ferries, prune_down, zooms_of, removed_from, total_m, prune_layers,
}
use fwh_osm.Roads.Selection.Prune.Whole.{prune_fragments-IsPruned}
use fwh_osm.Roads.Selection.Prune.Sorted.{
  IsDescending, sort_down-IsDescending, keys-sort_down, own_keys, bounded, count-sort_down,
}
use fwh_osm.Roads.Selection.Prune.Dropped.{IsExplained, prune_down-IsExplained}

-- Each layer holds only what it held, all its ferries, and what any lower layer holds.
abbrev pub IsRevealed : RoadGraph → List (ℕ × List ℕ) → List (ℕ × List ℕ) → Type 0
IsRevealed g layers [] = Unit
IsRevealed g layers ((z, shown) ∷ pruned) =
    IsSubset shown (listed z layers)
    × ((e : ℕ)
        → has_number e (ferries g.edges) ≡ true
        → has_number e (listed z layers) ≡ true
        → has_number e shown ≡ true)
    × All (λ (lower : ℕ × List ℕ). (lower.0 ≤ z) × IsSubset lower.1 shown) pruned
    × IsRevealed g layers pruned

-- What a lower layer keeps is not doomed.
abbrev IsBelow : List (ℕ × List ℕ) → ℕ → List ℕ → ℕ × List ℕ → Type 0
IsBelow layers z doomed lower =
    (lower.0 ≤ z)
    × ((e : ℕ)
        → has_number e lower.1 ≡ true
        → (has_number e (listed lower.0 layers) ≡ true) × (has_number e doomed ≡ false))

-- Each zoom shows what the zooms below it show.
abbrev pub IsNested : List (ℕ × List ℕ) → Type 0
IsNested layers =
    (w z : ℕ)
    → has_number z (zooms_of layers) ≡ true
    → w ≤ z
    → IsSubset (listed w layers) (listed z layers)

lower_shown :
    (layers : List (ℕ × List ℕ)) (z : ℕ) (doomed : List ℕ) (lower : ℕ × List ℕ)
    → IsNested layers
    → has_number z (zooms_of layers) ≡ true
    → IsBelow layers z doomed lower
    → (lower.0 ≤ z) × IsSubset lower.1 (minus (listed z layers) doomed)
lower_shown layers z doomed lower nested key (le, h) = (
  le,
  λ e m.
      ground (arith, h e m, nested lower.0 z key le e, has_number-minus e (listed z layers) doomed),
)

raise_top :
    (layers : List (ℕ × List ℕ)) (z top : ℕ) (doomed more : List ℕ) (lower : ℕ × List ℕ)
    → z ≤ top
    → IsBelow layers z (union doomed more) lower
    → IsBelow layers top doomed lower
raise_top layers z top doomed more lower le (le', h) =
    (omega arith, λ e m. ground (arith, h e m, has_number-union e doomed more))

module _ (g : RoadGraph) (layers backbone : List (ℕ × List ℕ)) where
  prune_down-IsRevealed :
      (zs doomed : List ℕ) (top : ℕ)
      → IsNested layers
      → All (λ w. has_number w (zooms_of layers) ≡ true) zs
      → IsDescending zs
      → All (λ w. w ≤ top) zs
      → ((e : ℕ) → has_number e (ferries g.edges) ≡ true → has_number e doomed ≡ false)
      → (pruned : List (ℕ × List ℕ)) × (prune_down g layers backbone zs doomed ≡ some pruned)
        × IsRevealed g layers pruned
        × All (IsBelow layers top doomed) pruned
        × (zooms_of pruned ≡ zs)
  unfolding prune_down
  prune_down-IsRevealed [] doomed top nested keys d below spared = ([], refl, tt, tt, refl)
  prune_down-IsRevealed (z ∷ zs) doomed top nested (key, keys) (under, d) (le, below) spared =
      let selected = listed z layers in
      let protected = union (listed z backbone) (intersect (ferries g.edges) selected) in
      let (k, runs, r) = prune_fragments-IsPruned g selected z protected in
      let doomed' = union doomed (minus selected k.kept) in
      let held = λ (e : ℕ). has_number-union e doomed (minus selected k.kept) in
      let spared' : (e : ℕ) → has_number e (ferries g.edges) ≡ true → has_number e doomed' ≡ false =
        λ e f. ground (
          arith,
          held e,
          has_number-minus e selected k.kept,
          spared e f,
          r.spares e,
          has_number-union e (listed z backbone) (intersect (ferries g.edges) selected),
          has_number-intersect e (ferries g.edges) selected,
        ) in
      let (pruned, goes, revealed, all, zooms) =
        prune_down-IsRevealed zs doomed' z nested keys d under spared' in
      let shown = minus selected doomed' in
      (
        (z, shown) ∷ pruned,
        rw (prune_down, runs, goes) refl,
        (
          (λ e m. ground (arith, has_number-minus e selected doomed')),
          (λ e f m. ground (arith, has_number-minus e selected doomed', spared' e f)),
          All-imp _ _ pruned (λ lower. lower_shown layers z doomed' lower nested key) all,
          revealed,
        ),
        (
          (le, λ e m. ground (arith, has_number-minus e selected doomed', held e)),
          All-imp _ _ pruned
              (λ lower. raise_top layers z top doomed (minus selected k.kept) lower le) all,
        ),
        ap (λ ws. z ∷ ws) zooms,
      )

-- Of layers that grow with the zoom `prune_layers` makes layers that grow with the zoom, without an
-- error. There is a layer for each zoom that had one, as often and for no other zoom; each keeps only
-- what it had, keeps all of its ferries, and shows all that a lower one shows; and what it misses was
-- dropped by `prune_fragments` from the layer of this zoom or of a higher one.
pub prune_layers-IsRevealed :
    (g : RoadGraph) (layers backbone : List (ℕ × List ℕ))
    → IsNested layers
    → (r : Layered) × (prune_layers g layers backbone ≡ some r)
      × ((z : ℕ) → count z (zooms_of r.pruned) ≡ count z (zooms_of layers))
      × IsRevealed g layers r.pruned
      × IsExplained g layers backbone r.pruned
unfolding prune_layers has_number
prune_layers-IsRevealed g layers backbone nested =
    let zs = sort_down (zooms_of layers) in
    let (top, under) = bounded zs in
    let (pruned, runs, revealed, _, zooms) =
      prune_down-IsRevealed g layers backbone zs [] top nested
        (keys-sort_down (λ w. has_number w (zooms_of layers)) (zooms_of layers)
          (own_keys (zooms_of layers) (λ w. has_number w (zooms_of layers)) (λ w m. m)))
        (sort_down-IsDescending (zooms_of layers)) under (λ e f. refl) in
    let removed = removed_from layers pruned in
    (
      record { pruned = pruned; removed = length removed; dropped_m = total_m g removed },
      rw (prune_layers, runs) refl,
      (λ z. ap (count z) zooms ∙ count-sort_down z (zooms_of layers)),
      revealed,
      prune_down-IsExplained g layers backbone zs [] top pruned
          (sort_down-IsDescending (zooms_of layers)) under (λ e m. absurd (ground arith)) runs,
    )
