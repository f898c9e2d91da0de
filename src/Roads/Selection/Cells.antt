-- ===== src/Roads/Selection/Cells.antt =====
-- The cell costs of `select_edges` in handlers/roads/zoom_selection.py: what a road charges to the cells
-- that it runs through, and whether their budgets afford it. The floats are a parameter,
-- `Kilometres`; the names of the cells of the H3 library are numbers, with 0 for `flat`.
use fwh_osm.Prelude.{
  ℕ, Bool, true, ◌&&◌, Option, none, some, List, [], ◌∷◌, if◌then◌else◌, length, is_empty,
}
use fwh_osm.Prelude.Table.{find, put, listed}
use fwh_osm.Roads.Graph.{LogicalEdge, RoadGraph}

-- The operations on floats. `km_of` divides a length by 1000.0, `of_milli` is a constant in
-- thousandths, and `of_number` an integer.
pub record Kilometres (F : Type 0) : Type 0 where
  pub nothing : F
  pub plus : F → F → F
  pub times : F → F → F
  pub over : F → F → F
  pub is_zero : F → Bool
  pub less : F → F → Bool
  pub at_most : F → F → Bool
  pub km_of : ℕ → F
  pub of_milli : ℕ → F
  pub of_number : ℕ → F

-- One cell of `budgets[z]`
pub record Budget (F : Type 0) : Type 0 where
  pub budget_km : Option F
  pub anchor_count : ℕ

-- What a zoom works with.
pub record Setting (F : Type 0) : Type 0 where
  pub edge_cells : List (ℕ × List ℕ)
  pub z_scores : List (ℕ × F)
  pub z_budgets : List (ℕ × Budget F)
  pub base_km : F
  pub min_km : F
  pub fc_floor : ℕ
  pub overdraft : F

-- The edges that are selected, and the kilometres charged to each cell.
pub record Chosen (F : Type 0) : Type 0 where
  pub selected : List ℕ
  pub cell_used_km : List (ℕ × F)

module _ {F : Type 0} (o : Kilometres F) where
  -- `table.get(key, 0.0)`
  unfoldable pub amount : ℕ → List (ℕ × F) → F
  unfolding find
  amount key t = elim (find key t) [ none ↦ o.nothing | some v ↦ v ]

  -- `cost[cell] += per_cell`
  unfoldable pub add_per_cell : F → List ℕ → List (ℕ × F) → List (ℕ × F)
  unfolding put amount
  add_per_cell per_cell [] cost = cost
  add_per_cell per_cell (cell ∷ cells) cost =
      add_per_cell per_cell cells (put cell (o.plus (amount cell cost) per_cell) cost)

  -- `(edge.length_m / 1000.0) / max(1, len(cells))`
  unfoldable pub km_per_cell : LogicalEdge → List ℕ → F
  km_per_cell e cells =
      o.over (o.km_of e.length_m) (o.of_number (if is_empty cells then 1 else length cells))

  abbrev pub flat_if_none : List ℕ → List ℕ
  flat_if_none [] = 0 ∷ []
  flat_if_none (cell ∷ cells) = cell ∷ cells

  unfoldable pub corridor_cell_cost :
      RoadGraph → List (ℕ × List ℕ) → List ℕ → List (ℕ × F) → List (ℕ × F)
  unfolding find listed add_per_cell km_per_cell
  corridor_cell_cost g edge_cells [] cost = cost
  corridor_cell_cost g edge_cells (eid ∷ corridor) cost =
      corridor_cell_cost g edge_cells corridor (elim (find eid g.edge_by_id) [
        | none ↦ cost
        | some e ↦
            let cells = flat_if_none (listed eid edge_cells) in
            add_per_cell (km_per_cell e cells) cells cost
      ])

  -- `total_km` and `weighted`
  unfoldable pub weigh : RoadGraph → List (ℕ × F) → List ℕ → F × F → F × F
  unfolding find amount
  weigh g z_scores [] sums = sums
  weigh g z_scores (eid ∷ corridor) (total_km, weighted) =
      weigh g z_scores corridor (elim (find eid g.edge_by_id) [
        | none ↦ (total_km, weighted)
        | some e ↦
            let km = o.km_of e.length_m in
            (o.plus total_km km, o.plus weighted (o.times (amount eid z_scores) km))
      ])

  unfoldable pub corridor_score : RoadGraph → List (ℕ × F) → List ℕ → F
  unfolding weigh
  corridor_score g z_scores corridor =
      let sums = weigh g z_scores corridor (o.nothing, o.nothing) in
      if o.less o.nothing sums.0 then o.over sums.1 sums.0 else o.nothing

  unfoldable pub sum : List F → F → F
  sum [] total = total
  sum (km ∷ kms) total = sum kms (o.plus total km)

  abbrev pub amounts : List (ℕ × F) → List F
  amounts [] = []
  amounts ((_, km) ∷ t) = km ∷ amounts t

  -- `_budget_of`
  unfoldable pub budget_of : Setting F → ℕ → F
  unfolding find
  budget_of s cell = elim (find cell s.z_budgets) [
    | none ↦ s.base_km
    | some b ↦ elim b.budget_km [ none ↦ s.base_km | some km ↦ km ]
  ]

  -- The kilometres of a cost that its cells cannot afford.
  unfoldable pub unaffordable : Setting F → List (ℕ × F) → List (ℕ × F) → List F
  unfolding budget_of amount
  unaffordable s used [] = []
  unaffordable s used ((cell, km) ∷ cost) =
      let rest = unaffordable s used cost in
      if o.less (budget_of s cell) (o.plus (amount cell used) km) then km ∷ rest else rest

  -- `_fits`
  unfoldable pub fits : Setting F → List (ℕ × F) → List (ℕ × F) → F → Bool
  unfolding unaffordable sum
  fits s used cost overdraft =
      let short = sum (unaffordable s used cost) o.nothing in
      let total = sum (amounts cost) o.nothing in
      if o.is_zero short
      then true
      else o.less o.nothing total && o.at_most (o.over short total) overdraft

  -- `_charge`
  unfoldable pub charge : List (ℕ × F) → List (ℕ × F) → List (ℕ × F)
  unfolding put amount
  charge [] used = used
  charge ((cell, km) ∷ cost) used = charge cost (put cell (o.plus (amount cell used) km) used)

-- `sort(key=…, reverse=True)`, which leaves items of one key in their order.
module _ {F A : Type 0} (o : Kilometres F) (key : A → F) where
  unfoldable pub insert_by : A → List A → List A
  insert_by a [] = a ∷ []
  insert_by a (b ∷ bs) = if o.less (key a) (key b) then b ∷ insert_by a bs else a ∷ b ∷ bs

  unfoldable pub sort_by : List A → List A
  unfolding insert_by
  sort_by [] = []
  sort_by (a ∷ rest) = insert_by a (sort_by rest)
