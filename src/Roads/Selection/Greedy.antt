-- ===== src/Roads/Selection/Greedy.antt =====
-- The passes of `select_edges` in handlers/roads/zoom_selection.py: the skeleton, the greedy passes over
-- corridors and over edges, and the floor for sparse cells. A set of edges is run through in the
-- order of its list.
pub mod Admits
pub mod Zooms
pub mod Shown
use fwh_osm.Prelude.{
  ℕ, zero, suc, ◌+◌, Bool, true, false, not, ◌&&◌, ◌||◌, Option, none, some, List, [], ◌∷◌, ◌++◌,
  if◌then◌else◌, ◌==◌, ltb, leb, length, is_empty, keep, has_name, String,
}
use fwh_osm.Prelude.Table.{find, put, listed, has_number}
use fwh_osm.Prelude.Sets.{union}
use fwh_osm.Roads.Graph.{LogicalEdge, RoadGraph}
use fwh_osm.Roads.Selection.Cells.{
  Budget, Chosen, Kilometres, Setting, add_per_cell, amount, amounts, budget_of, charge,
  corridor_cell_cost, corridor_score, fits, flat_if_none, insert_by, km_per_cell, sort_by, sum,
  unaffordable, weigh,
}

-- `SKELETON_FCS`
abbrev pub skeleton_fcs : List String
skeleton_fcs = "motorway" ∷ "trunk" ∷ []

-- The edges of the skeleton classes that reach the floor.
unfoldable pub add_skeleton : ℕ → List LogicalEdge → List ℕ
add_skeleton fc_floor [] = []
add_skeleton fc_floor (e ∷ es) =
    let rest = add_skeleton fc_floor es in
    if has_name e.fc skeleton_fcs && leb fc_floor e.fc_score then e.edge_id ∷ rest else rest

-- `corridor_of.get(eid, [eid])`
unfoldable pub corridor_at : ℕ → List (ℕ × List ℕ) → List ℕ
unfolding find
corridor_at eid corridor_of = elim (find eid corridor_of) [ none ↦ eid ∷ [] | some es ↦ es ]

module _ {F : Type 0} (o : Kilometres F) (g : RoadGraph) (s : Setting F) where
  -- The scored edges that are not selected, are stored and reach the floor.
  unfoldable pub eligible : List ℕ → List (ℕ × F) → List ℕ
  unfolding find has_number
  eligible selected [] = []
  eligible selected ((eid, _) ∷ scores) =
      let rest = eligible selected scores in
      elim (find eid g.edge_by_id) [
        | none ↦ rest
        | some e ↦
            if not (has_number eid selected) && leb s.fc_floor e.fc_score then eid ∷ rest else rest
      ]

  -- `selected.update(…)`, `_charge(cost)`
  abbrev pub admit : List ℕ → List (ℕ × F) → Chosen F → Chosen F
  admit eids cost c = record {
    selected = union c.selected eids;
    cell_used_km = charge o cost c.cell_used_km;
  }

  unfoldable pub admit_corridors : List (List ℕ) → Chosen F → Chosen F
  unfolding fits charge union corridor_cell_cost
  admit_corridors [] c = c
  admit_corridors (corridor ∷ corridors) c =
      let cost = corridor_cell_cost o g s.edge_cells corridor [] in
      admit_corridors corridors
        (if fits o s c.cell_used_km cost s.overdraft then admit corridor cost c else c)

  -- The greedy pass over single edges.
  unfoldable pub admit_edges : List (ℕ × F) → Chosen F → Chosen F
  unfolding find has_number fits charge union listed add_per_cell km_per_cell
  admit_edges [] c = c
  admit_edges ((eid, _) ∷ candidates) c = admit_edges candidates (elim (find eid g.edge_by_id) [
    | none ↦ c
    | some e ↦
        let cells = listed eid s.edge_cells in
        let cost = add_per_cell o (km_per_cell o e cells) cells [] in
        if ltb e.fc_score s.fc_floor || has_number eid c.selected
        then c
        else if fits o s c.cell_used_km cost o.nothing
        then admit (eid ∷ []) cost c
        else c
  ])

  -- The loop over the candidates for one sparse cell, which ends when the cell holds enough.
  unfoldable pub top_up : ℕ → List (ℕ × List ℕ) → List (ℕ × F) → Chosen F → Chosen F
  unfolding find has_number listed union charge corridor_cell_cost amount corridor_at
  top_up cell corridor_of [] c = c
  top_up cell corridor_of ((eid, _) ∷ candidates) c = elim (find eid g.edge_by_id) [
    | none ↦ top_up cell corridor_of candidates c
    | some e ↦
        elim (has_number eid c.selected
          || (not (has_number cell (listed eid s.edge_cells)) || ltb e.fc_score s.fc_floor)) [
            | true ↦ top_up cell corridor_of candidates c
            | false ↦
                let piece =
                  keep (λ n. not (has_number n c.selected)) (corridor_at eid corridor_of) in
                elim (is_empty piece) [
                  | true ↦ top_up cell corridor_of candidates c
                  | false ↦
                      let c1 = admit piece (corridor_cell_cost o g s.edge_cells piece []) c in
                      elim (o.less (amount o cell c1.cell_used_km) s.min_km) [
                        | true ↦ top_up cell corridor_of candidates c1
                        | false ↦ c1
                      ]
                ]
          ]
  ]

  -- The sparse region floor, over the cells of the budget.
  unfoldable pub sparse_floor :
      List (ℕ × List ℕ) → List (ℕ × F) → List (ℕ × Budget F) → Chosen F → Chosen F
  unfolding top_up amount
  sparse_floor corridor_of candidates [] c = c
  sparse_floor corridor_of candidates ((cell, b) ∷ budgets) c =
      sparse_floor corridor_of candidates budgets (
        if ltb 0 b.anchor_count && o.less (amount o cell c.cell_used_km) s.min_km
        then top_up cell corridor_of candidates c
        else c)
