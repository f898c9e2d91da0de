-- ===== src/Roads/Selection/Greedy/Admits.antt =====
-- The passes of `select_edges` only add stored edges that reach the floor of the zoom.
use fwh_osm.Prelude.{
  ℕ, ◌<◌, ◌≡◌, sym, not, ◌&&◌, ◌||◌, some, List, [], ◌∷◌, arith, ◌==◌, ltb, leb, is_empty, keep,
  All, All-append, All-keep, Option-cases, Bool-cases, inl, inr,
}
use fwh_osm.Prelude.Table.{find, put, find-put, listed, has_number}
use fwh_osm.Prelude.Sets.{union, has_number-union, IsSubset, count}
use fwh_osm.Roads.Graph.{RoadGraph}
use fwh_osm.Roads.Selection.Backbone.Repairs.{IsAdmitted}
use fwh_osm.Roads.Selection.Corridors.Partition.{total}
use fwh_osm.Roads.Selection.Cells.{
  Kilometres, Budget, Setting, Chosen, amount, add_per_cell, km_per_cell, corridor_cell_cost, fits,
  insert_by, sort_by,
}
use fwh_osm.Roads.Selection.Greedy.{
  corridor_at, eligible, admit, admit_corridors, admit_edges, top_up, sparse_floor,
}
use fwh_osm.Roads.Selection.Greedy.Zooms.{corridor_of_edges, corridor_table}

module _ (P : ℕ → Type 0) where
  All-member : (xs : List ℕ) (id : ℕ) → All P xs → 0 < count id xs → P id
  All-member [] id h c = absurd (omega arith)
  All-member (x ∷ xs) id (p, h) c = elim (Bool-cases (x == id)) [
    | inl same ↦ let e : x ≡ id = ground arith in rw (sym e) p
    | inr other ↦ All-member xs id h (ground arith)
  ]

  All_of_count : (xs : List ℕ) → ((id : ℕ) → 0 < count id xs → P id) → All P xs
  All_of_count [] f = tt
  All_of_count (x ∷ xs) f = (f x (ground arith), All_of_count xs (λ id c. f id (omega arith)))

  pub All_of_total : (cs : List (List ℕ)) → ((id : ℕ) → 0 < total id cs → P id) → All (All P) cs
  All_of_total [] f = tt
  All_of_total (c ∷ cs) f =
      (All_of_count c (λ id k. f id (omega arith)), All_of_total cs (λ id k. f id (omega arith)))

  pub All-partition :
      (cs : List (List ℕ)) (xs : List ℕ)
      → ((id : ℕ) → total id cs ≡ count id xs)
      → All P xs
      → All (All P) cs
  All-partition cs xs same h = All_of_total cs (λ id k. All-member xs id h (omega (arith, same id)))

  pub union-All : (ms ks : List ℕ) → All P ms → All P ks → All P (union ms ks)
  unfolding union
  union-All ms ks h k =
      All-append P ms (keep (λ n. not (has_number n ms)) ks) h
        (All-keep P (λ n. not (has_number n ms)) ks k)

pub union-IsSubset : (ms ks : List ℕ) → IsSubset ms (union ms ks)
union-IsSubset ms ks n h = ground (arith, has_number-union n ms ks)

module _ {F A : Type 0} (o : Kilometres F) (key : A → F) (Q : A → Type 0) where
  insert_by-All : (a : A) (xs : List A) → Q a → All Q xs → All Q (insert_by o key a xs)
  unfolding insert_by
  insert_by-All a [] q h = (q, tt)
  insert_by-All a (b ∷ bs) q (r, h) = elim (Bool-cases (o.less (key a) (key b))) [
    | inl lower ↦ rw (insert_by, lower) (r, insert_by-All a bs q h)
    | inr first ↦ rw (insert_by, first) (q, (r, h))
  ]

  pub sort_by-All : (xs : List A) → All Q xs → All Q (sort_by o key xs)
  unfolding sort_by
  sort_by-All [] h = tt
  sort_by-All (x ∷ xs) (q, h) = insert_by-All x (sort_by o key xs) q (sort_by-All xs h)

module _ {F : Type 0} (P : ℕ → Type 0) where
  -- From one state to the next nothing is lost, and what is new has the property.
  pub record Grows (c c' : Chosen F) : Type 0 where
    pub holds : All P c.selected → All P c'.selected
    pub keeps : IsSubset c.selected c'.selected

  pub Grows-refl : (c : Chosen F) → Grows c c
  Grows-refl c = record { holds = λ h. h; keeps = λ n h. h }

  pub Grows-trans : (a b c : Chosen F) → Grows a b → Grows b c → Grows a c
  Grows-trans a b c h k = record {
    holds = λ m. k.holds (h.holds m);
    keeps = λ n m. k.keeps n (h.keeps n m);
  }

  admit-Grows :
      (o : Kilometres F) (g : RoadGraph) (s : Setting F) (eids : List ℕ) (cost : List (ℕ × F))
      (c : Chosen F)
      → All P eids
      → Grows c (admit o g s eids cost c)
  admit-Grows o g s eids cost c h = record {
    holds = λ k. union-All P c.selected eids k h;
    keeps = union-IsSubset c.selected eids;
  }

module _ {F : Type 0} (o : Kilometres F) (g : RoadGraph) (s : Setting F) where
  abbrev pub P : ℕ → Type 0
  P = IsAdmitted g s.fc_floor

  pub eligible-IsAdmitted :
      (selected : List ℕ) (scores : List (ℕ × F)) → All P (eligible o g s selected scores)
  unfolding eligible
  eligible-IsAdmitted selected [] = tt
  eligible-IsAdmitted selected ((eid, score) ∷ scores) =
      let rest = eligible-IsAdmitted selected scores in
      elim (Option-cases (find eid g.edge_by_id)) [
        | inl missing ↦ rw (eligible, missing) rest
        | inr (e, at) ↦
            elim (Bool-cases (not (has_number eid selected) && leb s.fc_floor e.fc_score)) [
              | inl taken ↦ rw (eligible, at, taken) ((e, at, ground arith), rest)
              | inr left_out ↦ rw (eligible, at, left_out) rest
            ]
      ]

  pub admit_corridors-Grows :
      (corridors : List (List ℕ)) (c : Chosen F)
      → All (All P) corridors
      → Grows P c (admit_corridors o g s corridors c)
  unfolding admit_corridors
  admit_corridors-Grows [] c h = Grows-refl P c
  admit_corridors-Grows (corridor ∷ corridors) c (h, hs) =
      let cost = corridor_cell_cost o g s.edge_cells corridor [] in
      let c1 = admit o g s corridor cost c in
      elim (Bool-cases (fits o s c.cell_used_km cost s.overdraft)) [
        | inl goes ↦
            rw (admit_corridors, goes)
              (Grows-trans P c c1 (admit_corridors o g s corridors c1)
                (admit-Grows P o g s corridor cost c h) (admit_corridors-Grows corridors c1 hs))
        | inr later ↦ rw (admit_corridors, later) (admit_corridors-Grows corridors c hs)
      ]

  pub admit_edges-Grows :
      (candidates : List (ℕ × F)) (c : Chosen F) → Grows P c (admit_edges o g s candidates c)
  unfolding admit_edges
  admit_edges-Grows [] c = Grows-refl P c
  admit_edges-Grows ((eid, score) ∷ candidates) c = elim (Option-cases (find eid g.edge_by_id)) [
    | inl missing ↦ rw (admit_edges, missing) (admit_edges-Grows candidates c)
    | inr (e, at) ↦
        let cells = listed eid s.edge_cells in
        let cost = add_per_cell o (km_per_cell o e cells) cells [] in
        let c1 = admit o g s (eid ∷ []) cost c in
        elim (Bool-cases (ltb e.fc_score s.fc_floor || has_number eid c.selected)) [
          | inl skip ↦ rw (admit_edges, at, skip) (admit_edges-Grows candidates c)
          | inr wanted ↦ elim (Bool-cases (fits o s c.cell_used_km cost o.nothing)) [
            | inl goes ↦
                rw (admit_edges, at, wanted, goes)
                  (Grows-trans P c c1 (admit_edges o g s candidates c1)
                    (admit-Grows P o g s (eid ∷ []) cost c ((e, at, ground arith), tt))
                    (admit_edges-Grows candidates c1))
            | inr later ↦ rw (admit_edges, at, wanted, later) (admit_edges-Grows candidates c)
          ]
        ]
  ]

  -- The corridors of the table hold stored edges that reach the floor.
  abbrev pub IsTable : List (ℕ × List ℕ) → Type 0
  IsTable t = (eid : ℕ) (es : List ℕ) → find eid t ≡ some es → All P es

  corridor_of_edges-IsTable :
      (corridor eids : List ℕ) (t : List (ℕ × List ℕ))
      → All P corridor
      → IsTable t
      → IsTable (corridor_of_edges corridor eids t)
  unfolding corridor_of_edges
  corridor_of_edges-IsTable corridor [] t h k = k
  corridor_of_edges-IsTable corridor (eid ∷ eids) t h k =
      corridor_of_edges-IsTable corridor eids (put eid corridor t) h (λ n es at.
        elim (Bool-cases (eid == n)) [
          | inl same ↦
              let e : corridor ≡ es = ground (arith, find-put eid n corridor t) in rw (sym e) h
          | inr other ↦ k n es (ground (arith, find-put eid n corridor t))
        ])

  pub corridor_table-IsTable :
      (corridors : List (List ℕ)) (t : List (ℕ × List ℕ))
      → All (All P) corridors
      → IsTable t
      → IsTable (corridor_table corridors t)
  unfolding corridor_table
  corridor_table-IsTable [] t h k = k
  corridor_table-IsTable (corridor ∷ corridors) t (h, hs) k =
      corridor_table-IsTable corridors (corridor_of_edges corridor corridor t) hs
        (corridor_of_edges-IsTable corridor corridor t h k)

  corridor_at-All :
      (eid : ℕ) (corridor_of : List (ℕ × List ℕ))
      → IsTable corridor_of
      → P eid
      → All P (corridor_at eid corridor_of)
  unfolding corridor_at
  corridor_at-All eid corridor_of known h = elim (Option-cases (find eid corridor_of)) [
    | inl single ↦ rw (corridor_at, single) (h, tt)
    | inr (es, at) ↦ rw (corridor_at, at) (known eid es at)
  ]

  pub top_up-Grows :
      (cell : ℕ) (corridor_of : List (ℕ × List ℕ)) (candidates : List (ℕ × F)) (c : Chosen F)
      → IsTable corridor_of
      → Grows P c (top_up o g s cell corridor_of candidates c)
  unfolding top_up
  top_up-Grows cell corridor_of [] c known = Grows-refl P c
  top_up-Grows cell corridor_of ((eid, score) ∷ candidates) c known =
      let skips = top_up-Grows cell corridor_of candidates c known in
      elim (Option-cases (find eid g.edge_by_id)) [
        | inl missing ↦ rw (top_up, missing) skips
        | inr (e, at) ↦
            let test =
              has_number eid c.selected
              || (not (has_number cell (listed eid s.edge_cells)) || ltb e.fc_score s.fc_floor) in
            elim (Bool-cases test) [
              | inl skip ↦ rw (top_up, at, skip) skips
              | inr wanted ↦
                  let piece =
                    keep (λ n. not (has_number n c.selected)) (corridor_at eid corridor_of) in
                  let c1 = admit o g s piece (corridor_cell_cost o g s.edge_cells piece []) c in
                  let one =
                    admit-Grows P o g s piece (corridor_cell_cost o g s.edge_cells piece []) c (
                      All-keep P (λ n. not (has_number n c.selected)) (corridor_at eid corridor_of)
                        (corridor_at-All eid corridor_of known (e, at, ground arith))) in
                  elim (Bool-cases (is_empty piece)) [
                    | inl whole ↦ rw (top_up, at, wanted, whole) skips
                    | inr part ↦
                        elim (Bool-cases (o.less (amount o cell c1.cell_used_km) s.min_km)) [
                          | inl more ↦
                              rw (top_up, at, wanted, part, more)
                                (Grows-trans P c c1 (top_up o g s cell corridor_of candidates c1)
                                  one (top_up-Grows cell corridor_of candidates c1 known))
                          | inr full ↦ rw (top_up, at, wanted, part, full) one
                        ]
                  ]
            ]
      ]

  pub sparse_floor-Grows :
      (corridor_of : List (ℕ × List ℕ)) (candidates : List (ℕ × F)) (budgets : List (ℕ × Budget F))
      (c : Chosen F)
      → IsTable corridor_of
      → Grows P c (sparse_floor o g s corridor_of candidates budgets c)
  unfolding sparse_floor
  sparse_floor-Grows corridor_of candidates [] c known = Grows-refl P c
  sparse_floor-Grows corridor_of candidates ((cell, b) ∷ budgets) c known =
      elim (Bool-cases (ltb 0 b.anchor_count && o.less (amount o cell c.cell_used_km) s.min_km)) [
        | inl sparse ↦
            let c1 = top_up o g s cell corridor_of candidates c in
            rw (sparse_floor, sparse)
              (Grows-trans P c c1 (sparse_floor o g s corridor_of candidates budgets c1)
                (top_up-Grows cell corridor_of candidates c known)
                (sparse_floor-Grows corridor_of candidates budgets c1 known))
        | inr enough ↦
            rw (sparse_floor, enough) (sparse_floor-Grows corridor_of candidates budgets c known)
      ]
