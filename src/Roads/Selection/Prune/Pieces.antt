-- ===== src/Roads/Selection/Prune/Pieces.antt =====
-- The pieces of a selection: every node of a selected edge belongs to one, and an edge does not lead
-- from one piece to another.
use fwh_osm.Prelude.{
  ℕ, suc, ◌*◌, ◌≤◌, ◌<◌, ◌≡◌, refl, inl, inr, Bool, true, false, none, some, List, [], ◌∷◌, ◌++◌,
  arith, ◌==◌, length, length-append, ==_iff, Option-cases, Bool-cases,
}
use fwh_osm.Prelude.Table.{find, put, find-put, has_number}
use fwh_osm.Roads.Graph.{LogicalEdge, RoadGraph, other_end}
use fwh_osm.Roads.Selection.Prune.{pieces_from, sub_adjacency}
use fwh_osm.Roads.Selection.Prune.Adjacency.{
  keys, IsListed, sub_adjacency-IsListed, length-sub_adjacency,
}
use fwh_osm.Roads.Selection.Prune.Walks.{
  missing-put, missing_le, IsClosed, Inv, Extends, explore-Inv,
}

module _ (g : RoadGraph) (held : ℕ → Bool) (t : List (ℕ × List ℕ)) where
  -- Between two walks: all nodes that belong to a piece are closed, and the pieces are numbered.
  pub record IsParted (count : ℕ) (comp_of : List (ℕ × ℕ)) : Type 0 where
    pub closed : (n c : ℕ) → find n comp_of ≡ some c → IsClosed g held t comp_of n c
    pub numbered : (n c : ℕ) → find n comp_of ≡ some c → c < count

  start-Inv :
      (cid start : ℕ) (comp_of : List (ℕ × ℕ))
      → find start comp_of ≡ none
      → IsParted cid comp_of
      → Inv g held t (λ n. false) cid (start ∷ []) (put start cid comp_of)
  unfolding has_number
  start-Inv cid start comp_of fresh h = record {
    waiting = λ n at. ground (arith, find-put start n cid comp_of);
    closed = λ n c at. elim (Bool-cases (start == n)) [
      | inl same ↦ inr (inl (ground arith))
      | inr other ↦ inr (
          inr (λ eid e l s.
            let shut = h.closed n c (ground (arith, find-put start n cid comp_of)) eid e l s in
            ground (arith, find-put start (other_end e n) cid comp_of)))
    ];
    least = λ n c at. ground (arith, find-put start n cid comp_of, h.numbered n c);
  }

  walked :
      (cid : ℕ) (members : List ℕ) (components : List (List ℕ)) (comp_of : List (ℕ × ℕ))
      → cid ≡ length components
      → Inv g held t (λ n. false) cid [] comp_of
      → IsParted (length (components ++ members ∷ [])) comp_of
  unfolding has_number
  walked cid members components comp_of e inv = record {
    closed = λ n c at. elim (inv.closed n c at) [
      | inl skipped ↦ absurd (cc)
      | inr (inl in_stack) ↦ absurd (ground arith)
      | inr (inr shut) ↦ shut
    ];
    numbered = λ n c at. omega (arith, inv.least n c at, length-append components (members ∷ []));
  }

  -- The loop over the nodes `rest` of the table.
  pieces_from-IsParted :
      (fuel : ℕ) (rest : List (ℕ × List ℕ)) (comp_of : List (ℕ × ℕ)) (components : List (List ℕ))
      → IsListed g held t
      → length (keys t) ≤ fuel
      → ((n : ℕ) → has_number n (keys rest) ≡ true → has_number n (keys t) ≡ true)
      → IsParted (length components) comp_of
      → (components' : List (List ℕ)) × (comp_of' : List (ℕ × ℕ)) × (pieces_from fuel g t rest
            comp_of components
          ≡ some (components', comp_of'))
        × IsParted (length components') comp_of'
        × Extends g held t comp_of comp_of'
        × ((n : ℕ) → has_number n (keys rest) ≡ true → (c : ℕ) × (find n comp_of' ≡ some c))
  unfolding pieces_from has_number
  pieces_from-IsParted fuel [] comp_of components table enough sub h =
      (components, comp_of, refl, h, λ n c at. at, λ n m. absurd (ground arith))
  pieces_from-IsParted fuel ((start, eids) ∷ rest) comp_of components table enough sub h =
      let sub' : (n : ℕ) → has_number n (keys rest) ≡ true → has_number n (keys t) ≡ true =
        λ n m. sub n (ground arith) in
      elim (Option-cases (find start comp_of)) [
        | inr (c, known) ↦
            let (cs, comp_of', runs, h', more, all) =
              pieces_from-IsParted fuel rest comp_of components table enough sub' h in
            (
              cs,
              comp_of',
              rw (pieces_from, known) runs,
              h',
              more,
              λ n m. elim (Bool-cases (start == n)) [
                | inl same ↦ (c, rw (← (==_iff start n).0 same) (more start c known))
                | inr other ↦ all n (ground arith)
              ],
            )
        | inl fresh ↦
            let cid = length components in
            let (members, comp1, walks, inv, more1) =
              explore-Inv g held t fuel cid (start ∷ []) [] (put start cid comp_of) table
                (omega (
                  arith,
                  missing-put start cid comp_of (keys t) fresh (sub start (ground arith)),
                  missing_le comp_of (keys t),
                ))
                (start-Inv cid start comp_of fresh h) in
            let (cs, comp_of', runs, h', more, all) =
              pieces_from-IsParted fuel rest comp1 (components ++ members ∷ []) table enough sub'
                (walked cid members components comp1 refl inv) in
            (
              cs,
              comp_of',
              rw (pieces_from, fresh, walks) runs,
              h',
              λ n c at. more n c (more1 n c (ground (arith, find-put start n cid comp_of))),
              λ n m. elim (Bool-cases (start == n)) [
                | inl same ↦ (
                  cid,
                  rw (← (==_iff start n).0 same) (
                      more start cid
                        (more1 start cid (ground (arith, find-put start start cid comp_of)))),
                )
                | inr other ↦ all n (ground arith)
              ],
            )
      ]

no_pieces : (g : RoadGraph) (held : ℕ → Bool) (t : List (ℕ × List ℕ)) → IsParted g held t 0 []
unfolding find
no_pieces g held t = record {
  closed = λ n c at. absurd (ground arith);
  numbered = λ n c at. absurd (ground arith);
}

from_other : (e : LogicalEdge) → other_end e e.from_node ≡ e.to_node
unfolding other_end
from_other e = ground arith

-- The pieces of a selection are found with the rounds that are given, and both ends of a selected
-- edge belong to the same piece.
pub pieces_of_selected :
    (g : RoadGraph) (selected : List ℕ)
    → (cs : List (List ℕ)) × (comp_of : List (ℕ × ℕ)) × (pieces_from
          (suc (2 * length selected))
          g
          (sub_adjacency g selected [])
          (sub_adjacency g selected [])
          []
          []
        ≡ some (cs, comp_of))
      × ((n c : ℕ) → find n comp_of ≡ some c → c < length cs)
      × ((eid : ℕ) (e : LogicalEdge)
          → has_number eid selected ≡ true
          → find eid g.edge_by_id ≡ some e
          → (c : ℕ) × (find e.from_node comp_of ≡ some c) × (find e.to_node comp_of ≡ some c))
pieces_of_selected g selected =
    let held = λ (i : ℕ). has_number i selected in
    let t = sub_adjacency g selected [] in
    let table = sub_adjacency-IsListed g selected in
    let (cs, comp_of, runs, parted, _, all) =
      pieces_from-IsParted g held t (suc (2 * length selected)) t [] [] table
        (omega (arith, length-sub_adjacency g selected [])) (λ n m. m) (no_pieces g held t) in
    (
      cs,
      comp_of,
      runs,
      parted.numbered,
      λ eid e m stored.
          let (c, at) = all e.from_node (table.ends eid e.from_node e m stored (inl refl)) in
          let there =
            parted.closed e.from_node c at eid e (table.full eid e.from_node e m stored (inl refl))
              stored in
          (c, at, rw (from_other e) at there),
    )
