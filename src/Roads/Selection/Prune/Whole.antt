-- ===== src/Roads/Selection/Prune/Whole.antt =====
-- `prune_fragments` drops whole pieces, and no protected edge.
use fwh_osm.Prelude.{
  ℕ, ◌+◌, ◌<◌, ◌≡◌, refl, ap, ◌∙◌, sym, true, false, not, ◌&&◌, ◌||◌, some, List, [], ◌∷◌, arith,
  ◌==◌, leb, length, All, is_empty, get_elem?-some, Option-cases, Bool-cases, inl, inr,
}
use fwh_osm.Prelude.Table.{find, has_number}
use fwh_osm.Prelude.Sets.{minus, intersect, has_number-minus, has_number-intersect, IsSubset}
use fwh_osm.Roads.Graph.{LogicalEdge, RoadGraph}
use fwh_osm.Roads.Graph.Built.{IsEndOf}
use fwh_osm.Roads.Selection.Prune.{
  Kept, is_cut, drop_pieces, group_edges, min_component, prune_fragments,
}
use fwh_osm.Roads.Selection.Prune.Pieces.{pieces_of_selected}
use fwh_osm.Roads.Selection.Prune.Groups.{Group, belongs, All-of_find, group_edges-IsGrouped}

is_empty_of_member : (x : ℕ) (xs : List ℕ) → has_number x xs ≡ true → is_empty xs ≡ false
unfolding has_number
is_empty_of_member x [] m = absurd (ground arith)
is_empty_of_member x (y ∷ xs) m = refl

-- What one call of `drop_pieces` changes, seen at two edges of one piece.
record IsDropped (protected : List ℕ) (x y : ℕ) (k k' : Kept) : Type 0 where
  subset : IsSubset k'.kept k.kept
  spares : (e : ℕ) → has_number e protected ≡ true → has_number e k'.kept ≡ has_number e k.kept
  alike : has_number x k.kept ≡ has_number y k.kept → has_number x k'.kept ≡ has_number y k'.kept

module _ (g : RoadGraph) (selected protected : List ℕ) (limit x y : ℕ)
    (components : List (List ℕ)) where
  -- The group has a piece, and has both edges or neither.
  abbrev IsWhole : ℕ → Group → Type 0
  IsWhole c p = (c < length components) × (has_number x p.0 ≡ has_number y p.0)

  drop_pieces-IsDropped :
      (groups : List (ℕ × Group)) (k : Kept)
      → All (λ (kv : ℕ × Group). IsWhole kv.0 kv.1) groups
      → (k' : Kept) × (drop_pieces g selected protected limit components groups k ≡ some k')
        × IsDropped protected x y k k'
  unfolding drop_pieces
  drop_pieces-IsDropped [] k h =
      (k, refl, record { subset = λ n m. m; spares = λ e m. refl; alike = λ e. e })
  drop_pieces-IsDropped ((cid, (edges, len)) ∷ groups) k ((less, same), h) =
      elim (Bool-cases (leb limit len || not (is_empty (intersect edges protected)))) [
        | inl spared ↦
            let (k', runs, r) = drop_pieces-IsDropped groups k h in
            (k', rw (drop_pieces, spared) runs, r)
        | inr open_one ↦
            let (nodes, at) = get_elem?-some components cid less in
            elim (Bool-cases (is_cut g selected nodes)) [
              | inr isolated ↦
                  let (k', runs, r) = drop_pieces-IsDropped groups k h in
                  (k', rw (drop_pieces, open_one, at, isolated) runs, r)
              | inl cut ↦
                  let k1 : Kept = record {
                    kept = minus k.kept edges;
                    dropped = k.dropped + length edges;
                    dropped_m = k.dropped_m + len;
                  } in
                  let (k', runs, r) = drop_pieces-IsDropped groups k1 h in
                  (
                    k',
                    rw (drop_pieces, open_one, at, cut) runs,
                    record {
                      subset = λ n m. ground (arith, r.subset n m, has_number-minus n k.kept edges);
                      spares = λ e m. ground (
                        arith,
                        r.spares e m,
                        has_number-minus e k.kept edges,
                        has_number-intersect e edges protected,
                        is_empty_of_member e (intersect edges protected),
                      );
                      alike = λ eq. r.alike (
                          ground (
                            arith,
                            has_number-minus x k.kept edges,
                            has_number-minus y k.kept edges,
                          ));
                    },
                  )
            ]
      ]

-- Two edges that meet.
pub record Meet (g : RoadGraph) (x y : ℕ) : Type 0 where
  pub first : LogicalEdge
  pub second : LogicalEdge
  pub node : ℕ
  pub stored_first : find x g.edge_by_id ≡ some first
  pub stored_second : find y g.edge_by_id ≡ some second
  pub end_first : IsEndOf first node
  pub end_second : IsEndOf second node

-- What is kept of a selection.
pub record IsPruned (g : RoadGraph) (selected protected : List ℕ) (k : Kept) : Type 0 where
  pub subset : IsSubset k.kept selected
  pub spares :
      (e : ℕ)
      → has_number e selected ≡ true
      → has_number e protected ≡ true
      → has_number e k.kept ≡ true
  pub whole :
      (x y : ℕ)
      → has_number x selected ≡ true
      → has_number y selected ≡ true
      → Meet g x y
      → has_number x k.kept ≡ has_number y k.kept

everything_kept :
    (g : RoadGraph) (selected protected : List ℕ)
    → IsPruned g selected protected (record { kept = selected; dropped = 0; dropped_m = 0 })
everything_kept g selected protected = record {
  subset = λ n m. m;
  spares = λ e m p. m;
  whole = λ x y mx my meet. mx ∙ sym my;
}

-- Both edges belong to the piece of the node that they share.
meet_belongs :
    (g : RoadGraph) (comp_of : List (ℕ × ℕ)) (x : ℕ) (e : LogicalEdge) (n d c : ℕ)
    → find x g.edge_by_id ≡ some e
    → IsEndOf e n
    → find e.from_node comp_of ≡ some d
    → find e.to_node comp_of ≡ some d
    → find n comp_of ≡ some c
    → (i : ℕ) → belongs g comp_of i x ≡ (c == i)
meet_belongs g comp_of x e n d c stored (inl from) at_from at_to at i =
    let same : d ≡ c = ground (arith, ap (λ v. find v comp_of) from) in ground arith
meet_belongs g comp_of x e n d c stored (inr to) at_from at_to at i =
    let same : d ≡ c = ground (arith, ap (λ v. find v comp_of) to) in ground arith

end_piece :
    (comp_of : List (ℕ × ℕ)) (e : LogicalEdge) (n d : ℕ)
    → IsEndOf e n
    → find e.from_node comp_of ≡ some d
    → find e.to_node comp_of ≡ some d
    → find n comp_of ≡ some d
end_piece comp_of e n d (inl from) at_from at_to = rw from at at_from
end_piece comp_of e n d (inr to) at_from at_to = rw to at at_to

some-inj : {a b : Kept} → some a ≡ some b → a ≡ b
some-inj e = cc

module _ (g : RoadGraph) (selected protected : List ℕ) where
  -- With the pieces at hand.
  drops_alike :
      (limit : ℕ) (components : List (List ℕ)) (comp_of : List (ℕ × ℕ)) (x y : ℕ) (k : Kept)
      → ((n c : ℕ) → find n comp_of ≡ some c → c < length components)
      → ((c : ℕ)
          → (has_number x selected && belongs g comp_of c x)
            ≡ (has_number y selected && belongs g comp_of c y))
      → (k' : Kept) × (drop_pieces g selected protected limit components
            (group_edges g comp_of selected [])
            k
          ≡ some k')
        × IsDropped protected x y k k'
  drops_alike limit components comp_of x y k numbered alike =
      let groups = group_edges g comp_of selected [] in
      let grouped = group_edges-IsGrouped g comp_of selected in
      drop_pieces-IsDropped g selected protected limit x y components groups k (
        All-of_find (IsWhole g selected protected limit x y components) groups grouped.distinct
          (λ c p found.
            let (n, at) = grouped.known c p found in
            (numbered n c at, ground (arith, grouped.whole c x, grouped.whole c y, alike c))))

-- `prune_fragments` ends without a `KeyError` or an `IndexError`. It keeps a part of the selection,
-- with all protected edges in it, and drops pieces as a whole: of two selected edges that share a
-- node it keeps both or neither.
pub prune_fragments-IsPruned :
    (g : RoadGraph) (selected : List ℕ) (zoom : ℕ) (protected : List ℕ)
    → (k : Kept) × (prune_fragments g selected zoom protected ≡ some k)
      × IsPruned g selected protected k
unfolding prune_fragments
prune_fragments-IsPruned g selected zoom protected = elim (Option-cases (find zoom min_component)) [
  | inl no_limit ↦ (
    record { kept = selected; dropped = 0; dropped_m = 0 },
    rw (prune_fragments, no_limit) refl,
    everything_kept g selected protected,
  )
  | inr (limit, limited) ↦ elim (Bool-cases (is_empty selected)) [
    | inl none_selected ↦ (
      record { kept = selected; dropped = 0; dropped_m = 0 },
      rw (prune_fragments, limited, none_selected) refl,
      everything_kept g selected protected,
    )
    | inr some_selected ↦
        let (components, comp_of, runs, numbered, parted) = pieces_of_selected g selected in
        let all : Kept = record { kept = selected; dropped = 0; dropped_m = 0 } in
        let (k, ends, r) =
          drops_alike g selected protected limit components comp_of 0 0 all numbered (λ c. refl) in
        (
          k,
          rw (prune_fragments, limited, some_selected, runs) ends,
          record {
            subset = r.subset;
            spares = λ e m p. r.spares e p ∙ m;
            whole = λ x y mx my meet.
                let (k2, ends2, r2) =
                  drops_alike g selected protected limit components comp_of x y all numbered (λ c.
                    let (d, from, to) = parted x meet.first mx meet.stored_first in
                    let (d', from', to') = parted y meet.second my meet.stored_second in
                    let at = end_piece comp_of meet.first meet.node d meet.end_first from to in
                    let one =
                      meet_belongs g comp_of x meet.first meet.node d d meet.stored_first
                        meet.end_first from to at c in
                    let two =
                      meet_belongs g comp_of y meet.second meet.node d' d meet.stored_second
                        meet.end_second from' to' at c in
                    ground arith) in
                let same : k2 ≡ k = some-inj (sym ends2 ∙ ends) in
                rw same at (r2.alike (mx ∙ sym my));
          },
        )
  ]
]
