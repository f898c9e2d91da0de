-- ===== src/Roads/Selection/Bridge/Gaps.antt =====
-- What bridges a gap is a stored edge of the floor's class, of a higher one, or of the next below.
use fwh_osm.Prelude.{
  ℕ, suc, ◌+◌, ◌<◌, ◌≡◌, refl, true, not, some, List, [], ◌∷◌, arith, String, ◌==◌, leb, length,
  is_empty, keep, has_name, All, All-append, All-keep, Bool-cases, inl, inr,
}
use fwh_osm.Prelude.Table.{find, put, append_at, has_number}
use fwh_osm.Prelude.Sets.{union}
use fwh_osm.Prelude.Text.{Text}
use fwh_osm.Roads.Graph.{LogicalEdge, RoadGraph}
use fwh_osm.Roads.Selection.Corridors.{Forest, values}
use fwh_osm.Roads.Selection.Corridors.Forest.{IsForest, empty-IsForest, uf_find-IsRootOf, relink}
use fwh_osm.Roads.Selection.Corridors.Partition.{IsStored}
use fwh_osm.Roads.Selection.Bridge.{
  fc_order, allowed_classes, stored_edges, candidates_of, nodes_of, link_ends, runs_from, touching,
  ids, add_runs, bridge_one, bridge_all, bridge_route_gaps,
}

-- A stored edge of an allowed class.
abbrev pub IsOfClass : RoadGraph → List String → ℕ → Type 0
IsOfClass g allowed eid =
    (e : LogicalEdge) × (find eid g.edge_by_id ≡ some e) × (has_name e.fc allowed ≡ true)

module _ (g : RoadGraph) (allowed : List String) where
  abbrev OfClass : ℕ × LogicalEdge → Type 0
  OfClass p = (find p.0 g.edge_by_id ≡ some p.1) × (has_name p.1.fc allowed ≡ true)

  candidates_of-class :
      (selected eids : List ℕ)
      → All (IsStored g) eids
      → (cand : List (ℕ × LogicalEdge)) × (candidates_of g selected allowed eids ≡ some cand)
        × All OfClass cand
  unfolding candidates_of
  candidates_of-class selected [] h = ([], refl, tt)
  candidates_of-class selected (eid ∷ eids) ((e, at), h) =
      let (cand, runs, k) = candidates_of-class selected eids h in
      elim (Bool-cases (has_number eid selected)) [
        | inl chosen ↦ (cand, rw (candidates_of, chosen) runs, k)
        | inr left_out ↦ elim (Bool-cases (has_name e.fc allowed)) [
          | inl fits ↦
              ((eid, e) ∷ cand, rw (candidates_of, left_out, at, runs, fits) refl, ((at, fits), k))
          | inr below ↦ (cand, rw (candidates_of, left_out, at, runs, below) refl, k)
        ]
      ]

  stored_edges-some :
      (eids : List ℕ)
      → All (IsStored g) eids
      → (es : List (ℕ × LogicalEdge)) × (stored_edges g eids ≡ some es)
  unfolding stored_edges
  stored_edges-some [] h = ([], refl)
  stored_edges-some (eid ∷ eids) ((e, at), h) =
      let (es, runs) = stored_edges-some eids h in ((eid, e) ∷ es, rw (stored_edges, at, runs) refl)

  link_ends-some :
      (height : ℕ → ℕ) (bound fuel : ℕ) (es : List (ℕ × LogicalEdge)) (parent : Forest)
      → IsForest height bound parent
      → bound + length es < fuel
      → (parent' : Forest) × (height' : ℕ → ℕ) × (link_ends fuel es parent ≡ some parent')
        × IsForest height' (bound + length es) parent'
  unfolding link_ends
  link_ends-some height bound fuel [] parent h enough = (
    parent,
    height,
    refl,
    record { lowers = h.lowers; closed = h.closed; bounded = λ a. omega (arith, h.bounded a) },
  )
  link_ends-some height bound fuel ((eid, e) ∷ es) parent h enough =
      let (rb, p1, one, b, _) =
        uf_find-IsRootOf height bound fuel e.to_node parent h (omega arith) in
      let (ra, p2, two, a, _) =
        uf_find-IsRootOf height bound fuel e.from_node p1 b.forest (omega arith) in
      let (height1, h1) = relink height bound ra rb p2 a.forest (a.roots rb b.is_root) in
      let (p', height', goes, h') =
        link_ends-some height1 (suc bound) fuel es (put ra rb p2) h1 (omega arith) in
      (
        p',
        height',
        rw (link_ends, one, two) goes,
        record {
          lowers = h'.lowers;
          closed = h'.closed;
          bounded = λ n. omega (arith, h'.bounded n);
        },
      )

  append_at-class :
      (root : ℕ) (p : ℕ × LogicalEdge) (runs : List (ℕ × List (ℕ × LogicalEdge)))
      → OfClass p
      → All (All OfClass) (values runs)
      → All (All OfClass) (values (append_at root p runs))
  unfolding append_at
  append_at-class root p [] k h = ((k, tt), tt)
  append_at-class root p ((r, es) ∷ runs) k (h, hs) = elim (Bool-cases (r == root)) [
    | inl same ↦ rw (append_at, same) (All-append OfClass es (p ∷ []) h (k, tt), hs)
    | inr other ↦ rw (append_at, other) (h, append_at-class root p runs k hs)
  ]

  runs_from-class :
      (height : ℕ → ℕ) (bound fuel : ℕ) (es : List (ℕ × LogicalEdge)) (parent : Forest)
      (runs : List (ℕ × List (ℕ × LogicalEdge)))
      → IsForest height bound parent
      → bound < fuel
      → All OfClass es
      → All (All OfClass) (values runs)
      → (runs' : List (ℕ × List (ℕ × LogicalEdge))) × (runs_from fuel es parent runs ≡ some runs')
        × All (All OfClass) (values runs')
  unfolding runs_from
  runs_from-class height bound fuel [] parent runs h enough k ks = (runs, refl, ks)
  runs_from-class height bound fuel ((eid, e) ∷ es) parent runs h enough (k, ke) ks =
      let (root, p1, one, r, _) = uf_find-IsRootOf height bound fuel e.from_node parent h enough in
      let (runs', goes, k') =
        runs_from-class height bound fuel es p1 (append_at root (eid, e) runs) r.forest enough ke
          (append_at-class root (eid, e) runs k ks) in
      (runs', rw (runs_from, one) goes, k')

  ids-class : (es : List (ℕ × LogicalEdge)) → All OfClass es → All (IsOfClass g allowed) (ids es)
  ids-class [] h = tt
  ids-class ((eid, e) ∷ es) ((at, fits), h) = ((e, at, fits), ids-class es h)

  add_runs-class :
      (sel_nodes : List ℕ) (runs : List (List (ℕ × LogicalEdge))) (added : List ℕ)
      → All (All OfClass) runs
      → All (IsOfClass g allowed) added
      → All (IsOfClass g allowed) (add_runs sel_nodes runs added)
  unfolding add_runs union
  add_runs-class sel_nodes [] added h k = k
  add_runs-class sel_nodes (run ∷ runs) added (h, hs) k =
      elim (Bool-cases (leb 2 (length (touching sel_nodes (nodes_of run))))) [
        | inl gap ↦
            rw (add_runs, gap)
              (add_runs-class sel_nodes runs (union added (ids run)) hs (
                All-append (IsOfClass g allowed) added
                  (keep (λ n. not (has_number n added)) (ids run)) k
                  (All-keep (IsOfClass g allowed) (λ n. not (has_number n added)) (ids run)
                    (ids-class run h))))
        | inr spur ↦ rw (add_runs, spur) (add_runs-class sel_nodes runs added hs k)
      ]

  bridge_one-class :
      (selected eids added : List ℕ)
      → All (IsStored g) eids
      → All (IsOfClass g allowed) added
      → (added' : List ℕ) × (bridge_one g selected allowed eids added ≡ some added')
        × All (IsOfClass g allowed) added'
  unfolding bridge_one
  bridge_one-class selected eids added stored k =
      let chosen = keep (λ e. has_number e selected) eids in
      let (cand, cuts, fits) = candidates_of-class selected eids stored in
      let (es, reads) =
        stored_edges-some chosen (All-keep (IsStored g) (λ e. has_number e selected) eids stored) in
      let fuel = suc (length cand) in
      let (parent, height, links, h) =
        link_ends-some (λ n. 0) 0 fuel cand [] empty-IsForest (omega arith) in
      let (runs, groups, ofs) =
        runs_from-class height (0 + length cand) fuel cand parent [] h (omega arith) fits tt in
      elim (Bool-cases (is_empty chosen)) [
        | inl absent ↦ (added, rw (bridge_one, absent) refl, k)
        | inr present ↦ elim (Bool-cases (is_empty cand)) [
          | inl whole ↦ (added, rw (bridge_one, present, cuts, whole) refl, k)
          | inr broken ↦ (
            add_runs (nodes_of es) (values runs) added,
            rw (bridge_one, present, cuts, broken, reads, links, groups) refl,
            add_runs-class (nodes_of es) (values runs) added ofs k,
          )
        ]
      ]

  bridge_all-class :
      (selected : List ℕ) (by_ref : List (Text × List ℕ)) (added : List ℕ)
      → All (λ (p : Text × List ℕ). All (IsStored g) p.1) by_ref
      → All (IsOfClass g allowed) added
      → (added' : List ℕ) × (bridge_all g selected allowed by_ref added ≡ some added')
        × All (IsOfClass g allowed) added'
  unfolding bridge_all
  bridge_all-class selected [] added h k = (added, refl, k)
  bridge_all-class selected ((token, eids) ∷ by_ref) added (stored, h) k =
      let (added1, one, k1) = bridge_one-class selected eids added stored k in
      let (added2, others, k2) = bridge_all-class selected by_ref added1 h k1 in
      (added2, rw (bridge_all, one) others, k2)

-- `bridge_route_gaps` ends without a `KeyError` when the edges of the route numbers are stored, and
-- what it adds are stored edges of a class that the floor allows.
pub bridge_route_gaps-IsOfClass :
    (g : RoadGraph) (selected : List ℕ) (floor_fc : String) (by_ref : List (Text × List ℕ))
    → All (λ (p : Text × List ℕ). All (IsStored g) p.1) by_ref
    → (added : List ℕ) × (bridge_route_gaps g selected floor_fc by_ref ≡ some added)
      × All (IsOfClass g (allowed_classes floor_fc fc_order)) added
unfolding bridge_route_gaps
bridge_route_gaps-IsOfClass g selected floor_fc by_ref h =
    let (added, runs, k) =
      bridge_all-class g (allowed_classes floor_fc fc_order) selected by_ref [] h tt in
    (added, runs, k)
