-- ===== src/Roads/Selection/Corridors/Partition.antt =====
-- Each eligible edge that is stored stands in one corridor.
use fwh_osm.Prelude.{
  ℕ, suc, ◌+◌, ◌<◌, ◌≡◌, refl, some, List, [], ◌∷◌, ◌++◌, arith, if◌then◌else◌, ◌==◌, length, keep,
  is_some, All, All-append, Option-cases, Bool-cases, inl, inr,
}
use fwh_osm.Prelude.Table.{find, append_at}
use fwh_osm.Prelude.Sets.{count, count-append}
use fwh_osm.Prelude.Text.{Text, same_text}
use fwh_osm.Roads.Graph.{LogicalEdge, RoadGraph}
use fwh_osm.Roads.Selection.Corridors.{
  corridor_key, append_key, Keyed, key_edges, Forest, group_runs, values, runs_of, all_runs,
  build_corridors,
}
use fwh_osm.Roads.Selection.Corridors.Forest.{
  IsForest, empty-IsForest, find_root-IsRootOf, unite_all-IsGrown,
}

-- How often an edge stands in a list of corridors.
abbrev pub total : ℕ → List (List ℕ) → ℕ
total id [] = 0
total id (c ∷ cs) = count id c + total id cs

total-append : (id : ℕ) (xs ys : List (List ℕ)) → total id (xs ++ ys) ≡ total id xs + total id ys
total-append id [] ys = omega arith
total-append id (x ∷ xs) ys = omega (arith, total-append id xs ys)

total-append_at :
    (id root eid : ℕ) (groups : List (ℕ × List ℕ))
    → total id (values (append_at root eid groups))
      ≡ (if eid == id then 1 else 0) + total id (values groups)
unfolding append_at
total-append_at id root eid [] = omega arith
total-append_at id root eid ((k, eids) ∷ groups) =
    ground (arith, total-append_at id root eid groups, count-append id eids (eid ∷ []))

-- The edge is stored.
abbrev pub IsStored : RoadGraph → ℕ → Type 0
IsStored g eid = (e : LogicalEdge) × (find eid g.edge_by_id ≡ some e)

module _ (g : RoadGraph) where
  abbrev HasRoot : Forest → ℕ → Type 0
  HasRoot parent eid =
      (e : LogicalEdge) × (find eid g.edge_by_id ≡ some e)
      × ((q : ℕ) × (find e.from_node parent ≡ some q))

  HasRoot-kept :
      (eids : List ℕ) (p1 p2 : Forest)
      → ((a p : ℕ) → find a p1 ≡ some p → (q : ℕ) × (find a p2 ≡ some q))
      → All (HasRoot p1) eids
      → All (HasRoot p2) eids
  HasRoot-kept [] p1 p2 f h = tt
  HasRoot-kept (eid ∷ eids) p1 p2 f ((e, at, (q, k)), h) =
      ((e, at, f e.from_node q k), HasRoot-kept eids p1 p2 f h)

  group_runs-total :
      (height : ℕ → ℕ) (bound fuel : ℕ) (eids : List ℕ) (parent : Forest)
      (groups : List (ℕ × List ℕ))
      → IsForest height bound parent
      → bound < fuel
      → All (HasRoot parent) eids
      → (groups' : List (ℕ × List ℕ)) × (group_runs fuel g eids parent groups ≡ some groups')
        × ((id : ℕ) → total id (values groups') ≡ count id eids + total id (values groups))
  unfolding group_runs
  group_runs-total height bound fuel [] parent groups h enough starts =
      (groups, refl, λ id. omega arith)
  group_runs-total height bound fuel (eid ∷ eids) parent groups h enough ((e, at, (q, k)), starts) =
      let (root, p1, runs, r) =
        find_root-IsRootOf height bound fuel e.from_node q parent h k
          (omega (arith, h.bounded e.from_node)) in
      let (groups', goes, same) =
        group_runs-total height bound fuel eids p1 (append_at root eid groups) r.forest enough
          (HasRoot-kept eids parent p1 r.keeps starts) in
      (
        groups',
        rw (group_runs, at, runs) goes,
        λ id. ground (arith, same id, total-append_at id root eid groups),
      )

  runs_of-total :
      (eids : List ℕ)
      → All (IsStored g) eids
      → (runs : List (List ℕ)) × (runs_of g eids ≡ some runs)
        × ((id : ℕ) → total id runs ≡ count id eids)
  unfolding runs_of
  runs_of-total eids stored =
      let fuel = suc (length eids) in
      let (parent, grows, r) =
        unite_all-IsGrown g (λ n. 0) 0 fuel eids [] stored empty-IsForest (omega arith) in
      let (groups, runs, same) =
        group_runs-total r.height (0 + length eids) fuel eids parent [] r.forest (omega arith)
          r.starts in
      (values groups, rw (runs_of, grows, runs) refl, λ id. omega (arith, same id))

  abbrev key_total : ℕ → List (Text × List ℕ) → ℕ
  key_total id [] = 0
  key_total id ((_, eids) ∷ t) = count id eids + key_total id t

  all_runs-total :
      (t : List (Text × List ℕ))
      → All (λ (p : Text × List ℕ). All (IsStored g) p.1) t
      → (runs : List (List ℕ)) × (all_runs g t ≡ some runs)
        × ((id : ℕ) → total id runs ≡ key_total id t)
  unfolding all_runs
  all_runs-total [] h = ([], refl, λ id. refl)
  all_runs-total ((key, eids) ∷ t) (stored, h) =
      let (runs, ends, same) = runs_of-total eids stored in
      let (rest, goes, others) = all_runs-total t h in
      (
        runs ++ rest,
        rw (all_runs, ends, goes) refl,
        λ id. omega (arith, total-append id runs rest, same id, others id),
      )

  key_total-append_key :
      (id eid : ℕ) (key : Text) (t : List (Text × List ℕ))
      → key_total id (append_key key eid t) ≡ (if eid == id then 1 else 0) + key_total id t
  unfolding append_key
  key_total-append_key id eid key [] = omega arith
  key_total-append_key id eid key ((k, eids) ∷ t) =
      ground (arith, key_total-append_key id eid key t, count-append id eids (eid ∷ []))

  pub append_key-IsStored :
      (eid : ℕ) (key : Text) (t : List (Text × List ℕ))
      → IsStored g eid
      → All (λ (p : Text × List ℕ). All (IsStored g) p.1) t
      → All (λ (p : Text × List ℕ). All (IsStored g) p.1) (append_key key eid t)
  unfolding append_key
  append_key-IsStored eid key [] s h = ((s, tt), tt)
  append_key-IsStored eid key ((k, eids) ∷ t) s (stored, h) = elim (Bool-cases (same_text k key)) [
    | inl same ↦ rw (append_key, same) (All-append (IsStored g) eids (eid ∷ []) stored (s, tt), h)
    | inr other ↦ rw (append_key, other) (stored, append_key-IsStored eid key t s h)
  ]

  -- What the keyed edges and the single ones hold.
  key_edges-total :
      (eids : List ℕ) (k : Keyed)
      → All (λ (p : Text × List ℕ). All (IsStored g) p.1) k.by_key
      → All (λ (p : Text × List ℕ). All (IsStored g) p.1) (key_edges g eids k).by_key
        × ((id : ℕ)
            → total id (key_edges g eids k).singles + key_total id (key_edges g eids k).by_key
              ≡ count id (keep (λ eid. is_some (find eid g.edge_by_id)) eids)
                + (total id k.singles + key_total id k.by_key))
  unfolding key_edges
  key_edges-total [] k h = (h, λ id. omega arith)
  key_edges-total (eid ∷ eids) k h = elim (Option-cases (find eid g.edge_by_id)) [
    | inl missing ↦
        let (h', same) = key_edges-total eids k h in rw (key_edges, missing) (h', λ id. same id)
    | inr (e, at) ↦ elim (Option-cases (corridor_key e)) [
      | inl alone ↦
          let k1 = record k { singles = k.singles ++ (eid ∷ []) ∷ [] } in
          let (h', same) = key_edges-total eids k1 h in
          rw (key_edges, at, alone)
            (h', λ id. ground (arith, same id, total-append id k.singles ((eid ∷ []) ∷ [])))
      | inr (key, named) ↦
          let k1 = record k { by_key = append_key key eid k.by_key } in
          let (h', same) =
            key_edges-total eids k1 (append_key-IsStored eid key k.by_key (e, at) h) in
          rw (key_edges, at, named)
            (h', λ id. ground (arith, same id, key_total-append_key id eid key k.by_key))
    ]
  ]

-- `build_corridors` ends without a `KeyError`, and its corridors hold every edge as often as the
-- eligible edges that are stored do: they are a partition of them.
pub build_corridors-total :
    (g : RoadGraph) (eligible : List ℕ)
    → (corridors : List (List ℕ)) × (build_corridors g eligible ≡ some corridors)
      × ((id : ℕ)
          → total id corridors ≡ count id (keep (λ eid. is_some (find eid g.edge_by_id)) eligible))
unfolding build_corridors
build_corridors-total g eligible =
    let k0 : Keyed = record { by_key = []; singles = [] } in
    let keyed = key_edges g eligible k0 in
    let (stored, same) = key_edges-total g eligible k0 tt in
    let (runs, ends, others) = all_runs-total g keyed.by_key stored in
    (
      keyed.singles ++ runs,
      rw (build_corridors, ends) refl,
      λ id. omega (arith, same id, others id, total-append id keyed.singles runs),
    )
