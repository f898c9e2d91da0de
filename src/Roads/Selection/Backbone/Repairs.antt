-- ===== src/Roads/Selection/Backbone/Repairs.antt =====
-- The repair adds edges of the class floor only.
use fwh_osm.Prelude.{
  ℕ, zero, suc, ◌+◌, ◌*◌, ◌≤◌, ◌≡◌, refl, ap, ◌∙◌, keep, true, false, not, ◌||◌, none, some, List,
  [], ◌∷◌, ◌++◌, arith, if◌then◌else◌, ltb, ◌==◌, length, length-append, All, All-append, All-keep,
  List-cases, Option-cases, Bool-cases, inl, inr,
}
use fwh_osm.Prelude.Table.{find, append_at, listed, listed-append_at, has_number}
use fwh_osm.Prelude.Sets.{union}
use fwh_osm.Roads.Graph.{LogicalEdge, RoadGraph}
use fwh_osm.Roads.Graph.Built.{IsSound}
use fwh_osm.Roads.Search.Best.{Walk, shortest_path-IsBest}
use fwh_osm.Roads.Selection.Backbone.{
  neighbors_over, Bfs, enqueue, bfs, join_anchor, repair_from, backbone_repair,
}

-- A stored edge of at least the score of the floor.
abbrev pub IsAdmitted : RoadGraph → ℕ → ℕ → Type 0
IsAdmitted g fc_floor eid =
    (e : LogicalEdge) × (find eid g.edge_by_id ≡ some e) × (fc_floor ≤ e.fc_score)

All-Walk :
    (g : RoadGraph) (m : ℕ) (es : List ℕ) (v w total : ℕ)
    → Walk g m es v w total
    → All (IsAdmitted g m) es
All-Walk g m [] v w total walk = tt
All-Walk g m (eid ∷ es) v w total (x, len, rest, step, e, walk) =
    ((step.edge, step.stored, step.admitted), All-Walk g m es x w rest walk)

-- The ends of the selected edges, where every neighbour is one of them.
abbrev ends : RoadGraph → List ℕ → List ℕ
ends g [] = []
ends g (eid ∷ eids) =
    let rest = ends g eids in
    elim (find eid g.edge_by_id) [ none ↦ rest | some e ↦ e.from_node ∷ e.to_node ∷ rest ]

length-ends : (g : RoadGraph) (eids : List ℕ) → length (ends g eids) ≤ 2 * length eids
length-ends g [] = omega arith
length-ends g (eid ∷ eids) = ground (arith, length-ends g eids)

abbrev Neighbors : List ℕ → List (ℕ × List (ℕ × ℕ)) → Type 0
Neighbors ns t = (v : ℕ) → All (λ (p : ℕ × ℕ). has_number p.0 ns ≡ true) (listed v t)

Neighbors-append_at :
    (ns : List ℕ) (k n eid : ℕ) (t : List (ℕ × List (ℕ × ℕ)))
    → has_number n ns ≡ true
    → Neighbors ns t
    → Neighbors ns (append_at k (n, eid) t)
Neighbors-append_at ns k n eid t m h v = elim (Bool-cases (k == v)) [
  | inl same ↦
      rw (listed-append_at k v (n, eid) t, same)
        (All-append (λ (p : ℕ × ℕ). has_number p.0 ns ≡ true) (listed v t) ((n, eid) ∷ []) (h v)
          (m, tt))
  | inr other ↦ rw (listed-append_at k v (n, eid) t, other) (h v)
]

Neighbors-over :
    (g : RoadGraph) (ns eids : List ℕ) (t : List (ℕ × List (ℕ × ℕ)))
    → ((n : ℕ) → has_number n (ends g eids) ≡ true → has_number n ns ≡ true)
    → Neighbors ns t
    → Neighbors ns (neighbors_over g eids t)
unfolding neighbors_over has_number
Neighbors-over g ns [] t sub h = h
Neighbors-over g ns (eid ∷ eids) t sub h = elim (Option-cases (find eid g.edge_by_id)) [
  | inl missing ↦
      rw (neighbors_over, missing) (Neighbors-over g ns eids t (λ n m. sub n (ground arith)) h)
  | inr (e, stored) ↦
      let from : has_number e.from_node ns ≡ true = sub e.from_node (ground arith) in
      let to : has_number e.to_node ns ≡ true = sub e.to_node (ground arith) in
      rw (neighbors_over, stored)
        (Neighbors-over g ns eids
          (append_at e.to_node (e.from_node, eid) (append_at e.from_node (e.to_node, eid) t))
          (λ n m. sub n (ground arith))
          (Neighbors-append_at ns e.to_node e.from_node eid
            (append_at e.from_node (e.to_node, eid) t) from
            (Neighbors-append_at ns e.from_node e.to_node eid t to h)))
]

-- How many of the nodes are not visited.
abbrev unseen : List ℕ → List ℕ → ℕ
unseen visited [] = 0
unseen visited (n ∷ ns) = (if has_number n visited then 0 else 1) + unseen visited ns

unseen_le : (n : ℕ) (visited ns : List ℕ) → unseen (n ∷ visited) ns ≤ unseen visited ns
unfolding has_number
unseen_le n visited [] = omega arith
unseen_le n visited (k ∷ ns) = ground (arith, unseen_le n visited ns)

unseen_less :
    (n : ℕ) (visited ns : List ℕ)
    → has_number n visited ≡ false
    → has_number n ns ≡ true
    → suc (unseen (n ∷ visited) ns) ≤ unseen visited ns
unfolding has_number
unseen_less n visited [] new m = absurd (ground arith)
unseen_less n visited (k ∷ ns) new m =
    ground (arith, unseen_less n visited ns new, unseen_le n visited ns)

unseen_all : (visited ns : List ℕ) → unseen visited ns ≤ length ns
unseen_all visited [] = omega arith
unseen_all visited (n ∷ ns) = ground (arith, unseen_all visited ns)

enqueue-work :
    (ns anchors : List ℕ) (ps : List (ℕ × ℕ)) (s : Bfs)
    → All (λ (p : ℕ × ℕ). has_number p.0 ns ≡ true) ps
    → length (enqueue anchors ps s).queue + unseen (enqueue anchors ps s).visited ns
      ≤ length s.queue + unseen s.visited ns
unfolding enqueue
enqueue-work ns anchors [] s h = omega arith
enqueue-work ns anchors ((n, eid) ∷ ps) s (m, h) = elim (Bool-cases (has_number n s.visited)) [
  | inl seen ↦ rw (enqueue, seen) (enqueue-work ns anchors ps s h)
  | inr new ↦
      let s1 : Bfs = record {
        visited = n ∷ s.visited;
        queue = s.queue ++ n ∷ [];
        reachable_anchors =
            if has_number n anchors then s.reachable_anchors + 1 else s.reachable_anchors;
      } in
      rw (enqueue, new)
        (omega (
          arith,
          enqueue-work ns anchors ps s1 h,
          unseen_less n s.visited ns new m,
          length-append s.queue (n ∷ []),
        ))
]

bfs-next :
    (fuel : ℕ) (anchors : List ℕ) (t : List (ℕ × List (ℕ × ℕ))) (s : Bfs) (node : ℕ)
    (queue : List ℕ)
    → s.queue ≡ node ∷ queue
    → ltb s.reachable_anchors 2 ≡ true
    → bfs (suc fuel) t anchors s
      ≡ bfs fuel t anchors (enqueue anchors (listed node t) (record s { queue = queue }))
unfolding bfs
bfs-next fuel anchors t s node queue e on = simp (bfs, e, on)

none_listed : (ns : List ℕ) → Neighbors ns []
unfolding listed
none_listed ns v = tt

bfs_ends :
    (fuel : ℕ) (ns anchors : List ℕ) (t : List (ℕ × List (ℕ × ℕ))) (s : Bfs)
    → Neighbors ns t
    → length s.queue + unseen s.visited ns ≤ fuel
    → (r : Bfs) × (bfs fuel t anchors s ≡ some r)
unfolding bfs
bfs_ends zero ns anchors t s h work = elim (List-cases s.queue) [
  | inl empty ↦ (s, simp (bfs, empty))
  | inr (node, queue, e) ↦ absurd (omega (arith, ap length e))
]
bfs_ends (suc fuel) ns anchors t s h work = elim (List-cases s.queue) [
  | inl empty ↦ (s, simp (bfs, empty))
  | inr (node, queue, e) ↦ elim (Bool-cases (ltb s.reachable_anchors 2)) [
    | inr found ↦ (s, simp (bfs, e, found))
    | inl search_on ↦
        let s0 : Bfs = record s { queue = queue } in
        let s1 = enqueue anchors (listed node t) s0 in
        let (r, runs) =
          bfs_ends fuel ns anchors t s1 h
            (omega (arith, enqueue-work ns anchors (listed node t) s0 (h node), ap length e)) in
        (r, bfs-next fuel anchors t s node queue e search_on ∙ runs)
  ]
]

module _ (g : RoadGraph) (fc_floor : ℕ) where
  join_anchor-IsAdmitted :
      (anchor : ℕ) (visited others : List ℕ)
      → IsSound g
      → (path : List ℕ) × (join_anchor g fc_floor anchor visited others ≡ some path)
        × All (IsAdmitted g fc_floor) path
  unfolding join_anchor
  join_anchor-IsAdmitted anchor visited [] sound = ([], refl, tt)
  join_anchor-IsAdmitted anchor visited (other ∷ others) sound =
      let (path, runs, h) = join_anchor-IsAdmitted anchor visited others sound in
      elim (Bool-cases (other == anchor || has_number other visited)) [
        | inl skip ↦ (path, rw (join_anchor, skip) runs, h)
        | inr apart ↦
            elim (shortest_path-IsBest g anchor other fc_floor sound (λ e. ground arith)) [
              | inl (nothing, _) ↦ (path, rw (join_anchor, apart, nothing) runs, h)
              | inr ([], found, best) ↦ (path, rw (join_anchor, apart, found) runs, h)
              | inr (eid ∷ es, found, best) ↦ (
                eid ∷ es,
                rw (join_anchor, apart, found) refl,
                All-Walk g fc_floor (eid ∷ es) anchor other best.total best.walk,
              )
            ]
      ]

  join_if :
      (anchor : ℕ) (anchors : List ℕ) (s : Bfs)
      → IsSound g
      → (path : List ℕ) × ((if ltb s.reachable_anchors 2
            then join_anchor g fc_floor anchor s.visited anchors
            else some [])
          ≡ some path)
        × All (IsAdmitted g fc_floor) path
  join_if anchor anchors s sound =
      let (path, runs, h) = join_anchor-IsAdmitted anchor s.visited anchors sound in
      elim (Bool-cases (ltb s.reachable_anchors 2)) [
        | inl few ↦ (path, rw few runs, h)
        | inr enough ↦ ([], rw enough refl, tt)
      ]

  repair_from-IsAdmitted :
      (fuel : ℕ) (ns anchors sampled added : List ℕ) (t : List (ℕ × List (ℕ × ℕ)))
      → IsSound g
      → Neighbors ns t
      → suc (length ns) ≤ fuel
      → All (IsAdmitted g fc_floor) added
      → (added' : List ℕ) × (repair_from fuel g t fc_floor anchors sampled added ≡ some added')
        × All (IsAdmitted g fc_floor) added'
  unfolding repair_from union
  repair_from-IsAdmitted fuel ns anchors [] added t sound h enough k = (added, refl, k)
  repair_from-IsAdmitted fuel ns anchors (anchor ∷ sampled) added t sound h enough k =
      let s0 : Bfs = record { visited = anchor ∷ []; queue = anchor ∷ []; reachable_anchors = 0 } in
      let (s, walks) =
        bfs_ends fuel ns anchors t s0 h (omega (arith, unseen_all (anchor ∷ []) ns)) in
      let (path, joins, admitted) = join_if anchor anchors s sound in
      let (added', runs, h') =
        repair_from-IsAdmitted fuel ns anchors sampled (union added path) t sound h enough (
          All-append (IsAdmitted g fc_floor) added (keep (λ n. not (has_number n added)) path) k
            (All-keep (IsAdmitted g fc_floor) (λ n. not (has_number n added)) path admitted)) in
      (added', rw (repair_from, walks, joins) runs, h')

-- In a sound graph the repair ends without an error, and every edge that it adds is an edge of the
-- graph with at least the score of the class floor.
pub backbone_repair-IsAdmitted :
    (g : RoadGraph) (selected anchors sampled : List ℕ) (fc_floor : ℕ)
    → IsSound g
    → (added : List ℕ) × (backbone_repair g selected anchors sampled fc_floor ≡ some added)
      × All (IsAdmitted g fc_floor) added
unfolding backbone_repair
backbone_repair-IsAdmitted g selected anchors sampled fc_floor sound =
    elim (Bool-cases (ltb (length anchors) 2)) [
      | inl few ↦ ([], rw (backbone_repair, few) refl, tt)
      | inr enough ↦
          let t = neighbors_over g selected [] in
          let ns = ends g selected in
          let (added, runs, h) =
            repair_from-IsAdmitted g fc_floor (suc (2 * length selected)) ns anchors sampled [] t
              sound (Neighbors-over g ns selected [] (λ n m. m) (none_listed ns))
              (omega (arith, length-ends g selected)) tt in
          (added, rw (backbone_repair, enough) runs, h)
    ]
