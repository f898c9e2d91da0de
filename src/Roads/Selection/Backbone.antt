-- ===== src/Roads/Selection/Backbone.antt =====
-- `_backbone_repair` of handlers/roads/zoom_selection.py: anchors that reach fewer than two others over
-- the selection are joined to one by a shortest path. The sample of the anchors, which comes from a
-- random generator with a fixed seed, is an argument. The search runs on fuel: a round for each end
-- of a selected edge, and one more for the anchor; `none` is a `KeyError`, or fuel that is used up.
pub mod Repairs
use fwh_osm.Prelude.{
  ℕ, zero, suc, ◌+◌, ◌*◌, Bool, true, false, not, ◌&&◌, ◌||◌, Option, none, some, List, [], ◌∷◌,
  ◌++◌, if◌then◌else◌, ltb, ◌==◌, length,
}
use fwh_osm.Prelude.Table.{find, append_at, listed, has_number}
use fwh_osm.Prelude.Sets.{union}
use fwh_osm.Roads.Graph.{LogicalEdge, RoadGraph}
use fwh_osm.Roads.Search.{shortest_path}

-- `node → list of (neighbor, edge id)`
unfoldable pub neighbors_over :
    RoadGraph → List ℕ → List (ℕ × List (ℕ × ℕ)) → List (ℕ × List (ℕ × ℕ))
unfolding find append_at
neighbors_over g [] t = t
neighbors_over g (eid ∷ eids) t = neighbors_over g eids (elim (find eid g.edge_by_id) [
  | none ↦ t
  | some e ↦ append_at e.to_node (e.from_node, eid) (append_at e.from_node (e.to_node, eid) t)
])

pub record Bfs : Type 0 where
  pub visited : List ℕ
  pub queue : List ℕ
  pub reachable_anchors : ℕ

-- `for neighbor, _eid in sub_adj.get(node, [])`
unfoldable pub enqueue : List ℕ → List (ℕ × ℕ) → Bfs → Bfs
unfolding has_number
enqueue anchors [] s = s
enqueue anchors ((neighbor, _) ∷ ns) s = enqueue anchors ns (
    if has_number neighbor s.visited then s else record {
      visited = neighbor ∷ s.visited;
      queue = s.queue ++ neighbor ∷ [];
      reachable_anchors =
          if has_number neighbor anchors then s.reachable_anchors + 1 else s.reachable_anchors;
    })

-- `while queue and reachable_anchors < 2`
unfoldable pub bfs : ℕ → List (ℕ × List (ℕ × ℕ)) → List ℕ → Bfs → Option Bfs
unfolding enqueue listed
bfs zero sub_adj anchors s = elim s.queue [
  | [] ↦ some s
  | node ∷ queue ↦ if ltb s.reachable_anchors 2 then none else some s
]
bfs (suc fuel) sub_adj anchors s = elim s.queue [
  | [] ↦ some s
  | node ∷ queue ↦
      if ltb s.reachable_anchors 2
      then bfs fuel sub_adj anchors
          (enqueue anchors (listed node sub_adj) (record s { queue = queue }))
      else some s
]

-- The first of the other anchors that a path of enough score leads to.
unfoldable pub join_anchor : RoadGraph → ℕ → ℕ → List ℕ → List ℕ → Option (List ℕ)
unfolding has_number
join_anchor g fc_floor anchor visited [] = some []
join_anchor g fc_floor anchor visited (other ∷ others) =
    let rest = join_anchor g fc_floor anchor visited others in
    if other == anchor || has_number other visited
    then rest
    else elim (shortest_path g anchor other fc_floor) [
      | none ↦ none
      | some [] ↦ rest
      | some (eid ∷ path) ↦ some (eid ∷ path)
    ]

-- The loop over the sampled anchors.
unfoldable pub repair_from :
    ℕ → RoadGraph → List (ℕ × List (ℕ × ℕ)) → ℕ → List ℕ → List ℕ → List ℕ → Option (List ℕ)
unfolding bfs union
repair_from fuel g sub_adj fc_floor anchors [] added = some added
repair_from fuel g sub_adj fc_floor anchors (anchor ∷ sampled) added =
    elim (bfs fuel sub_adj anchors
      (record { visited = anchor ∷ []; queue = anchor ∷ []; reachable_anchors = 0 })) [
        | none ↦ none
        | some s ↦
            elim (if ltb s.reachable_anchors 2
              then join_anchor g fc_floor anchor s.visited anchors
              else some []) [
                | none ↦ none
                | some path ↦ repair_from fuel g sub_adj fc_floor anchors sampled (union added path)
              ]
      ]

unfoldable pub backbone_repair : RoadGraph → List ℕ → List ℕ → List ℕ → ℕ → Option (List ℕ)
unfolding neighbors_over
backbone_repair g selected anchors sampled fc_floor =
    if ltb (length anchors) 2
    then some []
    else repair_from (suc (2 * length selected)) g (neighbors_over g selected []) fc_floor anchors
        sampled []
