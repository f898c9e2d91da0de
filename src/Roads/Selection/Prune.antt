-- ===== src/Roads/Selection/Prune.antt =====
-- `prune_fragments`, `prune_layers` and `prune_assignments` of handlers/roads/zoom_selection.py: short
-- pieces of a selection that connect to nothing are dropped, from the layer that has them and from
-- all below. Lengths are in metres. The walk over a piece runs on fuel: a round for each end of a
-- selected edge, and one more.
pub mod Adjacency
pub mod Walks
pub mod Pieces
pub mod Groups
pub mod Whole
pub mod Sorted
pub mod Dropped
pub mod Layers
pub mod Assignments
use fwh_osm.Prelude.{
  ℕ, zero, suc, ◌+◌, ◌*◌, Bool, true, false, not, ◌&&◌, ◌||◌, Option, none, some, List, [], ◌∷◌,
  ◌++◌, if◌then◌else◌, ltb, leb, ◌==◌, str_eq, length, keep, get_elem?, is_some, is_empty, min, max,
}
use fwh_osm.Prelude.Table.{find, put, append_at, listed, has_number}
use fwh_osm.Prelude.Sets.{minus, union, intersect}
use fwh_osm.Roads.Graph.{LogicalEdge, RoadGraph, other_end}
use fwh_osm.Roads.Ways.{ferry_fc}

-- `MIN_COMPONENT_KM`
abbrev pub min_component : List (ℕ × ℕ)
min_component = (2, 500) ∷ (3, 500) ∷ (4, 500) ∷ (5, 1_000) ∷ (6, 1_500) ∷ (7, 2_500) ∷ []

-- The selected edges at each of their ends.
unfoldable pub sub_adjacency : RoadGraph → List ℕ → List (ℕ × List ℕ) → List (ℕ × List ℕ)
unfolding find append_at
sub_adjacency g [] t = t
sub_adjacency g (eid ∷ eids) t = sub_adjacency g eids (elim (find eid g.edge_by_id) [
  | none ↦ t
  | some e ↦ append_at e.to_node eid (append_at e.from_node eid t)
])

-- What one node adds to the stack: the other ends that belong to no piece yet.
unfoldable pub spread : RoadGraph → ℕ → ℕ → List ℕ → List ℕ → List (ℕ × ℕ) → List ℕ × List (ℕ × ℕ)
unfolding find put other_end
spread g cid node [] stack comp_of = (stack, comp_of)
spread g cid node (eid ∷ eids) stack comp_of = elim (find eid g.edge_by_id) [
  | none ↦ spread g cid node eids stack comp_of
  | some e ↦ elim (find (other_end e node) comp_of) [
    | some _ ↦ spread g cid node eids stack comp_of
    | none ↦ spread g cid node eids (other_end e node ∷ stack) (put (other_end e node) cid comp_of)
  ]
]

-- `while stack`; the top of the stack is the head of the list.
unfoldable pub explore :
    ℕ
    → RoadGraph
    → List (ℕ × List ℕ)
    → ℕ
    → List ℕ
    → List ℕ
    → List (ℕ × ℕ)
    → Option (List ℕ × List (ℕ × ℕ))
unfolding spread listed
explore fuel g sub_adj cid [] members comp_of = some (members, comp_of)
explore zero g sub_adj cid (node ∷ stack) members comp_of = none
explore (suc fuel) g sub_adj cid (node ∷ stack) members comp_of =
    let (stack', comp_of') = spread g cid node (listed node sub_adj) stack comp_of in
    explore fuel g sub_adj cid stack' (members ++ node ∷ []) comp_of'

-- `for start in sub_adj`
unfoldable pub pieces_from :
    ℕ
    → RoadGraph
    → List (ℕ × List ℕ)
    → List (ℕ × List ℕ)
    → List (ℕ × ℕ)
    → List (List ℕ)
    → Option (List (List ℕ) × List (ℕ × ℕ))
unfolding explore find put
pieces_from fuel g sub_adj [] comp_of components = some (components, comp_of)
pieces_from fuel g sub_adj ((start, _) ∷ t) comp_of components = elim (find start comp_of) [
  | some _ ↦ pieces_from fuel g sub_adj t comp_of components
  | none ↦
      let cid = length components in
      elim (explore fuel g sub_adj cid (start ∷ []) [] (put start cid comp_of)) [
        | none ↦ none
        | some (members, comp_of') ↦
            pieces_from fuel g sub_adj t comp_of' (components ++ members ∷ [])
      ]
]

-- `comp_edges` and `comp_km`
unfoldable pub group_edges :
    RoadGraph → List (ℕ × ℕ) → List ℕ → List (ℕ × (List ℕ × ℕ)) → List (ℕ × (List ℕ × ℕ))
unfolding find put
group_edges g comp_of [] groups = groups
group_edges g comp_of (eid ∷ eids) groups = elim (find eid g.edge_by_id) [
  | none ↦ group_edges g comp_of eids groups
  | some e ↦ elim (find e.from_node comp_of) [
    | none ↦ group_edges g comp_of eids groups
    | some cid ↦ group_edges g comp_of eids (elim (find cid groups) [
      | none ↦ put cid (eid ∷ [], e.length_m) groups
      | some (edges, len) ↦ put cid (union edges (eid ∷ []), len + e.length_m) groups
    ])
  ]
]

-- `any(e not in selected for e in graph.adj.get(node, ()))`
unfoldable pub leads_out : List ℕ → List ℕ → Bool
unfolding has_number
leads_out selected [] = false
leads_out selected (eid ∷ eids) = not (has_number eid selected) || leads_out selected eids

-- Some node of the piece continues into an edge that is not selected.
unfoldable pub is_cut : RoadGraph → List ℕ → List ℕ → Bool
unfolding leads_out listed
is_cut g selected [] = false
is_cut g selected (node ∷ nodes) = leads_out selected (listed node g.adj) || is_cut g selected nodes

-- What is kept, and how many edges of which length are dropped.
pub record Kept : Type 0 where
  pub kept : List ℕ
  pub dropped : ℕ
  pub dropped_m : ℕ

-- The last loop; `none` is the `IndexError` of a piece that is not there.
unfoldable pub drop_pieces :
    RoadGraph → List ℕ → List ℕ → ℕ → List (List ℕ) → List (ℕ × (List ℕ × ℕ)) → Kept → Option Kept
unfolding is_cut minus intersect
drop_pieces g selected protected limit components [] k = some k
drop_pieces g selected protected limit components ((cid, (edges, len)) ∷ groups) k =
    if leb limit len || not (is_empty (intersect edges protected))
    then drop_pieces g selected protected limit components groups k
    else elim (get_elem? components cid) [
      | none ↦ none
      | some nodes ↦ drop_pieces g selected protected limit components groups (
          if is_cut g selected nodes
          then record {
            kept = minus k.kept edges;
            dropped = k.dropped + length edges;
            dropped_m = k.dropped_m + len;
          }
          else k)
    ]

unfoldable pub prune_fragments : RoadGraph → List ℕ → ℕ → List ℕ → Option Kept
prune_fragments g selected zoom protected =
    let all : Kept = record { kept = selected; dropped = 0; dropped_m = 0 } in
    elim (find zoom min_component) [
      | none ↦ some all
      | some limit ↦
          if is_empty selected
          then some all
          else let sub_adj = sub_adjacency g selected [] in
            elim (pieces_from (suc (2 * length selected)) g sub_adj sub_adj [] []) [
              | none ↦ none
              | some (components, comp_of) ↦
                  drop_pieces g selected protected limit components
                    (group_edges g comp_of selected []) all
            ]
    ]

-- `sorted(zooms, reverse=True)`
unfoldable pub insert_down : ℕ → List ℕ → List ℕ
insert_down z [] = z ∷ []
insert_down z (w ∷ ws) = let rest = insert_down z ws in if leb w z then z ∷ w ∷ ws else w ∷ rest

unfoldable pub sort_down : List ℕ → List ℕ
unfolding insert_down
sort_down [] = []
sort_down (z ∷ zs) = insert_down z (sort_down zs)

-- `{e.edge_id for e in graph.edges if e.fc == FERRY_FC}`
unfoldable pub ferries : List LogicalEdge → List ℕ
ferries [] = []
ferries (e ∷ es) = let rest = ferries es in if str_eq e.fc ferry_fc then e.edge_id ∷ rest else rest

-- The loop from the top zoom down; `doomed` holds what a zoom above has dropped.
unfoldable pub prune_down :
    RoadGraph → List (ℕ × List ℕ) → List (ℕ × List ℕ) → List ℕ → List ℕ → Option (List (ℕ × List ℕ))
unfolding listed union intersect minus
prune_down g layers backbone_by_zoom [] doomed = some []
prune_down g layers backbone_by_zoom (z ∷ zs) doomed =
    let selected = listed z layers in
    let protected = union (listed z backbone_by_zoom) (intersect (ferries g.edges) selected) in
    elim (prune_fragments g selected z protected) [
      | none ↦ none
      | some k ↦
          let doomed' = union doomed (minus selected k.kept) in
          elim (prune_down g layers backbone_by_zoom zs doomed') [
            | none ↦ none
            | some pruned ↦ some ((z, minus selected doomed') ∷ pruned)
          ]
    ]

abbrev pub zooms_of : List (ℕ × List ℕ) → List ℕ
zooms_of [] = []
zooms_of ((z, _) ∷ layers) = z ∷ zooms_of layers

-- `set().union(*(layers[z] - pruned[z] for z in layers))`
unfoldable pub removed_from : List (ℕ × List ℕ) → List (ℕ × List ℕ) → List ℕ
unfolding union minus listed
removed_from [] pruned = []
removed_from ((z, selected) ∷ layers) pruned =
    union (minus selected (listed z pruned)) (removed_from layers pruned)

unfoldable pub total_m : RoadGraph → List ℕ → ℕ
unfolding find
total_m g [] = 0
total_m g (eid ∷ eids) =
    let rest = total_m g eids in
    elim (find eid g.edge_by_id) [ none ↦ rest | some e ↦ e.length_m + rest ]

pub record Layered : Type 0 where
  pub pruned : List (ℕ × List ℕ)
  pub removed : ℕ
  pub dropped_m : ℕ

unfoldable pub prune_layers : RoadGraph → List (ℕ × List ℕ) → List (ℕ × List ℕ) → Option Layered
prune_layers g layers backbone_by_zoom =
    elim (prune_down g layers backbone_by_zoom (sort_down (zooms_of layers)) []) [
      | none ↦ none
      | some pruned ↦
          let removed = removed_from layers pruned in
          some (record { pruned = pruned; removed = length removed; dropped_m = total_m g removed })
    ]
