-- ===== src/Roads/Search.antt =====
-- `RoadGraph.shortest_path` of handlers/roads/zoom_graph.py. The heap of `heapq` is seen through
-- `heappush` and `heappop` only, which gives the smallest pair, so it is a list in the order of
-- pairs. The outer loop runs on fuel: one round for each push that the adjacency lists allow.
pub mod Heap
pub mod Relax
pub mod Rounds
pub mod Ends
pub mod Best
use fwh_osm.Prelude.{
  ℕ, zero, suc, ◌+◌, Bool, true, false, ◌&&◌, ◌||◌, Option, none, some, List, [], ◌∷◌, ◌++◌,
  if◌then◌else◌, ltb, ◌==◌, length, reversed,
}
use fwh_osm.Prelude.Table.{find, put, listed}
use fwh_osm.Roads.Graph.{LogicalEdge, RoadGraph, other_end}

-- `(distance, node)`
abbrev pub Entry : Type 0
Entry = ℕ × ℕ

-- `x < y` on tuples
abbrev pub entry_less : Entry → Entry → Bool
entry_less (d, u) (d', u') = ltb d d' || (d == d' && ltb u u')

unfoldable pub heappush : Entry → List Entry → List Entry
heappush x [] = x ∷ []
heappush x (y ∷ ys) = let rest = heappush x ys in if entry_less y x then y ∷ rest else x ∷ y ∷ ys

-- `nd < dist.get(v, inf)`
abbrev pub less_than_known : ℕ → Option ℕ → Bool
less_than_known nd none = true
less_than_known nd (some d) = ltb nd d

-- `d > dist.get(u, inf)`
abbrev pub more_than_known : ℕ → Option ℕ → Bool
more_than_known d none = false
more_than_known d (some known) = ltb known d

pub record Search : Type 0 where
  pub dist : List (ℕ × ℕ)
  pub prev : List (ℕ × (ℕ × ℕ))
  pub heap : List Entry

-- What the inner loop does with one edge.
unfoldable pub relax_edge : ℕ → ℕ → ℕ → ℕ → LogicalEdge → Search → Search
unfolding other_end find put heappush
relax_edge min_fc_score d u eid e s =
    let v = other_end e u in
    let nd = d + e.length_m in
    if ltb e.fc_score min_fc_score
    then s
    else if less_than_known nd (find v s.dist)
    then record {
      dist = put v nd s.dist;
      prev = put v (u, eid) s.prev;
      heap = heappush (nd, v) s.heap;
    }
    else s

-- `for eid in self.adj.get(u, [])`; `none` is a `KeyError`.
unfoldable pub relax : List (ℕ × LogicalEdge) → ℕ → ℕ → ℕ → List ℕ → Search → Option Search
unfolding relax_edge
relax edge_by_id min_fc_score d u [] s = some s
relax edge_by_id min_fc_score d u (eid ∷ eids) s = elim (find eid edge_by_id) [
  | none ↦ none
  | some e ↦ relax edge_by_id min_fc_score d u eids (relax_edge min_fc_score d u eid e s)
]

-- One round of the loop, for an entry that is not the goal's.
unfoldable pub visit : RoadGraph → ℕ → ℕ → ℕ → Search → Option Search
unfolding relax find listed
visit g min_fc_score d u s =
    if more_than_known d (find u s.dist)
    then some s
    else relax g.edge_by_id min_fc_score d u (listed u g.adj) s

-- The `while heap` loop; `none` is a `KeyError`, or fuel that is used up.
unfoldable pub search : ℕ → RoadGraph → ℕ → ℕ → Search → Option Search
unfolding visit
search zero g b min_fc_score s = elim s.heap [
  | [] ↦ some s
  | (d, u) ∷ heap ↦ if u == b then some (record s { heap = heap }) else none
]
search (suc fuel) g b min_fc_score s = elim s.heap [
  | [] ↦ some s
  | (d, u) ∷ heap ↦
      if u == b
      then some (record s { heap = heap })
      else elim (visit g min_fc_score d u (record s { heap = heap })) [
        | none ↦ none
        | some s' ↦ search fuel g b min_fc_score s'
      ]
]

-- `while cur != a`: the edges from the goal back; `none` is a `KeyError`, or fuel that is used up.
unfoldable pub walk_back : ℕ → List (ℕ × (ℕ × ℕ)) → ℕ → ℕ → Option (List ℕ)
unfolding find
walk_back zero prev a cur = if cur == a then some [] else none
walk_back (suc fuel) prev a cur = if cur == a then some [] else elim (find cur prev) [
  | none ↦ none
  | some (p, eid) ↦ elim (walk_back fuel prev a p) [ none ↦ none | some path ↦ some (eid ∷ path) ]
]

-- The lengths of the adjacency lists, added up.
unfoldable pub listed_total : List (ℕ × List ℕ) → ℕ
listed_total [] = 0
listed_total ((_, eids) ∷ t) = length eids + listed_total t

-- The rounds that are enough.
abbrev pub rounds : RoadGraph → ℕ
rounds g = suc (listed_total g.adj)

-- The part behind the loop.
unfoldable pub path_to : ℕ → ℕ → ℕ → Search → Option (List ℕ)
unfolding find walk_back
path_to fuel a b s = elim (find b s.prev) [
  | none ↦ some []
  | some _ ↦ elim (walk_back fuel s.prev a b) [ none ↦ none | some path ↦ some (reversed path) ]
]

-- The loop, from a distance of zero at `a`.
unfoldable pub search_from : RoadGraph → ℕ → ℕ → ℕ → Option Search
unfolding search listed_total
search_from g a b min_fc_score =
    search (rounds g) g b min_fc_score
      (record { dist = (a, 0) ∷ []; prev = []; heap = (0, a) ∷ [] })

-- `shortest_path(a, b, min_fc_score)`
unfoldable pub shortest_path : RoadGraph → ℕ → ℕ → ℕ → Option (List ℕ)
unfolding path_to
shortest_path g a b min_fc_score =
    if a == b
    then some []
    else elim (search_from g a b min_fc_score) [ none ↦ none | some s ↦ path_to (rounds g) a b s ]
