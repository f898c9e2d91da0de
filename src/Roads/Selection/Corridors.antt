-- ===== src/Roads/Selection/Corridors.antt =====
-- `build_corridors` of handlers/roads/zoom_selection.py: the eligible edges of one road, in connected
-- runs. The forest of parents is a dictionary; `find_root` runs on fuel, with more rounds than there
-- were unions, and `none` is a `KeyError`, or fuel that is used up.
pub mod Forest
pub mod Partition
use fwh_osm.Prelude.{
  ℕ, zero, suc, ◌+◌, Bool, true, false, not, ◌&&◌, ◌||◌, Option, none, some, List, [], ◌∷◌, ◌++◌,
  if◌then◌else◌, ◌==◌, length, is_empty, is_some, String,
}
use fwh_osm.Prelude.Table.{find, put, append_at}
use fwh_osm.Prelude.Text.{Text, codes, strip, same_text}
use fwh_osm.Roads.Graph.{LogicalEdge, RoadGraph}

-- `corridor_key`: the reference number, else the name, else nothing.
unfoldable pub corridor_key : LogicalEdge → Option Text
corridor_key e =
    let ref = strip (codes e.ref) in
    let name = strip (codes e.name) in
    if not (is_empty ref)
    then some (codes "ref:" ++ ref)
    else if not (is_empty name)
    then some (codes "name:" ++ name)
    else none

-- `by_key[key].append(eid)`
unfoldable pub append_key : Text → ℕ → List (Text × List ℕ) → List (Text × List ℕ)
append_key key eid [] = (key, eid ∷ []) ∷ []
append_key key eid ((k, eids) ∷ t) =
    if same_text k key then (k, eids ++ eid ∷ []) ∷ t else (k, eids) ∷ append_key key eid t

-- The edges by their key, and those without one.
pub record Keyed : Type 0 where
  pub by_key : List (Text × List ℕ)
  pub singles : List (List ℕ)

unfoldable pub key_edges : RoadGraph → List ℕ → Keyed → Keyed
unfolding find append_key corridor_key
key_edges g [] k = k
key_edges g (eid ∷ eids) k = key_edges g eids (elim (find eid g.edge_by_id) [
  | none ↦ k
  | some e ↦ elim (corridor_key e) [
    | none ↦ record k { singles = k.singles ++ (eid ∷ []) ∷ [] }
    | some key ↦ record k { by_key = append_key key eid k.by_key }
  ]
])

abbrev pub Forest : Type 0
Forest = List (ℕ × ℕ)

-- `find`: the root of a node, where the path to it is halved.
unfoldable pub find_root : ℕ → ℕ → Forest → Option (ℕ × Forest)
unfolding find put
find_root zero a parent = none
find_root (suc fuel) a parent = elim (find a parent) [
  | none ↦ none
  | some p ↦
      if p == a
      then some (a, parent)
      else elim (find p parent) [ none ↦ none | some q ↦ find_root fuel q (put a q parent) ]
]

-- `parent.setdefault(node, node)`
unfoldable pub set_default : ℕ → Forest → Forest
unfolding find put
set_default node parent = if is_some (find node parent) then parent else put node node parent

-- One edge joins its two ends.
unfoldable pub unite : ℕ → LogicalEdge → Forest → Option Forest
unfolding find_root set_default put
unite fuel e parent =
    elim (find_root fuel e.from_node (set_default e.to_node (set_default e.from_node parent))) [
      | none ↦ none
      | some (ra, parent1) ↦ elim (find_root fuel e.to_node parent1) [
        | none ↦ none
        | some (rb, parent2) ↦ some (if ra == rb then parent2 else put ra rb parent2)
      ]
    ]

unfoldable pub unite_all : ℕ → RoadGraph → List ℕ → Forest → Option Forest
unfolding unite find
unite_all fuel g [] parent = some parent
unite_all fuel g (eid ∷ eids) parent = elim (find eid g.edge_by_id) [
  | none ↦ none
  | some e ↦ elim (unite fuel e parent) [
    | none ↦ none
    | some parent' ↦ unite_all fuel g eids parent'
  ]
]

-- `groups[find(from_node)].append(eid)`
unfoldable pub group_runs :
    ℕ → RoadGraph → List ℕ → Forest → List (ℕ × List ℕ) → Option (List (ℕ × List ℕ))
unfolding find_root find append_at
group_runs fuel g [] parent groups = some groups
group_runs fuel g (eid ∷ eids) parent groups = elim (find eid g.edge_by_id) [
  | none ↦ none
  | some e ↦ elim (find_root fuel e.from_node parent) [
    | none ↦ none
    | some (root, parent') ↦ group_runs fuel g eids parent' (append_at root eid groups)
  ]
]

abbrev pub values {ℓ} : {V : Type ℓ} → List (ℕ × V) → List V
values [] = []
values ((_, v) ∷ t) = v ∷ values t

-- The runs of the edges of one key.
unfoldable pub runs_of : RoadGraph → List ℕ → Option (List (List ℕ))
runs_of g eids =
    let fuel = suc (length eids) in
    elim (unite_all fuel g eids []) [
      | none ↦ none
      | some parent ↦ elim (group_runs fuel g eids parent []) [
        | none ↦ none
        | some groups ↦ some (values groups)
      ]
    ]

unfoldable pub all_runs : RoadGraph → List (Text × List ℕ) → Option (List (List ℕ))
all_runs g [] = some []
all_runs g ((_, eids) ∷ t) = elim (runs_of g eids) [
  | none ↦ none
  | some runs ↦ elim (all_runs g t) [ none ↦ none | some rest ↦ some (runs ++ rest) ]
]

unfoldable pub build_corridors : RoadGraph → List ℕ → Option (List (List ℕ))
unfolding key_edges
build_corridors g eligible =
    let keyed = key_edges g eligible (record { by_key = []; singles = [] }) in
    elim (all_runs g keyed.by_key) [ none ↦ none | some runs ↦ some (keyed.singles ++ runs) ]
