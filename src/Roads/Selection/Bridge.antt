-- ===== src/Roads/Selection/Bridge.antt =====
-- `bridge_route_gaps` of handlers/roads/zoom_selection.py: a run of unselected edges that joins two
-- nodes of a numbered route is shown with it. `_uf_find` is `find_root` on a node that is entered
-- first; the nodes that its loop comes to are entered already.
pub mod Gaps
use fwh_osm.Prelude.{
  ℕ, zero, suc, ◌+◌, ◌≤◌, Bool, true, false, not, ◌&&◌, ◌||◌, Option, none, some, List, [], ◌∷◌,
  ◌++◌, String, if◌then◌else◌, ◌==◌, leb, length, is_empty, keep, has_name, str_eq, take, reversed,
}
use fwh_osm.Prelude.Table.{find, put, append_at, has_number}
use fwh_osm.Prelude.Sets.{union}
use fwh_osm.Prelude.Text.{Text, codes, strip, same_text}
use fwh_osm.Roads.Graph.{LogicalEdge, RoadGraph}
use fwh_osm.Roads.Selection.Corridors.{Forest, find_root, set_default, append_key, values}

abbrev pub fc_order : List String
fc_order = "motorway" ∷ "trunk" ∷ "primary" ∷ "secondary" ∷ "tertiary" ∷ "unclassified" ∷ []

abbrev semicolon : ℕ
semicolon = b';'

-- `s.split(";")`, behind the characters `read` of the piece at hand
unfoldable pub split_semicolons : Text → Text → List Text
split_semicolons read [] = reversed read ∷ []
split_semicolons read (c ∷ cs) = elim (c == semicolon) [
  | true ↦ reversed read ∷ split_semicolons [] cs
  | false ↦ split_semicolons (c ∷ read) cs
]

-- `[t.strip() for t in … if t.strip()]`
unfoldable pub stripped : List Text → List Text
stripped [] = []
stripped (t ∷ ts) = let rest = stripped ts in if is_empty (strip t) then rest else strip t ∷ rest

unfoldable pub ref_tokens : String → List Text
unfolding split_semicolons stripped
ref_tokens ref = stripped (split_semicolons [] (codes ref))

-- `FC_ORDER[: min(i + 2, len(FC_ORDER))]` with `i` the place of the floor, or the last
unfoldable pub allowed_classes : String → List String → List String
allowed_classes floor_fc [] = []
allowed_classes floor_fc (c ∷ cs) =
    if str_eq c floor_fc then c ∷ take 1 cs else c ∷ allowed_classes floor_fc cs

-- `by_ref.setdefault(t, []).append(edge.edge_id)`, for the tokens of an edge and for all edges
unfoldable pub add_tokens : ℕ → List Text → List (Text × List ℕ) → List (Text × List ℕ)
unfolding append_key
add_tokens eid [] t = t
add_tokens eid (token ∷ tokens) t = add_tokens eid tokens (append_key token eid t)

unfoldable pub edges_by_ref : List LogicalEdge → List (Text × List ℕ) → List (Text × List ℕ)
unfolding add_tokens ref_tokens
edges_by_ref [] t = t
edges_by_ref (e ∷ es) t = edges_by_ref es (add_tokens e.edge_id (ref_tokens e.ref) t)

-- `graph.edge_by_id[e]` for all edges of a list; `none` is a `KeyError`
unfoldable pub stored_edges : RoadGraph → List ℕ → Option (List (ℕ × LogicalEdge))
unfolding find
stored_edges g [] = some []
stored_edges g (eid ∷ eids) =
    let rest = stored_edges g eids in
    elim (find eid g.edge_by_id) [
      | none ↦ none
      | some e ↦ elim rest [ none ↦ none | some es ↦ some ((eid, e) ∷ es) ]
    ]

-- `e not in selected and graph.edge_by_id[e].fc in allowed`; the first test comes first.
unfoldable pub candidates_of :
    RoadGraph → List ℕ → List String → List ℕ → Option (List (ℕ × LogicalEdge))
unfolding find has_number
candidates_of g selected allowed [] = some []
candidates_of g selected allowed (eid ∷ eids) =
    let rest = candidates_of g selected allowed eids in
    if has_number eid selected then rest else elim (find eid g.edge_by_id) [
      | none ↦ none
      | some e ↦ elim rest [
        | none ↦ none
        | some es ↦ if has_name e.fc allowed then some ((eid, e) ∷ es) else some es
      ]
    ]

unfoldable pub nodes_of : List (ℕ × LogicalEdge) → List ℕ
nodes_of [] = []
nodes_of ((_, e) ∷ es) = e.from_node ∷ e.to_node ∷ nodes_of es

abbrev pub uf_find : ℕ → ℕ → Forest → Option (ℕ × Forest)
uf_find fuel a parent = find_root fuel a (set_default a parent)

-- `parent[_uf_find(parent, ed.from_node)] = _uf_find(parent, ed.to_node)`, the right side first
unfoldable pub link_ends : ℕ → List (ℕ × LogicalEdge) → Forest → Option Forest
unfolding find_root set_default put
link_ends fuel [] parent = some parent
link_ends fuel ((_, e) ∷ es) parent = elim (uf_find fuel e.to_node parent) [
  | none ↦ none
  | some (rb, p1) ↦ elim (uf_find fuel e.from_node p1) [
    | none ↦ none
    | some (ra, p2) ↦ link_ends fuel es (put ra rb p2)
  ]
]

-- `runs.setdefault(root, []).append(e)`
unfoldable pub runs_from :
    ℕ
    → List (ℕ × LogicalEdge)
    → Forest
    → List (ℕ × List (ℕ × LogicalEdge))
    → Option (List (ℕ × List (ℕ × LogicalEdge)))
unfolding find_root set_default append_at
runs_from fuel [] parent runs = some runs
runs_from fuel ((eid, e) ∷ es) parent runs = elim (uf_find fuel e.from_node parent) [
  | none ↦ none
  | some (root, p1) ↦ runs_from fuel es p1 (append_at root (eid, e) runs)
]

-- The nodes of a run at which the route is selected, each once.
unfoldable pub touching : List ℕ → List ℕ → List ℕ
unfolding has_number
touching sel_nodes [] = []
touching sel_nodes (n ∷ ns) =
    let rest = touching sel_nodes ns in
    if has_number n sel_nodes && not (has_number n rest) then n ∷ rest else rest

abbrev pub ids : List (ℕ × LogicalEdge) → List ℕ
ids [] = []
ids ((eid, _) ∷ es) = eid ∷ ids es

-- `if len(touch) >= 2: added.update(run)`
unfoldable pub add_runs : List ℕ → List (List (ℕ × LogicalEdge)) → List ℕ → List ℕ
unfolding touching nodes_of union
add_runs sel_nodes [] added = added
add_runs sel_nodes (run ∷ runs) added =
    add_runs sel_nodes runs
      (if leb 2 (length (touching sel_nodes (nodes_of run))) then union added (ids run) else added)

-- What one route number adds.
unfoldable pub bridge_one : RoadGraph → List ℕ → List String → List ℕ → List ℕ → Option (List ℕ)
bridge_one g selected allowed eids added =
    let chosen = keep (λ e. has_number e selected) eids in
    if is_empty chosen then some added else elim (candidates_of g selected allowed eids) [
      | none ↦ none
      | some cand ↦ if is_empty cand then some added else elim (stored_edges g chosen) [
        | none ↦ none
        | some es ↦
            let fuel = suc (length cand) in
            elim (link_ends fuel cand []) [
              | none ↦ none
              | some parent ↦ elim (runs_from fuel cand parent []) [
                | none ↦ none
                | some runs ↦ some (add_runs (nodes_of es) (values runs) added)
              ]
            ]
      ]
    ]

unfoldable pub bridge_all :
    RoadGraph → List ℕ → List String → List (Text × List ℕ) → List ℕ → Option (List ℕ)
bridge_all g selected allowed [] added = some added
bridge_all g selected allowed ((_, eids) ∷ by_ref) added =
    elim (bridge_one g selected allowed eids added) [
      | none ↦ none
      | some added' ↦ bridge_all g selected allowed by_ref added'
    ]

unfoldable pub bridge_route_gaps :
    RoadGraph → List ℕ → String → List (Text × List ℕ) → Option (List ℕ)
unfolding allowed_classes
bridge_route_gaps g selected floor_fc by_ref =
    bridge_all g selected (allowed_classes floor_fc fc_order) by_ref []
