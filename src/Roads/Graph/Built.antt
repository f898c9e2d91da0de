-- ===== src/Roads/Graph/Built.antt =====
-- What holds of every graph that `add_edge` builds from edges with ids of their own.
use fwh_osm.Prelude.{
  ℕ, ◌≡◌, refl, ◌⊎◌, inl, inr, true, none, some, List, [], ◌∷◌, arith, ◌==◌, Bool-cases,
  Option-cases,
}
use fwh_osm.Prelude.Table.{
  find, append_at, listed, has_number, find-put, listed-append_at, has_number-append,
}
use fwh_osm.Roads.Graph.{
  LogicalEdge, RoadGraph, new_graph, add_edge, other_end, look_up_edges, edges_of, other_ends,
  neighbors,
}

-- The id of an edge that is listed at a node leads to an edge with this id and this end.
abbrev pub IsEndOf : LogicalEdge → ℕ → Type 0
IsEndOf e v = (e.from_node ≡ v) ⊎ (e.to_node ≡ v)

pub record IsSound (g : RoadGraph) : Type 0 where
  pub listed_at :
      (v eid : ℕ)
      → has_number eid (listed v g.adj) ≡ true
      → (e : LogicalEdge) × (find eid g.edge_by_id ≡ some e) × (e.edge_id ≡ eid) × IsEndOf e v
  pub complete :
      (eid v : ℕ) (e : LogicalEdge)
      → find eid g.edge_by_id ≡ some e
      → IsEndOf e v
      → has_number eid (listed v g.adj) ≡ true

pub new_graph-IsSound : IsSound new_graph
unfolding find listed has_number
new_graph-IsSound = record { listed_at = λ v eid h. cc; complete = λ eid v e h. cc }

listed-add_edge :
    (g : RoadGraph) (e : LogicalEdge) (v eid : ℕ)
    → has_number eid (listed v (add_edge g e).adj) ≡ true
    → (has_number eid (listed v g.adj) ≡ true) ⊎ ((eid ≡ e.edge_id) × IsEndOf e v)
unfolding add_edge has_number
listed-add_edge g e v eid h = ground (
  arith,
  listed-append_at e.to_node v e.edge_id (append_at e.from_node e.edge_id g.adj),
  listed-append_at e.from_node v e.edge_id g.adj,
  has_number-append eid (listed v (append_at e.from_node e.edge_id g.adj)) (e.edge_id ∷ []),
  has_number-append eid (listed v g.adj) (e.edge_id ∷ []),
)

listed-add_edge_new :
    (g : RoadGraph) (e : LogicalEdge) (v eid : ℕ)
    → (has_number eid (listed v g.adj) ≡ true) ⊎ ((eid ≡ e.edge_id) × IsEndOf e v)
    → has_number eid (listed v (add_edge g e).adj) ≡ true
unfolding add_edge has_number
listed-add_edge_new g e v eid h = ground (
  arith,
  listed-append_at e.to_node v e.edge_id (append_at e.from_node e.edge_id g.adj),
  listed-append_at e.from_node v e.edge_id g.adj,
  has_number-append eid (listed v (append_at e.from_node e.edge_id g.adj)) (e.edge_id ∷ []),
  has_number-append eid (listed v g.adj) (e.edge_id ∷ []),
)

pub add_edge-IsSound :
    (g : RoadGraph) (e : LogicalEdge)
    → find e.edge_id g.edge_by_id ≡ none
    → IsSound g
    → IsSound (add_edge g e)
unfolding add_edge
add_edge-IsSound g e fresh h = record {
  listed_at = λ v eid at. elim (listed-add_edge g e v eid at) [
    | inl old ↦
        let (e', found, own, touches) = h.listed_at v eid old in
        (e', ground (arith, find-put e.edge_id eid e g.edge_by_id), own, touches)
    | inr (same, touches) ↦
        (e, ground (arith, find-put e.edge_id eid e g.edge_by_id), ground arith, touches)
  ];
  complete = λ eid v e' found touches.
      listed-add_edge_new g e v eid
        (ground (arith, find-put e.edge_id eid e g.edge_by_id, h.complete eid v e'));
}

-- Two nodes are joined by an edge of the graph.
pub record Joins (g : RoadGraph) (v w : ℕ) : Type 0 where
  pub edge : LogicalEdge
  pub eid : ℕ
  pub stored : find eid g.edge_by_id ≡ some edge
  pub ends :
      ((edge.from_node ≡ v) × (edge.to_node ≡ w)) ⊎ ((edge.from_node ≡ w) × (edge.to_node ≡ v))

look_up_edges_full :
    (table : List (ℕ × LogicalEdge)) (eids : List ℕ)
    → ((eid : ℕ) → has_number eid eids ≡ true → (e : LogicalEdge) × (find eid table ≡ some e))
    → (es : List LogicalEdge) × (look_up_edges table eids ≡ some es)
unfolding look_up_edges has_number
look_up_edges_full table [] h = ([], refl)
look_up_edges_full table (eid ∷ eids) h =
    let (e, found) = h eid (ground arith) in
    let (es, rest) = look_up_edges_full table eids (λ i m. h i (ground arith)) in
    (e ∷ es, ground arith)

-- A node among the other ends stands at an edge that is looked up, and each such edge gives one.
other_ends-of_listed :
    (table : List (ℕ × LogicalEdge)) (v w : ℕ) (eids : List ℕ) (es : List LogicalEdge)
    → look_up_edges table eids ≡ some es
    → has_number w (other_ends v es) ≡ true
    → (eid : ℕ) × (e : LogicalEdge) × (has_number eid eids ≡ true)
      × (find eid table ≡ some e)
      × (other_end e v ≡ w)
unfolding look_up_edges has_number other_ends
other_ends-of_listed table v w [] es h m = absurd (ground arith)
other_ends-of_listed table v w (eid ∷ eids) es h m = elim (Option-cases (find eid table)) [
  | inl missing ↦ absurd (ground arith)
  | inr (e, found) ↦ elim (Option-cases (look_up_edges table eids)) [
    | inl stuck ↦ absurd (ground arith)
    | inr (rest, looked) ↦ elim (Bool-cases (other_end e v == w)) [
      | inl same ↦ (eid, e, ground arith, found, ground arith)
      | inr different ↦
          let (i, e', mem, at, other) =
            other_ends-of_listed table v w eids rest looked (ground arith) in
          (i, e', ground arith, at, other)
    ]
  ]
]

listed-other_ends :
    (table : List (ℕ × LogicalEdge)) (v w : ℕ) (eids : List ℕ) (es : List LogicalEdge) (eid : ℕ)
    (e : LogicalEdge)
    → look_up_edges table eids ≡ some es
    → has_number eid eids ≡ true
    → find eid table ≡ some e
    → other_end e v ≡ w
    → has_number w (other_ends v es) ≡ true
unfolding look_up_edges has_number other_ends
listed-other_ends table v w [] es eid e h m found other = absurd (ground arith)
listed-other_ends table v w (i ∷ eids) es eid e h m found other =
    elim (Option-cases (find i table)) [
      | inl missing ↦ absurd (ground arith)
      | inr (e', at) ↦ elim (Option-cases (look_up_edges table eids)) [
        | inl stuck ↦ absurd (ground arith)
        | inr (rest, looked) ↦ ground (arith, listed-other_ends table v w eids rest eid e looked)
      ]
    ]

listed_touches :
    (g : RoadGraph) (v eid : ℕ) (e : LogicalEdge)
    → IsSound g
    → has_number eid (listed v g.adj) ≡ true
    → find eid g.edge_by_id ≡ some e
    → IsEndOf e v
listed_touches g v eid e h m found =
    let (e', at, own, touches) = h.listed_at v eid m in ground arith

other_end_cases :
    (e : LogicalEdge) (v w : ℕ)
    → IsEndOf e v
    → other_end e v ≡ w
    → ((e.from_node ≡ v) × (e.to_node ≡ w)) ⊎ ((e.from_node ≡ w) × (e.to_node ≡ v))
unfolding other_end
other_end_cases e v w touches other = ground arith

other_end-joined :
    (e : LogicalEdge) (v w : ℕ)
    → ((e.from_node ≡ v) × (e.to_node ≡ w)) ⊎ ((e.from_node ≡ w) × (e.to_node ≡ v))
    → IsEndOf e v × (other_end e v ≡ w)
unfolding other_end
other_end-joined e v w joined = ground arith

-- In a sound graph `neighbors` raises no `KeyError`, and lists a node exactly when an edge of the
-- graph joins it to the node asked for, in one direction or the other.
pub neighbors-Joins :
    (g : RoadGraph) (v : ℕ)
    → IsSound g
    → (ns : List ℕ) × (neighbors g v ≡ some ns)
      × ((w : ℕ) → (has_number w ns ≡ true → Joins g v w) × (Joins g v w → has_number w ns ≡ true))
unfolding neighbors edges_of
neighbors-Joins g v h =
    let (es, looked) =
      look_up_edges_full g.edge_by_id (listed v g.adj)
        (λ eid m. let (e, found, _, _) = h.listed_at v eid m in (e, found)) in
    (
      other_ends v es,
      ground arith,
      λ w. (
        λ m.
            let (eid, e, mem, found, other) =
              other_ends-of_listed g.edge_by_id v w (listed v g.adj) es looked m in
            let touches = listed_touches g v eid e h mem found in
            record {
              edge = e;
              eid = eid;
              stored = found;
              ends = other_end_cases e v w touches other;
            },
        λ j.
            let (touches, other) = other_end-joined j.edge v w j.ends in
            listed-other_ends g.edge_by_id v w (listed v g.adj) es j.eid j.edge looked
              (h.complete j.eid v j.edge j.stored touches) j.stored other,
      ),
    )
