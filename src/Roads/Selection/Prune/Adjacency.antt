-- ===== src/Roads/Selection/Prune/Adjacency.antt =====
-- The adjacency of the selected edges: each edge is listed at both of its ends, and nothing else is.
use fwh_osm.Prelude.{
  ℕ, suc, ◌+◌, ◌*◌, ◌≤◌, ◌≡◌, ◌⊎◌, refl, inl, inr, Bool, true, false, none, some, List, [], ◌∷◌,
  arith, if◌then◌else◌, ◌==◌, length, Option-cases, Bool-cases,
}
use fwh_osm.Prelude.Table.{find, append_at, listed, listed-append_at, has_number, has_number-append}
use fwh_osm.Roads.Graph.{LogicalEdge, RoadGraph, other_end}
use fwh_osm.Roads.Graph.Built.{IsEndOf}
use fwh_osm.Roads.Selection.Prune.{sub_adjacency}

abbrev pub keys {ℓ} : {V : Type ℓ} → List (ℕ × V) → List ℕ
keys [] = []
keys ((k, _) ∷ t) = k ∷ keys t

has_number-append_at :
    (n k eid : ℕ) (t : List (ℕ × List ℕ))
    → has_number n (keys (append_at k eid t)) ≡ (if k == n then true else has_number n (keys t))
unfolding append_at has_number
has_number-append_at n k eid [] = refl
has_number-append_at n k eid ((j, eids) ∷ t) = ground (arith, has_number-append_at n k eid t)

length-append_at :
    (k eid : ℕ) (t : List (ℕ × List ℕ)) → length (keys (append_at k eid t)) ≤ suc (length (keys t))
unfolding append_at
length-append_at k eid [] = omega arith
length-append_at k eid ((j, eids) ∷ t) = ground (arith, length-append_at k eid t)

-- The edges that are held, as they stand in a table of adjacency.
pub record IsListed (g : RoadGraph) (held : ℕ → Bool) (t : List (ℕ × List ℕ)) : Type 0 where
  pub sound :
      (n eid : ℕ)
      → has_number eid (listed n t) ≡ true
      → (e : LogicalEdge) × (find eid g.edge_by_id ≡ some e) × IsEndOf e n × (held eid ≡ true)
  pub full :
      (eid n : ℕ) (e : LogicalEdge)
      → held eid ≡ true
      → find eid g.edge_by_id ≡ some e
      → IsEndOf e n
      → has_number eid (listed n t) ≡ true
  pub ends :
      (eid n : ℕ) (e : LogicalEdge)
      → held eid ≡ true
      → find eid g.edge_by_id ≡ some e
      → IsEndOf e n
      → has_number n (keys t) ≡ true

-- One edge more.
listed-both :
    (e : LogicalEdge) (i n eid : ℕ) (t : List (ℕ × List ℕ))
    → has_number i (listed n (append_at e.to_node eid (append_at e.from_node eid t))) ≡ true
    → (has_number i (listed n t) ≡ true) ⊎ ((i ≡ eid) × IsEndOf e n)
unfolding has_number
listed-both e i n eid t h = ground (
  arith,
  listed-append_at e.to_node n eid (append_at e.from_node eid t),
  listed-append_at e.from_node n eid t,
  has_number-append i (listed n (append_at e.from_node eid t)) (eid ∷ []),
  has_number-append i (listed n t) (eid ∷ []),
)

both-listed :
    (e : LogicalEdge) (i n eid : ℕ) (t : List (ℕ × List ℕ))
    → (has_number i (listed n t) ≡ true) ⊎ ((i ≡ eid) × IsEndOf e n)
    → has_number i (listed n (append_at e.to_node eid (append_at e.from_node eid t))) ≡ true
unfolding has_number
both-listed e i n eid t h = ground (
  arith,
  listed-append_at e.to_node n eid (append_at e.from_node eid t),
  listed-append_at e.from_node n eid t,
  has_number-append i (listed n (append_at e.from_node eid t)) (eid ∷ []),
  has_number-append i (listed n t) (eid ∷ []),
)

both-keys :
    (e : LogicalEdge) (n eid : ℕ) (t : List (ℕ × List ℕ))
    → (has_number n (keys t) ≡ true) ⊎ IsEndOf e n
    → has_number n (keys (append_at e.to_node eid (append_at e.from_node eid t))) ≡ true
both-keys e n eid t h = ground (
  arith,
  has_number-append_at n e.to_node eid (append_at e.from_node eid t),
  has_number-append_at n e.from_node eid t,
)

abbrev hold : ℕ → (ℕ → Bool) → ℕ → Bool
hold eid held i = if eid == i then true else held i

IsListed-hold :
    (g : RoadGraph) (held : ℕ → Bool) (eid : ℕ) (e : LogicalEdge) (t : List (ℕ × List ℕ))
    → find eid g.edge_by_id ≡ some e
    → IsListed g held t
    → IsListed g (hold eid held) (append_at e.to_node eid (append_at e.from_node eid t))
IsListed-hold g held eid e t stored h = record {
  sound = λ n i at. elim (listed-both e i n eid t at) [
    | inl old ↦
        let (e', at', touches, in_held) = h.sound n i old in (e', at', touches, ground arith)
    | inr (same, touches) ↦ (e, rw same stored, touches, ground arith)
  ];
  full = λ i n e' in_held at touches. both-listed e i n eid t (elim (Bool-cases (eid == i)) [
    | inl same ↦ let own : e' ≡ e = ground arith in inr (ground arith, rw own at touches)
    | inr other ↦ inl (h.full i n e' (ground arith) at touches)
  ]);
  ends = λ i n e' in_held at touches. both-keys e n eid t (elim (Bool-cases (eid == i)) [
    | inl same ↦ let own : e' ≡ e = ground arith in inr (rw own at touches)
    | inr other ↦ inl (h.ends i n e' (ground arith) at touches)
  ]);
}

IsListed-skip :
    (g : RoadGraph) (held : ℕ → Bool) (eid : ℕ) (t : List (ℕ × List ℕ))
    → find eid g.edge_by_id ≡ none
    → IsListed g held t
    → IsListed g (hold eid held) t
IsListed-skip g held eid t missing h = record {
  sound = λ n i at.
      let (e', at', touches, in_held) = h.sound n i at in (e', at', touches, ground arith);
  full = λ i n e' in_held at touches. h.full i n e' (ground arith) at touches;
  ends = λ i n e' in_held at touches. h.ends i n e' (ground arith) at touches;
}

-- The loop, where the edges `held` stand in the table before.
sub_adjacency-IsListed_from :
    (g : RoadGraph) (held all : ℕ → Bool) (eids : List ℕ) (t : List (ℕ × List ℕ))
    → ((i : ℕ) → all i ≡ (if has_number i eids then true else held i))
    → IsListed g held t
    → IsListed g all (sub_adjacency g eids t)
unfolding sub_adjacency has_number
sub_adjacency-IsListed_from g held all [] t same h = record {
  sound = λ n i at.
      let (e', at', touches, in_held) = h.sound n i at in
      (e', at', touches, ground (arith, same i));
  full = λ i n e' in_all at touches. h.full i n e' (ground (arith, same i)) at touches;
  ends = λ i n e' in_all at touches. h.ends i n e' (ground (arith, same i)) at touches;
}
sub_adjacency-IsListed_from g held all (eid ∷ eids) t same h =
    elim (Option-cases (find eid g.edge_by_id)) [
      | inl missing ↦
          rw (sub_adjacency, missing)
            (sub_adjacency-IsListed_from g (hold eid held) all eids t (λ i. ground (arith, same i))
              (IsListed-skip g held eid t missing h))
      | inr (e, stored) ↦
          rw (sub_adjacency, stored)
            (sub_adjacency-IsListed_from g (hold eid held) all eids
              (append_at e.to_node eid (append_at e.from_node eid t)) (λ i. ground (arith, same i))
              (IsListed-hold g held eid e t stored h))
    ]

pub sub_adjacency-IsListed :
    (g : RoadGraph) (eids : List ℕ) → IsListed g (λ i. has_number i eids) (sub_adjacency g eids [])
unfolding has_number listed
sub_adjacency-IsListed g eids =
    sub_adjacency-IsListed_from g (λ i. false) (λ i. has_number i eids) eids [] (λ i. ground arith)
      (record {
        sound = λ n i at. absurd (ground arith);
        full = λ i n e m at w. absurd (ground arith);
        ends = λ i n e m at w. absurd (ground arith);
      })

pub length-sub_adjacency :
    (g : RoadGraph) (eids : List ℕ) (t : List (ℕ × List ℕ))
    → length (keys (sub_adjacency g eids t)) ≤ length (keys t) + 2 * length eids
unfolding sub_adjacency
length-sub_adjacency g [] t = omega arith
length-sub_adjacency g (eid ∷ eids) t = elim (Option-cases (find eid g.edge_by_id)) [
  | inl missing ↦ rw (sub_adjacency, missing) (omega (arith, length-sub_adjacency g eids t))
  | inr (e, stored) ↦
      rw (sub_adjacency, stored)
        (omega (
          arith,
          length-sub_adjacency g eids (append_at e.to_node eid (append_at e.from_node eid t)),
          length-append_at e.to_node eid (append_at e.from_node eid t),
          length-append_at e.from_node eid t,
        ))
]

-- An edge leads from its one end to its other, and back.
pub other_end-back :
    (e : LogicalEdge) (n : ℕ)
    → IsEndOf e n
    → IsEndOf e (other_end e n) × (other_end e (other_end e n) ≡ n)
unfolding other_end
other_end-back e n h = ground arith
