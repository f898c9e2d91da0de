-- ===== src/Roads/Selection/Prune/Groups.antt =====
-- The edges of each piece.
use fwh_osm.Prelude.{
  ℕ, ◌+◌, ◌≡◌, refl, Bool, true, false, ◌&&◌, none, some, List, [], ◌∷◌, arith, if◌then◌else◌, ◌==◌,
  ==_iff, ◌∙◌, All, Option-cases, Bool-cases, inl, inr,
}
use fwh_osm.Prelude.Table.{find, put, find-put, has_number}
use fwh_osm.Prelude.Sets.{union, has_number-union}
use fwh_osm.Roads.Graph.{RoadGraph}
use fwh_osm.Roads.Selection.Prune.{group_edges}

-- No key stands twice.
abbrev pub Distinct {ℓ} : {V : Type ℓ} → List (ℕ × V) → Type ℓ
Distinct [] = Unit
Distinct ((k, v) ∷ t) = (find k t ≡ none) × Distinct t

Distinct-put {ℓ} :
    {V : Type ℓ} (k : ℕ) (v : V) (t : List (ℕ × V)) → Distinct t → Distinct (put k v t)
unfolding put find
Distinct-put k v [] d = (refl, tt)
Distinct-put k v ((j, w) ∷ t) (fresh, d) = elim (Bool-cases (j == k)) [
  | inl same ↦ rw (put, same) (fresh, d)
  | inr other ↦ rw (put, other) (ground (arith, find-put k j v t), Distinct-put k v t d)
]

behind {ℓ} :
    {V : Type ℓ} (k j : ℕ) (v w : V) (t : List (ℕ × V))
    → find k t ≡ none
    → find j t ≡ some w
    → find j ((k, v) ∷ t) ≡ some w
unfolding find
behind k j v w t fresh at = elim (Bool-cases (k == j)) [
  | inl same ↦ let e : find j t ≡ none = rw ((==_iff k j).0 same) at fresh in absurd (ground arith)
  | inr other ↦ rw other at
]

pub All-of_find {ℓ κ} :
    {V : Type ℓ} (P : ℕ → V → Type κ) (t : List (ℕ × V))
    → Distinct t
    → ((k : ℕ) (v : V) → find k t ≡ some v → P k v)
    → All (λ (kv : ℕ × V). P kv.0 kv.1) t
unfolding find
All-of_find P [] d h = tt
All-of_find P ((k, v) ∷ t) (fresh, d) h =
    (h k v (ground arith), All-of_find P t d (λ j w at. h j w (behind k j v w t fresh at)))

-- The edge is stored and its piece is `c`.
abbrev pub belongs : RoadGraph → List (ℕ × ℕ) → ℕ → ℕ → Bool
belongs g comp_of c eid = elim (find eid g.edge_by_id) [
  | none ↦ false
  | some e ↦ elim (find e.from_node comp_of) [ none ↦ false | some c' ↦ c' == c ]
]

abbrev pub Group : Type 0
Group = List ℕ × ℕ

abbrev pub members : ℕ → List (ℕ × Group) → List ℕ
members c groups = elim (find c groups) [ none ↦ [] | some g ↦ g.0 ]

pub record IsGrouped (g : RoadGraph) (comp_of : List (ℕ × ℕ)) (seen : ℕ → Bool)
    (groups : List (ℕ × Group)) : Type 0 where
  pub distinct : Distinct groups
  pub whole : (c x : ℕ) → has_number x (members c groups) ≡ (seen x && belongs g comp_of c x)
  pub known : (c : ℕ) (p : Group) → find c groups ≡ some p → (n : ℕ) × (find n comp_of ≡ some c)

abbrev hold : ℕ → (ℕ → Bool) → ℕ → Bool
hold eid seen i = if eid == i then true else seen i

module _ (g : RoadGraph) (comp_of : List (ℕ × ℕ)) where
  -- An edge that belongs to no piece changes no group.
  IsGrouped-skip :
      (seen : ℕ → Bool) (eid : ℕ) (groups : List (ℕ × Group))
      → ((c : ℕ) → belongs g comp_of c eid ≡ false)
      → IsGrouped g comp_of seen groups
      → IsGrouped g comp_of (hold eid seen) groups
  IsGrouped-skip seen eid groups nowhere h = record {
    distinct = h.distinct;
    whole = λ c x. elim (Bool-cases (eid == x)) [
      | inl same ↦
          let no : belongs g comp_of c x ≡ false = rw ((==_iff eid x).0 same) at (nowhere c) in
          ground (arith, h.whole c x)
      | inr other ↦ ground (arith, h.whole c x)
    ];
    known = h.known;
  }

  -- The group of its piece gets an edge.
  IsGrouped-add :
      (seen : ℕ → Bool) (eid cid n : ℕ) (p : Group) (groups : List (ℕ × Group))
      → find n comp_of ≡ some cid
      → ((c : ℕ) → belongs g comp_of c eid ≡ (cid == c))
      → ((x : ℕ)
          → has_number x p.0 ≡ (if eid == x then true else has_number x (members cid groups)))
      → IsGrouped g comp_of seen groups
      → IsGrouped g comp_of (hold eid seen) (put cid p groups)
  IsGrouped-add seen eid cid n p groups at here_only grown h = record {
    distinct = Distinct-put cid p groups h.distinct;
    whole = λ c x. elim (Bool-cases (cid == c)) [
      | inl mine ↦ elim (Bool-cases (eid == x)) [
        | inl same ↦
            let b : belongs g comp_of c x ≡ true =
              rw ((==_iff eid x).0 same) at (here_only c ∙ mine) in
            ground (arith, find-put cid c p groups, grown x)
        | inr other ↦
            let w : has_number x (members cid groups) ≡ (seen x && belongs g comp_of c x) =
              rw ((==_iff cid c).0 mine) (h.whole c x) in
            ground (arith, find-put cid c p groups, grown x)
      ]
      | inr others ↦ elim (Bool-cases (eid == x)) [
        | inl same ↦
            let b : belongs g comp_of c x ≡ false =
              rw ((==_iff eid x).0 same) at (here_only c ∙ others) in
            ground (arith, find-put cid c p groups, h.whole c x)
        | inr other ↦ ground (arith, find-put cid c p groups, h.whole c x)
      ]
    ];
    known = λ c q found. elim (Bool-cases (cid == c)) [
      | inl mine ↦ (n, rw (← (==_iff cid c).0 mine) at)
      | inr others ↦ h.known c q (ground (arith, find-put cid c p groups))
    ];
  }

  group_edges-IsGrouped_from :
      (seen all : ℕ → Bool) (eids : List ℕ) (groups : List (ℕ × Group))
      → ((x : ℕ) → all x ≡ (if has_number x eids then true else seen x))
      → IsGrouped g comp_of seen groups
      → IsGrouped g comp_of all (group_edges g comp_of eids groups)
  unfolding group_edges has_number
  group_edges-IsGrouped_from seen all [] groups same h = record {
    distinct = h.distinct;
    whole = λ c x. ground (arith, same x, h.whole c x);
    known = h.known;
  }
  group_edges-IsGrouped_from seen all (eid ∷ eids) groups same h =
      let next = λ (groups' : List (ℕ × Group)) (k : IsGrouped g comp_of (hold eid seen) groups').
        group_edges-IsGrouped_from (hold eid seen) all eids groups' (λ x. ground (arith, same x))
          k in
      elim (Option-cases (find eid g.edge_by_id)) [
        | inl missing ↦
            rw (group_edges, missing)
              (next groups (IsGrouped-skip seen eid groups (λ c. ground arith) h))
        | inr (e, stored) ↦ elim (Option-cases (find e.from_node comp_of)) [
          | inl nowhere ↦
              rw (group_edges, stored, nowhere)
                (next groups (IsGrouped-skip seen eid groups (λ c. ground arith) h))
          | inr (cid, at) ↦ elim (Option-cases (find cid groups)) [
            | inl fresh ↦
                rw (group_edges, stored, at, fresh)
                  (next (put cid (eid ∷ [], e.length_m) groups) (
                    IsGrouped-add seen eid cid e.from_node (eid ∷ [], e.length_m) groups at
                      (λ c. ground arith) (λ x. ground arith) h))
            | inr ((edges, len), old) ↦
                rw (group_edges, stored, at, old)
                  (next (put cid (union edges (eid ∷ []), len + e.length_m) groups) (
                    IsGrouped-add seen eid cid e.from_node
                      (union edges (eid ∷ []), len + e.length_m) groups at (λ c. ground arith)
                      (λ x. ground (arith, has_number-union x edges (eid ∷ []))) h))
          ]
        ]
      ]

  pub group_edges-IsGrouped :
      (eids : List ℕ) → IsGrouped g comp_of (λ x. has_number x eids) (group_edges g comp_of eids [])
  unfolding find has_number
  group_edges-IsGrouped eids =
      group_edges-IsGrouped_from (λ x. false) (λ x. has_number x eids) eids [] (λ x. ground arith)
        (record { distinct = tt; whole = λ c x. refl; known = λ c p at. absurd (ground arith) })
