-- ===== src/Roads/Topology/Split.antt =====
-- The segments of a way.
use fwh_osm.Prelude.{
  ℕ, ◌≡◌, refl, true, false, List, [], ◌∷◌, ◌++◌, arith, leb, length, length-append, append_assoc,
  append_none, All, All-append, Among, last_or, last_or-append, List-cases, is_empty, Bool-cases,
  inl, inr,
}
use fwh_osm.Prelude.Table.{has_number, has_number-append}
use fwh_osm.Roads.Ways.{WayData}
use fwh_osm.Roads.Topology.{
  TopologyHandler, split_from, split_way, end_nodes, decision_nodes, junctions,
}

-- The segments follow each other through the nodes, from the first to the last. Each ends at a
-- decision node and has none between its ends.
abbrev pub IsSplit : List ℕ → List ℕ → List (List ℕ) → Type 0
IsSplit decisions nodes [] = (a : ℕ) × (nodes ≡ a ∷ [])
IsSplit decisions nodes (s ∷ ss) =
    (a : ℕ) × (inner : List ℕ) × (z : ℕ) × (rest : List ℕ) × (s ≡ a ∷ (inner ++ z ∷ []))
    × All (λ n. has_number n decisions ≡ false) inner
    × (has_number z decisions ≡ true)
    × (nodes ≡ a ∷ (inner ++ z ∷ rest))
    × IsSplit decisions (z ∷ rest) ss

last_inner :
    (decisions : List ℕ) (a : ℕ) (inner : List ℕ)
    → All (λ n. has_number n decisions ≡ false) inner
    → has_number (last_or a inner) decisions ≡ true
    → inner ≡ []
last_inner decisions a [] h e = refl
last_inner decisions a (n ∷ []) (h, _) e = absurd (ground arith)
last_inner decisions a (n ∷ k ∷ ns) (h, hs) e =
    let gone : (k ∷ ns) ≡ [] = last_inner decisions n (k ∷ ns) hs e in absurd (cc)

split_from-IsSplit :
    (decisions : List ℕ) (a : ℕ) (inner nids : List ℕ)
    → All (λ n. has_number n decisions ≡ false) inner
    → has_number (last_or a (inner ++ nids)) decisions ≡ true
    → IsSplit decisions (a ∷ (inner ++ nids)) (split_from decisions (a ∷ inner) nids)
unfolding split_from
split_from-IsSplit decisions a inner [] h e =
    let none_left : inner ≡ [] = last_inner decisions a inner h (rw (append_none inner) at e) in
    (a, rw none_left refl)
split_from-IsSplit decisions a inner (nid ∷ nids) h e =
    let long : leb 2 (length (a ∷ (inner ++ nid ∷ []))) ≡ true =
      ground (arith, length-append inner (nid ∷ [])) in
    elim (Bool-cases (has_number nid decisions)) [
      | inl decides ↦
          rw (split_from, decides, long)
            (
              a,
              inner,
              nid,
              nids,
              refl,
              h,
              decides,
              refl,
              split_from-IsSplit decisions nid [] nids tt
                  (rw (last_or-append a nid inner nids) at e),
            )
      | inr passes ↦
          rw (split_from, passes)
            (rw (append_assoc inner (nid ∷ []) nids) at (
              split_from-IsSplit decisions a (inner ++ nid ∷ []) nids
                (All-append _ inner (nid ∷ []) h (passes, tt))
                (rw (append_assoc inner (nid ∷ []) nids) e)))
    ]

ends_of :
    (wds : List WayData) (wd : WayData) (nid : ℕ) (nids : List ℕ)
    → Among wd wds
    → wd.node_refs ≡ nid ∷ nids
    → (has_number nid (end_nodes wds) ≡ true)
      × (has_number (last_or nid nids) (end_nodes wds) ≡ true)
unfolding end_nodes has_number
ends_of [] wd nid nids m e = absurd m
ends_of (w ∷ wds) wd nid nids (inl same) e =
    let e' : w.node_refs ≡ nid ∷ nids = rw same at e in ground (arith, e')
ends_of (w ∷ wds) wd nid nids (inr rest) e = elim (List-cases w.node_refs) [
  | inl empty ↦ ground (arith, ends_of wds wd nid nids rest e)
  | inr (k, ks, e') ↦ ground (arith, ends_of wds wd nid nids rest e)
]

last_decides :
    (h : TopologyHandler) (nid : ℕ)
    → has_number nid (end_nodes h.ways) ≡ true
    → has_number nid (decision_nodes h) ≡ true
unfolding decision_nodes
last_decides h nid e =
    ground (arith, has_number-append nid (junctions h h.node_way_count) (end_nodes h.ways))

-- A way of the scan that has nodes is cut into segments that cover it from its first node to its
-- last, that end at decision nodes, and that have no decision node between their ends.
pub split_way-IsSplit :
    (h : TopologyHandler) (wd : WayData)
    → Among wd h.ways
    → is_empty wd.node_refs ≡ false
    → IsSplit (decision_nodes h) wd.node_refs (split_way (decision_nodes h) wd.node_refs)
unfolding split_way
split_way-IsSplit h wd m nonempty = elim (List-cases wd.node_refs) [
  | inl none_left ↦ absurd (ground arith)
  | inr (nid, nids, e) ↦
      let (first, last) = ends_of h.ways wd nid nids m e in
      rw e (
        split_from-IsSplit (decision_nodes h) nid [] nids tt
          (last_decides h (last_or nid nids) last))
]
