-- ===== src/Roads/Selection/Prune/Walks.antt =====
-- The walk over one piece: what it reaches is closed under the selected edges, and it ends.
use fwh_osm.Prelude.{
  ℕ, zero, suc, ◌+◌, ◌≤◌, ◌≡◌, ◌⊎◌, refl, ap, inl, inr, Bool, true, false, none, some, List, [],
  ◌∷◌, ◌++◌, arith, if◌then◌else◌, ◌==◌, length, is_some, Option-cases, Bool-cases,
}
use fwh_osm.Prelude.Table.{find, put, find-put, listed, has_number}
use fwh_osm.Roads.Graph.{LogicalEdge, RoadGraph, other_end}
use fwh_osm.Roads.Selection.Prune.{spread, explore}
use fwh_osm.Roads.Selection.Prune.Adjacency.{keys, IsListed, other_end-back}

-- How many of the nodes belong to no piece.
abbrev pub missing : List (ℕ × ℕ) → List ℕ → ℕ
missing comp_of [] = 0
missing comp_of (n ∷ ns) = (if is_some (find n comp_of) then 0 else 1) + missing comp_of ns

missing-put_le :
    (n cid : ℕ) (comp_of : List (ℕ × ℕ)) (ns : List ℕ)
    → missing (put n cid comp_of) ns ≤ missing comp_of ns
missing-put_le n cid comp_of [] = omega arith
missing-put_le n cid comp_of (k ∷ ns) =
    ground (arith, find-put n k cid comp_of, missing-put_le n cid comp_of ns)

pub missing-put :
    (n cid : ℕ) (comp_of : List (ℕ × ℕ)) (ns : List ℕ)
    → find n comp_of ≡ none
    → has_number n ns ≡ true
    → suc (missing (put n cid comp_of) ns) ≤ missing comp_of ns
unfolding has_number
missing-put n cid comp_of [] fresh m = absurd (ground arith)
missing-put n cid comp_of (k ∷ ns) fresh m = ground (
  arith,
  find-put n k cid comp_of,
  missing-put n cid comp_of ns fresh,
  missing-put_le n cid comp_of ns,
)

pub missing_le : (comp_of : List (ℕ × ℕ)) (ns : List ℕ) → missing comp_of ns ≤ length ns
missing_le comp_of [] = omega arith
missing_le comp_of (n ∷ ns) = ground (arith, missing_le comp_of ns)

module _ (g : RoadGraph) (held : ℕ → Bool) (t : List (ℕ × List ℕ)) where
  -- All edges of `n` lead to nodes of the piece `c`.
  abbrev pub IsClosed : List (ℕ × ℕ) → ℕ → ℕ → Type 0
  IsClosed comp_of n c =
      (eid : ℕ) (e : LogicalEdge)
      → has_number eid (listed n t) ≡ true
      → find eid g.edge_by_id ≡ some e
      → find (other_end e n) comp_of ≡ some c

  -- The nodes on the stack belong to the piece `cid`, and all others but `skip` are closed.
  pub record Inv (skip : ℕ → Bool) (cid : ℕ) (stack : List ℕ) (comp_of : List (ℕ × ℕ))
      : Type 0 where
    pub waiting : (n : ℕ) → has_number n stack ≡ true → find n comp_of ≡ some cid
    pub closed :
        (n c : ℕ)
        → find n comp_of ≡ some c
        → (skip n ≡ true) ⊎ ((has_number n stack ≡ true) ⊎ IsClosed comp_of n c)
    pub least : (n c : ℕ) → find n comp_of ≡ some c → c ≤ cid

  abbrev pub Extends : List (ℕ × ℕ) → List (ℕ × ℕ) → Type 0
  Extends comp_of comp_of' = (n c : ℕ) → find n comp_of ≡ some c → find n comp_of' ≡ some c

  -- A node that belongs to no piece is pushed.
  push-Inv :
      (skip : ℕ → Bool) (cid m : ℕ) (stack : List ℕ) (comp_of : List (ℕ × ℕ))
      → find m comp_of ≡ none
      → Inv skip cid stack comp_of
      → Inv skip cid (m ∷ stack) (put m cid comp_of) × Extends comp_of (put m cid comp_of)
  unfolding has_number
  push-Inv skip cid m stack comp_of fresh h =
      let grows : Extends comp_of (put m cid comp_of) =
        λ n c at. ground (arith, find-put m n cid comp_of) in
      (
        record {
          waiting = λ n at. ground (arith, find-put m n cid comp_of, h.waiting n);
          closed = λ n c at. elim (Bool-cases (m == n)) [
            | inl same ↦ inr (inl (ground arith))
            | inr other ↦ elim (h.closed n c (ground (arith, find-put m n cid comp_of))) [
              | inl skipped ↦ inl skipped
              | inr (inl in_stack) ↦ inr (inl (ground arith))
              | inr (inr shut) ↦ inr (inr (λ eid e l s. grows (other_end e n) c (shut eid e l s)))
            ]
          ];
          least = λ n c at. ground (arith, find-put m n cid comp_of, h.least n c);
        },
        grows,
      )

  -- A neighbour that has a piece already has the same one.
  same_piece :
      (cid node eid c : ℕ) (e : LogicalEdge) (stack : List ℕ) (comp_of : List (ℕ × ℕ))
      → IsListed g held t
      → Inv (λ n. node == n) cid stack comp_of
      → find node comp_of ≡ some cid
      → has_number eid (listed node t) ≡ true
      → find eid g.edge_by_id ≡ some e
      → find (other_end e node) comp_of ≡ some c
      → c ≡ cid
  same_piece cid node eid c e stack comp_of table h own at stored known =
      let (e', stored', touches, in_held) = table.sound node eid at in
      let eq : e' ≡ e = ground arith in
      let (touches', back) = other_end-back e node (rw eq at touches) in
      let m = other_end e node in
      elim (h.closed m c known) [
        | inl self ↦ let k : node ≡ m = ground arith in ground (arith, ap (λ n. find n comp_of) k)
        | inr (inl in_stack) ↦ ground (arith, h.waiting m in_stack)
        | inr (inr shut) ↦
            let there = shut eid e (table.full eid m e in_held stored touches') stored in
            ground (arith, ap (λ n. find n comp_of) back)
      ]

  record Spread (cid node : ℕ) (eids stack : List ℕ) (comp_of : List (ℕ × ℕ)) (stack' : List ℕ)
      (comp_of' : List (ℕ × ℕ)) : Type 0 where
    inv : Inv (λ n. node == n) cid stack' comp_of'
    grows : Extends comp_of comp_of'
    reached :
        (eid : ℕ) (e : LogicalEdge)
        → has_number eid eids ≡ true
        → find eid g.edge_by_id ≡ some e
        → find (other_end e node) comp_of' ≡ some cid
    work : length stack' + missing comp_of' (keys t) ≤ length stack + missing comp_of (keys t)

  -- One edge of the node, and the rest.
  Spread-skip :
      (cid node eid : ℕ) (e : LogicalEdge) (eids stack : List ℕ) (comp_of : List (ℕ × ℕ))
      (stack' : List ℕ) (comp_of' : List (ℕ × ℕ))
      → find eid g.edge_by_id ≡ some e
      → find (other_end e node) comp_of ≡ some cid
      → Spread cid node eids stack comp_of stack' comp_of'
      → Spread cid node (eid ∷ eids) stack comp_of stack' comp_of'
  unfolding has_number
  Spread-skip cid node eid e eids stack comp_of stack' comp_of' stored known r = record {
    inv = r.inv;
    grows = r.grows;
    reached = λ i e' m s. elim (Bool-cases (eid == i)) [
      | inl same ↦ let eq : e' ≡ e = ground arith in rw eq (r.grows (other_end e node) cid known)
      | inr other ↦ r.reached i e' (ground arith) s
    ];
    work = r.work;
  }

  Spread-push :
      (cid node eid : ℕ) (e : LogicalEdge) (eids stack : List ℕ) (comp_of : List (ℕ × ℕ))
      (stack' : List ℕ) (comp_of' : List (ℕ × ℕ))
      → find eid g.edge_by_id ≡ some e
      → find (other_end e node) comp_of ≡ none
      → has_number (other_end e node) (keys t) ≡ true
      → Extends comp_of (put (other_end e node) cid comp_of)
      → Spread cid node eids
          (other_end e node ∷ stack)
          (put (other_end e node) cid comp_of)
          stack'
          comp_of'
      → Spread cid node (eid ∷ eids) stack comp_of stack' comp_of'
  unfolding has_number
  Spread-push cid node eid e eids stack comp_of stack' comp_of' stored fresh key more r =
      let m = other_end e node in
      record {
        inv = r.inv;
        grows = λ n c at. r.grows n c (more n c at);
        reached = λ i e' k s. elim (Bool-cases (eid == i)) [
          | inl same ↦
              let eq : e' ≡ e = ground arith in
              rw eq (r.grows m cid (ground (arith, find-put m m cid comp_of)))
          | inr other ↦ r.reached i e' (ground arith) s
        ];
        work = omega (arith, r.work, missing-put m cid comp_of (keys t) fresh key);
      }

  spread-Spread :
      (cid node : ℕ) (eids stack : List ℕ) (comp_of : List (ℕ × ℕ))
      → IsListed g held t
      → ((eid : ℕ) → has_number eid eids ≡ true → has_number eid (listed node t) ≡ true)
      → find node comp_of ≡ some cid
      → Inv (λ n. node == n) cid stack comp_of
      → (stack' : List ℕ) × (comp_of' : List (ℕ × ℕ)) × (spread g cid node eids stack comp_of
          ≡ (stack', comp_of'))
        × Spread cid node eids stack comp_of stack' comp_of'
  unfolding spread has_number
  spread-Spread cid node [] stack comp_of table sub own h = (
    stack,
    comp_of,
    refl,
    record {
      inv = h;
      grows = λ n c at. at;
      reached = λ eid e m s. absurd (ground arith);
      work = omega arith;
    },
  )
  spread-Spread cid node (eid ∷ eids) stack comp_of table sub own h =
      let at = sub eid (ground arith) in
      let (e, stored, touches, in_held) = table.sound node eid at in
      let (touches', _) = other_end-back e node touches in
      let rest : (i : ℕ) → has_number i eids ≡ true → has_number i (listed node t) ≡ true =
        λ i m. sub i (ground arith) in
      elim (Option-cases (find (other_end e node) comp_of)) [
        | inr (c, known) ↦
            let same = same_piece cid node eid c e stack comp_of table h own at stored known in
            let (stack', comp_of', runs, r) =
              spread-Spread cid node eids stack comp_of table rest own h in
            (
              stack',
              comp_of',
              rw (spread, stored, known) runs,
              Spread-skip cid node eid e eids stack comp_of stack' comp_of' stored
                  (rw same at known) r,
            )
        | inl fresh ↦
            let (h', more) =
              push-Inv (λ n. node == n) cid (other_end e node) stack comp_of fresh h in
            let key = table.ends eid (other_end e node) e in_held stored touches' in
            let (stack', comp_of', runs, r) =
              spread-Spread cid node eids (other_end e node ∷ stack)
                (put (other_end e node) cid comp_of) table rest (more node cid own) h' in
            (
              stack',
              comp_of',
              rw (spread, stored, fresh) runs,
              Spread-push cid node eid e eids stack comp_of stack' comp_of' stored fresh key more r,
            )
      ]

  pop_node :
      (cid node : ℕ) (stack : List ℕ) (comp_of : List (ℕ × ℕ))
      → Inv (λ n. false) cid (node ∷ stack) comp_of
      → Inv (λ n. node == n) cid stack comp_of × (find node comp_of ≡ some cid)
  unfolding has_number
  pop_node cid node stack comp_of h = (
    record {
      waiting = λ n at. h.waiting n (ground arith);
      closed = λ n c at. elim (h.closed n c at) [
        | inl skipped ↦ absurd (cc)
        | inr (inl in_stack) ↦ ground arith
        | inr (inr shut) ↦ inr (inr shut)
      ];
      least = h.least;
    },
    h.waiting node (ground arith),
  )

  node_done :
      (cid node : ℕ) (stack : List ℕ) (comp_of : List (ℕ × ℕ)) (stack' : List ℕ)
      (comp_of' : List (ℕ × ℕ))
      → find node comp_of ≡ some cid
      → Spread cid node (listed node t) stack comp_of stack' comp_of'
      → Inv (λ n. false) cid stack' comp_of'
  node_done cid node stack comp_of stack' comp_of' own r = record {
    waiting = r.inv.waiting;
    closed = λ n c at. elim (r.inv.closed n c at) [
      | inl self ↦
          let eq : n ≡ node = ground arith in
          let same : c ≡ cid = ground (arith, r.grows node cid own) in
          inr (inr (λ eid e l s. rw (eq, same) (r.reached eid e (rw eq at l) s)))
      | inr (inl in_stack) ↦ inr (inl in_stack)
      | inr (inr shut) ↦ inr (inr shut)
    ];
    least = r.inv.least;
  }

  -- The walk ends where all nodes are closed.
  pub explore-Inv :
      (fuel cid : ℕ) (stack members : List ℕ) (comp_of : List (ℕ × ℕ))
      → IsListed g held t
      → length stack + missing comp_of (keys t) ≤ fuel
      → Inv (λ n. false) cid stack comp_of
      → (members' : List ℕ) × (comp_of' : List (ℕ × ℕ)) × (explore fuel g t cid stack members
            comp_of
          ≡ some (members', comp_of'))
        × Inv (λ n. false) cid [] comp_of'
        × Extends comp_of comp_of'
  unfolding explore
  explore-Inv zero cid [] members comp_of table work h = (members, comp_of, refl, h, λ n c at. at)
  explore-Inv (suc fuel) cid [] members comp_of table work h =
      (members, comp_of, refl, h, λ n c at. at)
  explore-Inv zero cid (node ∷ stack) members comp_of table work h = absurd (omega arith)
  explore-Inv (suc fuel) cid (node ∷ stack) members comp_of table work h =
      let (h0, own) = pop_node cid node stack comp_of h in
      let (stack', comp_of', runs, r) =
        spread-Spread cid node (listed node t) stack comp_of table (λ i m. m) own h0 in
      let (members', last, goes, h', more) =
        explore-Inv fuel cid stack' (members ++ node ∷ []) comp_of' table (omega (arith, r.work))
          (node_done cid node stack comp_of stack' comp_of' own r) in
      (members', last, rw (explore, runs) goes, h', λ n c at. more n c (r.grows n c at))
