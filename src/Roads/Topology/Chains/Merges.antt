-- ===== src/Roads/Topology/Chains/Merges.antt =====
-- Merging all segments: each goes into exactly one chain.
use fwh_osm.Prelude.{
  ℕ, suc, ◌+◌, ◌≤◌, ◌<◌, ◌≡◌, refl, sym, ◌∙◌, ap, inl, inr, Bool, true, false, some, List, [], ◌∷◌,
  ◌++◌, arith, if◌then◌else◌, ◌==◌, length, length-append, append_assoc, append_none, get_elem?,
  get_elem?-set, get_elem?-some, get_elem?-append, set, length-set, replicate, length-replicate,
  Bool-cases,
}
use fwh_osm.Prelude.Table.{listed}
use fwh_osm.Prelude.Sets.{count}
use fwh_osm.Roads.Topology.{Segment}
use fwh_osm.Roads.Topology.Chains.{Meeting, Chain, map_segments, chains_from, merge_segments}
use fwh_osm.Roads.Topology.Chains.Finds.{InRange, InRange-map_segments}
use fwh_osm.Roads.Topology.Chains.Extends.{free, taken, free-set, taken-set, extend-IsExtended}

-- How often a way stands in the chains, and how many segments it has.
abbrev pub chain_count : ℕ → List Chain → ℕ
chain_count id [] = 0
chain_count id (c ∷ cs) = count id c.chain_ways + chain_count id cs

abbrev pub segment_count : ℕ → List Segment → ℕ
segment_count id [] = 0
segment_count id ((s, wd) ∷ segs) = (if wd.way_id == id then 1 else 0) + segment_count id segs

free_le : (bs : List Bool) → free bs ≤ length bs
free_le [] = omega arith
free_le (b ∷ bs) = ground (arith, free_le bs)

taken-all :
    (id : ℕ) (segs : List Segment) (bs : List Bool)
    → length bs ≡ length segs
    → ((i : ℕ) → i < length segs → get_elem? bs i ≡ some true)
    → taken id segs bs ≡ segment_count id segs
taken-all id [] bs same h = refl
taken-all id (s ∷ segs) [] same h = absurd (omega arith)
taken-all id ((s, wd) ∷ segs) (b ∷ bs) same h =
    let first = h 0 (omega arith) in
    let rest = taken-all id segs bs (omega arith) (λ i less. h (suc i) (omega arith)) in
    ground arith

taken-none : (id : ℕ) (segs : List Segment) → taken id segs (replicate (length segs) false) ≡ 0
taken-none id [] = refl
taken-none id ((s, wd) ∷ segs) = omega (arith, taken-none id segs)

module _ (segments : List Segment) (t : List (ℕ × List Meeting)) where
  -- From the segment `idx` on, where all before it are used.
  chains_from-count :
      (idx : ℕ) (before segs : List Segment) (used : List Bool)
      → segments ≡ before ++ segs
      → idx ≡ length before
      → length used ≡ length segments
      → InRange (length segments) t
      → ((i : ℕ) → i < idx → get_elem? used i ≡ some true)
      → (cs : List Chain) × (chains_from segments t idx segs used ≡ some cs)
        × ((id : ℕ) → chain_count id cs + taken id segments used ≡ segment_count id segments)
  unfolding chains_from
  chains_from-count idx before [] used whole at same h all = (
    [],
    refl,
    λ id. omega (
      arith,
      taken-all id segments used same
          (λ i less. all i (omega (arith, ap length whole, ap length (append_none before)))),
    ),
  )
  chains_from-count idx before ((seg, wd) ∷ segs) used whole at same h all =
      let size = ap length whole ∙ length-append before ((seg, wd) ∷ segs) in
      let stored : get_elem? segments idx ≡ some (seg, wd) =
        rw (whole, at) (get_elem?-append before (seg, wd) segs) in
      let (b, flag) = get_elem?-some used idx (omega arith) in
      let whole' = whole ∙ sym (append_assoc before ((seg, wd) ∷ []) segs) in
      let at' : suc idx ≡ length (before ++ (seg, wd) ∷ []) =
        omega (arith, length-append before ((seg, wd) ∷ [])) in
      elim (Bool-cases b) [
        | inl busy ↦
            let (cs, runs, total) =
              chains_from-count (suc idx) (before ++ (seg, wd) ∷ []) segs used whole' at' same h
                (λ i less. ground (arith, all i)) in
            (cs, ground arith, total)
        | inr open_one ↦
            let unused : get_elem? used idx ≡ some false = ground arith in
            let c : Chain = record {
              chain_nodes = seg;
              chain_ways = wd.way_id ∷ [];
              origin = wd;
            } in
            let (used', c', goes, more) =
              extend-IsExtended segments t (suc (length segments)) (set used idx true) c
                (length-set used idx true ∙ same) h
                (omega (arith, free-set used idx unused, free_le used)) in
            let (cs, runs, total) =
              chains_from-count (suc idx) (before ++ (seg, wd) ∷ []) segs used' whole' at'
                (more.size ∙ length-set used idx true ∙ same) h
                (λ i less. more.later i (ground (arith, all i, get_elem?-set used idx i true))) in
            (
              c' ∷ cs,
              ground arith,
              λ id. ground (
                arith,
                total id,
                more.conserved id,
                taken-set id segments used idx seg wd unused stored,
              ),
            )
      ]

-- Merging ends without an `IndexError`, and for every way the chains hold its id as often as there
-- are segments of the way: no segment is lost, and none is used twice.
pub merge_segments-count :
    (segments : List Segment)
    → (cs : List Chain) × (merge_segments segments ≡ some cs)
      × ((id : ℕ) → chain_count id cs ≡ segment_count id segments)
unfolding merge_segments listed
merge_segments-count segments =
    let t = map_segments 0 segments [] in
    let (cs, runs, total) =
      chains_from-count segments t 0 [] segments (replicate (length segments) false) refl refl
        (length-replicate (length segments) false)
        (InRange-map_segments (length segments) 0 segments [] (omega arith) (λ v. tt))
        (λ i less. absurd (omega arith)) in
    (cs, runs, λ id. omega (arith, total id, taken-none id segments))
