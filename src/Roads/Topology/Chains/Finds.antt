-- ===== src/Roads/Topology/Chains/Finds.antt =====
-- The segments that meet at a node, and the one that continues a chain.
use fwh_osm.Prelude.{
  ℕ, suc, ◌+◌, ◌≤◌, ◌<◌, ◌≡◌, ◌⊎◌, refl, inl, inr, String, Bool, true, false, not, ◌&&◌, Option,
  none, some, List, [], ◌∷◌, arith, str_eq, str_eq_iff, ◌==◌, length, drop, reversed, get_elem?,
  last_or, All, All-append, Bool-cases, Option-cases, get_elem?-some,
}
use fwh_osm.Prelude.Table.{append_at, listed, listed-append_at}
use fwh_osm.Roads.Topology.{Segment}
use fwh_osm.Roads.Topology.Chains.{
  Meeting, map_segments, starts_at, stops_at, but_last, Next, consider, find_next,
}

-- All indices of a table are less than `n`.
abbrev pub InRange : ℕ → List (ℕ × List Meeting) → Type 0
InRange n t = (v : ℕ) → All (λ (c : Meeting). c.0 < n) (listed v t)

InRange-append_at :
    (n k i : ℕ) (b : Bool) (t : List (ℕ × List Meeting))
    → i < n
    → InRange n t
    → InRange n (append_at k (i, b) t)
InRange-append_at n k i b t less h v = elim (Bool-cases (k == v)) [
  | inl same ↦
      rw (listed-append_at k v (i, b) t, same)
        (All-append (λ (c : Meeting). c.0 < n) (listed v t) ((i, b) ∷ []) (h v) (less, tt))
  | inr other ↦ rw (listed-append_at k v (i, b) t, other) (h v)
]

pub InRange-map_segments :
    (n idx : ℕ) (segs : List Segment) (t : List (ℕ × List Meeting))
    → idx + length segs ≤ n
    → InRange n t
    → InRange n (map_segments idx segs t)
unfolding map_segments
InRange-map_segments n idx [] t le h = h
InRange-map_segments n idx (([], wd) ∷ segs) t le h =
    InRange-map_segments n (suc idx) segs t (omega arith) h
InRange-map_segments n idx ((k ∷ ns, wd) ∷ segs) t le h =
    InRange-map_segments n (suc idx) segs
      (append_at (last_or k ns) (idx, false) (append_at k (idx, true) t)) (omega arith)
      (InRange-append_at n (last_or k ns) idx false (append_at k (idx, true) t) (omega arith)
        (InRange-append_at n k idx true t (omega arith) h))

-- The segment is not used, has the class of the chain, and meets it at a node of degree two.
pub record IsNext (segments : List Segment) (used : List Bool) (degree : ℕ) (chain_fc : String)
    (tail : ℕ) (n : Next) : Type 0 where
  pub nodes : List ℕ
  pub unused : get_elem? used n.index ≡ some false
  pub stored : get_elem? segments n.index ≡ some (nodes, n.data_of)
  pub same_fc : n.data_of.fc ≡ chain_fc
  pub two : degree ≡ 2
  pub adds :
      ((starts_at tail nodes ≡ true) × (n.added ≡ drop 1 nodes))
      ⊎ ((stops_at tail nodes ≡ true) × (n.added ≡ reversed (but_last nodes)))

consider-IsNext :
    (segments : List Segment) (used : List Bool) (degree : ℕ) (chain_fc : String) (tail sidx : ℕ)
    (is_start : Bool) (segment : Segment) (n : Next)
    → get_elem? used sidx ≡ some false
    → get_elem? segments sidx ≡ some segment
    → consider degree chain_fc tail sidx is_start segment ≡ some n
    → IsNext segments used degree chain_fc tail n
unfolding consider
consider-IsNext segments used degree chain_fc tail sidx is_start (s, swd) n free at h =
    elim (Bool-cases (str_eq swd.fc chain_fc)) [
      | inr other ↦ absurd (ground arith)
      | inl same ↦ elim (Bool-cases (degree == 2)) [
        | inr other ↦ absurd (ground arith)
        | inl two ↦ elim (Bool-cases (is_start && starts_at tail s)) [
          | inl forward ↦
              let e : record { index = sidx; added = drop 1 s; data_of = swd } ≡ n = ground arith in
              rw (← e) record {
                nodes = s;
                unused = free;
                stored = at;
                same_fc = (str_eq_iff swd.fc chain_fc).0 same;
                two = ground arith;
                adds = inl (ground arith, refl);
              }
          | inr not_forward ↦ elim (Bool-cases (not is_start && stops_at tail s)) [
            | inr neither ↦ absurd (ground arith)
            | inl backward ↦
                let e : record { index = sidx; added = reversed (but_last s); data_of = swd } ≡ n =
                  ground arith in
                rw (← e) record {
                  nodes = s;
                  unused = free;
                  stored = at;
                  same_fc = (str_eq_iff swd.fc chain_fc).0 same;
                  two = ground arith;
                  adds = inr (ground arith, refl);
                }
          ]
        ]
      ]
    ]

-- The loop over candidates in range raises no `IndexError`, and what it finds continues the chain.
pub find_next-IsNext :
    (segments : List Segment) (used : List Bool) (degree : ℕ) (chain_fc : String) (tail : ℕ)
    (candidates : List Meeting)
    → length used ≡ length segments
    → All (λ (c : Meeting). c.0 < length segments) candidates
    → (r : Option Next) × (find_next segments used degree chain_fc tail candidates ≡ some r)
      × ((n : Next) → r ≡ some n → IsNext segments used degree chain_fc tail n)
unfolding find_next
find_next-IsNext segments used degree chain_fc tail [] same h = (none, refl, λ n e. absurd (cc))
find_next-IsNext segments used degree chain_fc tail ((sidx, is_start) ∷ candidates) same (less, h) =
    let (b, at) = get_elem?-some used sidx (omega arith) in
    let (segment, stored) = get_elem?-some segments sidx (omega arith) in
    let (r, runs, rest) = find_next-IsNext segments used degree chain_fc tail candidates same h in
    elim (Bool-cases b) [
      | inl busy ↦ (r, ground arith, rest)
      | inr free ↦ elim (Option-cases (consider degree chain_fc tail sidx is_start segment)) [
        | inl skip ↦ (r, ground arith, rest)
        | inr (n, taken) ↦ (
          some n,
          ground arith,
          λ n' e.
              consider-IsNext segments used degree chain_fc tail sidx is_start segment n'
                (ground arith) stored (ground arith),
        )
      ]
    ]
