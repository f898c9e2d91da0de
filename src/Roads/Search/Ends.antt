-- ===== src/Roads/Search/Ends.antt =====
-- Where the outer loop of `shortest_path` ends.
use fwh_osm.Prelude.{
  ℕ, zero, suc, ◌+◌, ◌≤◌, ◌≡◌, ◌⊎◌, inl, inr, refl, ap, ◌∙◌, false, Bool, some, List, [], ◌∷◌,
  arith, ◌==◌, ==_iff, length, Bool-cases,
}
use fwh_osm.Roads.Graph.{RoadGraph}
use fwh_osm.Roads.Graph.Built.{IsSound}
use fwh_osm.Roads.Search.{Entry, Search, visit, search}
use fwh_osm.Roads.Search.Rounds.{open_total, Outer, visit-Outer}

heap_cases :
    (h : List Entry) → (h ≡ []) ⊎ ((d : ℕ) × (u : ℕ) × (rest : List Entry) × (h ≡ (d, u) ∷ rest))
heap_cases [] = inl refl
heap_cases ((d, u) ∷ rest) = inr (d, u, rest, refl)

module _ (g : RoadGraph) (a m b : ℕ) where
  -- Where the loop stands when it ends: at an empty heap, or where the goal is popped.
  pub record Ended (bound : ℕ) (t : Search) : Type 0 where
    pub settled : ℕ → Bool
    pub low : ℕ
    pub depth : ℕ
    pub last : Search
    pub outer : Outer g a m b settled low depth last
    pub bounded : depth ≤ bound
    pub same_prev : t.prev ≡ last.prev
    pub stop : (last.heap ≡ []) ⊎ ((d : ℕ) × (heap : List Entry) × (last.heap ≡ (d, b) ∷ heap))

  search-none : (fuel : ℕ) (s : Search) → s.heap ≡ [] → search fuel g b m s ≡ some s
  unfolding search
  search-none zero s e = simp (e, search)
  search-none (suc fuel) s e = simp (e, search)

  search-visit :
      (fuel d u : ℕ) (heap : List Entry) (s s' : Search)
      → s.heap ≡ (d, u) ∷ heap
      → (u == b) ≡ false
      → visit g m d u (record s { heap = heap }) ≡ some s'
      → search (suc fuel) g b m s ≡ search fuel g b m s'
  unfolding search
  search-visit fuel d u heap s s' e other runs = simp (e, search, other, runs)

  ended :
      (heap : List Entry) (bound : ℕ) (settled : ℕ → Bool) (low depth : ℕ) (s : Search)
      → depth ≤ bound
      → Outer g a m b settled low depth s
      → (s.heap ≡ []) ⊎ ((d : ℕ) × (heap : List Entry) × (s.heap ≡ (d, b) ∷ heap))
      → Ended bound (record s { heap = heap })
  ended heap bound settled low depth s deep h stop = record {
    settled = settled;
    low = low;
    depth = depth;
    last = s;
    outer = h;
    bounded = deep;
    same_prev = refl;
    stop = stop;
  }

  -- With a round for each unit of work the loop ends.
  pub search-Ended :
      (fuel bound : ℕ) (settled : ℕ → Bool) (low depth : ℕ) (s : Search)
      → IsSound g
      → length s.heap + open_total settled g.adj ≤ fuel
      → depth + fuel ≤ bound
      → Outer g a m b settled low depth s
      → (t : Search) × (search fuel g b m s ≡ some t) × Ended bound t
  unfolding search
  search-Ended zero bound settled low depth s sound work deep h = elim (heap_cases s.heap) [
    | inl empty ↦ (
      s,
      search-none zero s empty,
      ended s.heap bound settled low depth s (omega arith) h (inl empty),
    )
    | inr (d, u, heap, e) ↦ absurd (omega (arith, ap length e))
  ]
  search-Ended (suc fuel) bound settled low depth s sound work deep h = elim (heap_cases s.heap) [
    | inl empty ↦ (
      s,
      search-none (suc fuel) s empty,
      ended s.heap bound settled low depth s (omega arith) h (inl empty),
    )
    | inr (d, u, heap, e) ↦ elim (Bool-cases (u == b)) [
      | inl goal ↦ (
        record s { heap = heap },
        rw (e, search, goal) refl,
        ended heap bound settled low depth s (omega arith) h
            (inr (d, heap, rw ((==_iff u b).0 goal) at e)),
      )
      | inr other ↦
          let (s', settled', low', runs, h', less) =
            visit-Outer g a m b settled low depth d u heap s sound (λ eq. ground arith) e h in
          let (t, ends, fin) =
            search-Ended fuel bound settled' low' (suc depth) s' sound (omega arith) (omega arith)
              h' in
          (t, search-visit fuel d u heap s s' e other runs ∙ ends, fin)
    ]
  ]
