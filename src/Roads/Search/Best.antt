-- ===== src/Roads/Search/Best.antt =====
-- What `shortest_path` returns: a walk of the least length, or nothing where no walk leads there.
use fwh_osm.Prelude.{
  ℕ, zero, suc, ◌+◌, ◌≤◌, ◌≡◌, ◌≢◌, ◌⊎◌, inl, inr, refl, sym, Bool, true, false, some, List, [],
  ◌∷◌, ◌++◌, arith, ◌==◌, length, reversed, Bool-cases, Option-cases,
}
use fwh_osm.Prelude.Table.{find}
use fwh_osm.Roads.Graph.{RoadGraph}
use fwh_osm.Roads.Graph.Built.{IsSound}
use fwh_osm.Roads.Search.{Entry, Search, search_from, walk_back, path_to, rounds, shortest_path}
use fwh_osm.Roads.Search.Heap.{has_entry, IsOrdered, ordered_first}
use fwh_osm.Roads.Search.Relax.{IsStep, Trail}
use fwh_osm.Roads.Search.Rounds.{Outer, open_total-none}
use fwh_osm.Roads.Search.Ends.{Ended, search-Ended}

-- The edges `es`, each of a score of at least `m`, lead from `v` to `w`, and measure `total`.
abbrev pub Walk : RoadGraph → ℕ → List ℕ → ℕ → ℕ → ℕ → Type 0
Walk g m [] v w total = (v ≡ w) × (total ≡ 0)
Walk g m (eid ∷ es) v w total =
    (x : ℕ) × (len : ℕ) × (rest : ℕ) × IsStep g m v eid x len
    × (total ≡ len + rest)
    × Walk g m es x w rest

-- A walk from `a` to `b` than which no other is shorter.
pub record IsBest (g : RoadGraph) (m a b : ℕ) (path : List ℕ) : Type 0 where
  pub total : ℕ
  pub walk : Walk g m path a b total
  pub least : (es : List ℕ) (other : ℕ) → Walk g m es a b other → total ≤ other

Walk-append :
    (g : RoadGraph) (m eid len v u w : ℕ) (es : List ℕ) (total : ℕ)
    → Walk g m es v u total
    → IsStep g m u eid w len
    → Walk g m (es ++ eid ∷ []) v w (total + len)
Walk-append g m eid len v u w [] total (same, e) step =
    (w, len, 0, rw same step, omega arith, (refl, refl))
Walk-append g m eid len v u w (i ∷ es) total (x, l, rest, first, e, walk) step =
    (x, l, rest + len, first, omega arith, Walk-append g m eid len x u w es rest walk step)

Trail-Walk :
    (g : RoadGraph) (a m : ℕ) (settled : ℕ → Bool) (prev : List (ℕ × (ℕ × ℕ))) (es : List ℕ)
    (v d : ℕ)
    → Trail g a m settled prev es v d
    → Walk g m (reversed es) a v d
Trail-Walk g a m settled prev [] v d (same, e) = (ground arith, e)
Trail-Walk g a m settled prev (eid ∷ es) v d (away, u, du, len, at, seen, step, total, t) =
    rw total (
      Walk-append g m eid len a u v (reversed es) du (Trail-Walk g a m settled prev es u du t) step)

walk_back-Trail :
    (g : RoadGraph) (a m : ℕ) (settled : ℕ → Bool) (prev : List (ℕ × (ℕ × ℕ))) (fuel : ℕ)
    (es : List ℕ) (v d : ℕ)
    → length es ≤ fuel
    → Trail g a m settled prev es v d
    → walk_back fuel prev a v ≡ some es
unfolding walk_back
walk_back-Trail g a m settled prev zero [] v d short t = ground arith
walk_back-Trail g a m settled prev (suc fuel) [] v d short t = ground arith
walk_back-Trail g a m settled prev zero (eid ∷ es) v d short t = absurd (omega arith)
walk_back-Trail g a m settled prev (suc fuel) (eid ∷ es) v d short
      (away, u, du, len, at, seen, step, total, t) =
    ground (arith, walk_back-Trail g a m settled prev fuel es u du)

module _ (g : RoadGraph) (a m b : ℕ) where
  -- Along a walk from a settled node all nodes are settled and not farther than the walk, up to
  -- one that is as far as the least entry of the heap.
  far_or_settled :
      (settled : ℕ → Bool) (low depth least : ℕ) (s : Search) (es : List ℕ) (v w total d : ℕ)
      → Outer g a m b settled low depth s
      → ((d : ℕ) (v : ℕ) → has_entry d v s.heap ≡ true → least ≤ d)
      → settled v ≡ true
      → find v s.dist ≡ some d
      → Walk g m es v w total
      → (settled w ≡ true) ⊎ (least ≤ d + total)
  far_or_settled settled low depth least s [] v w total d h floor seen at (same, e) =
      inl (rw same at seen)
  far_or_settled settled low depth least s (eid ∷ es) v w total d h floor seen at
        (x, len, rest, step, e, walk) =
      let (y, at_x, le) = h.relaxed v d eid x len seen at step in
      elim (Bool-cases (settled x)) [
        | inl done ↦
            elim (far_or_settled settled low depth least s es x w rest y h floor done at_x walk) [
              | inl all ↦ inl all
              | inr far ↦ inr (omega arith)
            ]
        | inr waiting ↦ let k = floor y x (h.inv.pending x y at_x waiting) in inr (omega arith)
      ]

  -- So a walk to the goal, which is never settled, is at least as long.
  goal_bound :
      (settled : ℕ → Bool) (low depth least : ℕ) (s : Search) (es : List ℕ) (total : ℕ)
      → Outer g a m b settled low depth s
      → ((d : ℕ) (v : ℕ) → has_entry d v s.heap ≡ true → least ≤ d)
      → Walk g m es a b total
      → least ≤ total
  goal_bound settled low depth least s es total h floor walk = elim (Bool-cases (settled a)) [
    | inl done ↦
        elim (far_or_settled settled low depth least s es a b total 0 h floor done h.inv.started
          walk) [ inl reached ↦ ground (arith, h.goal_open) | inr far ↦ omega arith ]
    | inr waiting ↦ let k = floor 0 a (h.inv.pending a 0 h.inv.started waiting) in omega arith
  ]

  path_to-found :
      (fuel : ℕ) (t : Search) (eid u : ℕ) (es : List ℕ)
      → find b t.prev ≡ some (u, eid)
      → walk_back fuel t.prev a b ≡ some es
      → path_to fuel a b t ≡ some (reversed es)
  unfolding path_to
  path_to-found fuel t eid u es at back = simp (path_to, at, back)

  Trail-found :
      (settled : ℕ → Bool) (prev : List (ℕ × (ℕ × ℕ))) (es : List ℕ) (d : ℕ)
      → a ≢ b
      → Trail g a m settled prev es b d
      → (u : ℕ) × (eid : ℕ) × (find b prev ≡ some (u, eid))
  Trail-found settled prev [] d apart (same, _) = absurd (apart (sym same))
  Trail-found settled prev (eid ∷ es) d apart (_, u, _, _, at, _, _, _, _) = (u, eid, at)

  -- No entry of an ordered heap is less than the first.
  floor_first :
      (d u : ℕ) (heap : List Entry)
      → IsOrdered ((d, u) ∷ heap)
      → (d' v : ℕ) → has_entry d' v ((d, u) ∷ heap) ≡ true
      → d ≤ d'
  floor_first d u heap (first, o) d' v at = ground (arith, ordered_first d u d' v heap first)

  -- Where the goal is popped, its trail is a walk of the least length.
  popped_goal :
      (fuel : ℕ) (t : Search) (d : ℕ) (heap : List Entry)
      → a ≢ b
      → (end : Ended g a m b fuel t) → end.last.heap ≡ (d, b) ∷ heap
      → (path : List ℕ) × (path_to fuel a b t ≡ some path) × IsBest g m a b path
  popped_goal fuel t d heap apart end popped =
      let inv = end.outer.inv in
      let order : IsOrdered ((d, b) ∷ heap) = rw popped at inv.ordered in
      let floor = λ (d' v : ℕ) (at : has_entry d' v end.last.heap ≡ true).
        floor_first d b heap order d' v (rw popped at at) in
      let (known, at, le, _, _) = inv.entry_known d b (rw popped (ground arith)) in
      let exact : known ≡ d =
        omega (arith, floor known b (inv.pending b known at end.outer.goal_open)) in
      let (es, trail, short) = inv.trail b known at in
      let (u, eid, back) = Trail-found end.settled end.last.prev es known apart trail in
      (
        reversed es,
        path_to-found fuel t eid u es (rw end.same_prev back) (
            rw end.same_prev (
              walk_back-Trail g a m end.settled end.last.prev fuel es b known
                (omega (arith, end.bounded)) trail)),
        record {
          total = known;
          walk = Trail-Walk g a m end.settled end.last.prev es b known trail;
          least = λ es' other walk.
              rw exact (
                goal_bound end.settled end.low end.depth d end.last es' other end.outer floor walk);
        },
      )

  -- Behind the loop: the path of a goal that is reached, or none.
  path_to-Ended :
      (fuel : ℕ) (t : Search)
      → a ≢ b
      → Ended g a m b fuel t
      → ((path_to fuel a b t ≡ some []) × ((es : List ℕ) (total : ℕ) → Walk g m es a b total → ⊥))
        ⊎ ((path : List ℕ) × (path_to fuel a b t ≡ some path) × IsBest g m a b path)
  unfolding path_to
  path_to-Ended fuel t apart end = elim end.stop [
    | inl empty ↦
        let nothing = λ (d v : ℕ) (at : has_entry d v end.last.heap ≡ true).
          let no : has_entry d v [] ≡ true = rw empty at at in absurd (ground arith) in
        elim (Option-cases (find b end.last.dist)) [
          | inl unknown ↦ inl (
            ground (arith, end.same_prev, end.outer.inv.unknown b unknown),
            λ es total walk.
                let k =
                  goal_bound end.settled end.low end.depth (suc total) end.last es total end.outer
                    (λ d v at. absurd (nothing d v at)) walk in
                omega arith,
          )
          | inr (d, known) ↦
              absurd (nothing d b (end.outer.inv.pending b d known end.outer.goal_open))
        ]
    | inr (d, heap, popped) ↦ inr (popped_goal fuel t d heap apart end popped)
  ]

  start : Search
  start = record { dist = (a, 0) ∷ []; prev = []; heap = (0, a) ∷ [] }

  start-Outer : a ≢ b → Outer g a m b (λ _. false) 0 0 start
  unfolding start find
  start-Outer apart = record {
    inv = record {
      ordered = (tt, tt);
      entry_known = λ d v at. (0, ground arith, omega arith, omega arith, λ done. cc);
      pending = λ v d at _. ground arith;
      settled_known = λ v done. absurd (ground arith);
      started = ground arith;
      unknown = λ v at. refl;
      trail = λ v d at. ([], (ground arith, ground arith), omega arith);
    };
    relaxed = λ u d eid v len done at step. absurd (ground arith);
    goal_open = refl;
  }

  search_from-Ended :
      IsSound g → a ≢ b → (t : Search) × (search_from g a b m ≡ some t) × Ended g a m b (rounds g) t
  unfolding search_from start
  search_from-Ended sound apart =
      search-Ended g a m b (rounds g) (rounds g) (λ _. false) 0 0 start sound
        (omega (arith, open_total-none g.adj)) (omega arith) (start-Outer apart)

-- In a graph that `add_edge` built, between two different nodes, `shortest_path` ends without a
-- `KeyError`. It returns no edges exactly when no walk over edges of at least the given score leads
-- to the goal; otherwise a walk of such edges from the start to the goal, and no such walk is
-- shorter.
pub shortest_path-IsBest :
    (g : RoadGraph) (a b m : ℕ)
    → IsSound g
    → a ≢ b
    → ((shortest_path g a b m ≡ some []) × ((es : List ℕ) (total : ℕ) → Walk g m es a b total → ⊥))
      ⊎ ((path : List ℕ) × (shortest_path g a b m ≡ some path) × IsBest g m a b path)
unfolding shortest_path
shortest_path-IsBest g a b m sound apart =
    let (t, ends, end) = search_from-Ended g a m b sound apart in
    let other : (a == b) ≡ false = ground arith in
    elim (path_to-Ended g a m b (rounds g) t apart end) [
      | inl (none_found, unreachable) ↦ inl (rw (other, ends) none_found, unreachable)
      | inr (path, found, best) ↦ inr (path, rw (other, ends) found, best)
    ]
