-- ===== src/Roads/Search/Relax.antt =====
-- The inner loop of `shortest_path`: what holds of the distances, the predecessors and the heap,
-- while the edges of a settled node are relaxed.
use fwh_osm.Prelude.{
  ℕ, suc, ◌+◌, ◌≤◌, ◌<◌, ◌≡◌, ◌≢◌, refl, Bool, true, false, none, some, List, [], ◌∷◌, arith, ◌==◌,
  ltb, length, ==_iff, ◌∙◌, inl, inr, Bool-cases, Option-cases,
}
use fwh_osm.Prelude.Table.{find, put, listed, has_number, find-put}
use fwh_osm.Roads.Graph.{LogicalEdge, RoadGraph, other_end}
use fwh_osm.Roads.Search.{Search, heappush, less_than_known, relax_edge, relax}
use fwh_osm.Roads.Search.Heap.{
  has_entry, IsOrdered, has_entry-heappush, length-heappush, heappush-IsOrdered,
}

-- An edge of enough score, listed at `u`, leads from `u` to `v`.
pub record IsStep (g : RoadGraph) (m u eid v len : ℕ) : Type 0 where
  pub edge : LogicalEdge
  pub at_node : has_number eid (listed u g.adj) ≡ true
  pub stored : find eid g.edge_by_id ≡ some edge
  pub admitted : m ≤ edge.fc_score
  pub leads : other_end edge u ≡ v
  pub measured : edge.length_m ≡ len

module _ (g : RoadGraph) (a m : ℕ) where
  -- The predecessors lead from `v` back to the start through settled nodes.
  abbrev pub Trail : (ℕ → Bool) → List (ℕ × (ℕ × ℕ)) → List ℕ → ℕ → ℕ → Type 0
  Trail settled prev [] v d = (v ≡ a) × (d ≡ 0)
  Trail settled prev (eid ∷ es) v d =
      (v ≢ a)
      × (u : ℕ) × (du : ℕ) × (len : ℕ) × (find v prev ≡ some (u, eid))
      × (settled u ≡ true)
      × IsStep g m u eid v len
      × (d ≡ du + len)
      × Trail settled prev es u du

  -- `low` is the distance of the entry popped last; `depth` bounds the edges of a trail.
  pub record Inv (settled : ℕ → Bool) (low depth : ℕ) (s : Search) : Type 0 where
    pub ordered : IsOrdered s.heap
    pub entry_known :
        (d v : ℕ)
        → has_entry d v s.heap ≡ true
        → (known : ℕ) × (find v s.dist ≡ some known)
          × (known ≤ d)
          × (low ≤ d)
          × (settled v ≡ true → known < d)
    pub pending :
        (v d : ℕ) → find v s.dist ≡ some d → settled v ≡ false → has_entry d v s.heap ≡ true
    pub settled_known : (v : ℕ) → settled v ≡ true → (d : ℕ) × (find v s.dist ≡ some d) × (d ≤ low)
    pub started : find a s.dist ≡ some 0
    pub unknown : (v : ℕ) → find v s.dist ≡ none → find v s.prev ≡ none
    pub trail :
        (v d : ℕ)
        → find v s.dist ≡ some d
        → (es : List ℕ) × Trail settled s.prev es v d × (length es ≤ depth)

  -- A new predecessor of a node that is not settled leaves the other trails as they are.
  Trail-put :
      (settled : ℕ → Bool) (prev : List (ℕ × (ℕ × ℕ))) (v : ℕ) (p : ℕ × ℕ) (es : List ℕ) (w d : ℕ)
      → settled v ≡ false
      → w ≢ v
      → Trail settled prev es w d
      → Trail settled (put v p prev) es w d
  Trail-put settled prev v p [] w d new other t = t
  Trail-put settled prev v p (eid ∷ es) w d new other
        (away, u, du, len, back, seen, step, total, t) =
      let apart : u ≢ v = λ e. cc in
      (
        away,
        u,
        du,
        len,
        ground (arith, find-put v w p prev),
        seen,
        step,
        total,
        Trail-put settled prev v p es u du new apart t,
      )

  -- A shorter way to `v` over the settled node `u` is written down.
  abbrev pub shortened : ℕ → ℕ → ℕ → ℕ → Search → Search
  shortened u eid v nd s = record {
    dist = put v nd s.dist;
    prev = put v (u, eid) s.prev;
    heap = heappush (nd, v) s.heap;
  }

  module _ (settled : ℕ → Bool) (d depth u : ℕ) (es : List ℕ) where
    shortened-Inv :
        (eid v len : ℕ) (s : Search)
        → IsStep g m u eid v len
        → settled u ≡ true
        → length es ≤ depth
        → less_than_known (d + len) (find v s.dist) ≡ true
        → Trail settled s.prev es u d
        → Inv settled d (suc depth) s
        → (settled v ≡ false) × Inv settled d (suc depth) (shortened u eid v (d + len) s)
    shortened-Inv eid v len s step seen short closer t h =
        let new : settled v ≡ false = ground (arith, h.settled_known v) in
        let away : v ≢ a = λ e. ground (arith, h.started) in
        let apart : u ≢ v = λ e. cc in
        (
          new,
          record {
            ordered =
                heappush-IsOrdered (d + len) v s.heap (ground (arith, h.entry_known (d + len) v))
                  h.ordered;
            entry_known = λ d' w at. ground (
              arith,
              has_entry-heappush d' w (d + len) v s.heap,
              find-put v w (d + len) s.dist,
              h.entry_known d' w,
            );
            pending = λ w d' at unsettled. ground (
              arith,
              has_entry-heappush d' w (d + len) v s.heap,
              find-put v w (d + len) s.dist,
              h.pending w d',
            );
            settled_known =
                λ w done. ground (arith, find-put v w (d + len) s.dist, h.settled_known w done);
            started = ground (arith, find-put v a (d + len) s.dist, h.started);
            unknown = λ w at.
                ground
                  (arith, find-put v w (d + len) s.dist, find-put v w (u, eid) s.prev, h.unknown w);
            trail = λ w d' at. elim (Bool-cases (v == w)) [
              | inl same ↦ (
                eid ∷ es,
                (
                  λ e. ground arith,
                  u,
                  d,
                  len,
                  ground (arith, find-put v w (u, eid) s.prev),
                  seen,
                  rw ((==_iff v w).0 same) at step,
                  ground (arith, find-put v w (d + len) s.dist),
                  Trail-put settled s.prev v (u, eid) es u d new apart t,
                ),
                omega arith,
              )
              | inr other ↦
                  let (es', t', bound) =
                    h.trail w d' (ground (arith, find-put v w (d + len) s.dist)) in
                  (
                    es',
                    Trail-put settled s.prev v (u, eid) es' w d' new (λ e. ground arith) t',
                    bound,
                  )
            ];
          },
        )

    -- What the edges `eids` of the settled node `u` change from `s` to `t`.
    pub record Relaxed (eids : List ℕ) (s t : Search) : Type 0 where
      pub inv : Inv settled d (suc depth) t
      pub nearer : (v x : ℕ) → find v s.dist ≡ some x → (y : ℕ) × (find v t.dist ≡ some y) × (y ≤ x)
      pub kept : (v : ℕ) → settled v ≡ true → find v t.dist ≡ find v s.dist
      pub back : Trail settled t.prev es u d
      pub grown : length t.heap ≤ length s.heap + length eids
      pub reached :
          (eid v len : ℕ)
          → has_number eid eids ≡ true
          → IsStep g m u eid v len
          → (x : ℕ) × (find v t.dist ≡ some x) × (x ≤ d + len)

    relax_edge-Relaxed :
        (eid : ℕ) (e : LogicalEdge) (s : Search)
        → find eid g.edge_by_id ≡ some e
        → has_number eid (listed u g.adj) ≡ true
        → settled u ≡ true
        → length es ≤ depth
        → Trail settled s.prev es u d
        → Inv settled d (suc depth) s
        → Relaxed (eid ∷ []) s (relax_edge m d u eid e s)
    unfolding relax_edge has_number
    relax_edge-Relaxed eid e s found at seen short t h = elim (Bool-cases (ltb e.fc_score m)) [
      | inl low ↦ rw low record {
        inv = h;
        nearer = λ v x k. (x, k, omega arith);
        kept = λ v k. refl;
        back = t;
        grown = omega arith;
        reached = λ i v len own step.
            let same : step.edge ≡ e = ground (arith, step.stored) in
            absurd (ground (arith, step.admitted));
      }
      | inr enough ↦
          elim (Bool-cases (less_than_known (d + e.length_m) (find (other_end e u) s.dist))) [
            | inr far ↦
                rw (enough, far)
                  record {
                    inv = h;
                    nearer = λ v x k. (x, k, omega arith);
                    kept = λ v k. refl;
                    back = t;
                    grown = omega arith;
                    reached = λ i v len own step.
                        let same : step.edge ≡ e = ground (arith, step.stored) in
                        let to : other_end e u ≡ v = rw (← same) step.leads in
                        let long : e.length_m ≡ len = rw (← same) step.measured in
                        ground (arith, Option-cases (find v s.dist));
                  }
            | inl closer ↦
                let v = other_end e u in
                let len = e.length_m in
                let step : IsStep g m u eid v len = record {
                  edge = e;
                  at_node = at;
                  stored = found;
                  admitted = ground arith;
                  leads = refl;
                  measured = refl;
                } in
                let (new, h') = shortened-Inv eid v len s step seen short closer t h in
                let apart : u ≢ v = λ e. cc in
                rw (enough, closer)
                  record {
                    inv = h';
                    nearer = λ w x k. ground (arith, find-put v w (d + len) s.dist);
                    kept = λ w k. ground (arith, find-put v w (d + len) s.dist);
                    back = Trail-put settled s.prev v (u, eid) es u d new apart t;
                    grown = omega (arith, length-heappush (d + len, v) s.heap);
                    reached = λ i w l own step.
                        let same : step.edge ≡ e = ground (arith, step.stored) in
                        let to : other_end e u ≡ w = rw (← same) step.leads in
                        let long : e.length_m ≡ l = rw (← same) step.measured in
                        ground (arith, find-put v w (d + len) s.dist);
                  }
          ]
    ]

    -- In a graph whose listed ids are all stored, the loop raises no `KeyError`.
    pub relax-Relaxed :
        (eids : List ℕ) (s : Search)
        → ((eid : ℕ)
            → has_number eid eids ≡ true
            → (e : LogicalEdge) × (find eid g.edge_by_id ≡ some e))
        → ((eid : ℕ) → has_number eid eids ≡ true → has_number eid (listed u g.adj) ≡ true)
        → settled u ≡ true
        → length es ≤ depth
        → Trail settled s.prev es u d
        → Inv settled d (suc depth) s
        → (s' : Search) × (relax g.edge_by_id m d u eids s ≡ some s') × Relaxed eids s s'
    unfolding relax has_number
    relax-Relaxed [] s stored mem seen short t h = (
      s,
      refl,
      record {
        inv = h;
        nearer = λ v x k. (x, k, omega arith);
        kept = λ v k. refl;
        back = t;
        grown = omega arith;
        reached = λ i v len own step. cc;
      },
    )
    relax-Relaxed (eid ∷ eids) s stored mem seen short t h =
        let (e, found) = stored eid (ground arith) in
        let s1 = relax_edge m d u eid e s in
        let one = relax_edge-Relaxed eid e s found (mem eid (ground arith)) seen short t h in
        let (s2, runs, rest) =
          relax-Relaxed eids s1 (λ i k. stored i (ground arith)) (λ i k. mem i (ground arith)) seen
            short one.back one.inv in
        (
          s2,
          rw (found, relax) runs,
          record {
            inv = rest.inv;
            nearer = λ v x k.
                let (y, at, le) = one.nearer v x k in
                let (z, at', le') = rest.nearer v y at in (z, at', omega arith);
            kept = λ v k. rest.kept v k ∙ one.kept v k;
            back = rest.back;
            grown = omega (arith, one.grown, rest.grown);
            reached = λ i v len own step. elim (Bool-cases (eid == i)) [
              | inl same ↦
                  let (y, at, le) = one.reached i v len (ground arith) step in
                  let (z, at', le') = rest.nearer v y at in (z, at', omega arith)
              | inr other ↦ rest.reached i v len (ground arith) step
            ];
          },
        )
