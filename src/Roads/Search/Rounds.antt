-- ===== src/Roads/Search/Rounds.antt =====
-- The outer loop of `shortest_path`: each round settles a node or drops an entry, so it ends.
use fwh_osm.Prelude.{
  ℕ, suc, ◌+◌, ◌≤◌, ◌≡◌, ◌≢◌, inl, inr, refl, ap, Bool, true, false, some, List, [], ◌∷◌, arith,
  ◌==◌, ==_iff, length, if◌then◌else◌, Bool-cases, All,
}
use fwh_osm.Prelude.Table.{find, listed}
use fwh_osm.Roads.Graph.{RoadGraph}
use fwh_osm.Roads.Graph.Built.{IsSound}
use fwh_osm.Roads.Search.{Entry, Search, more_than_known, visit, listed_total, entry_less}
use fwh_osm.Roads.Search.Heap.{has_entry, IsOrdered, ordered_first}
use fwh_osm.Roads.Search.Relax.{IsStep, Trail, Inv, relax-Relaxed}

abbrev pub mark : ℕ → (ℕ → Bool) → ℕ → Bool
mark u settled v = if u == v then true else settled v

-- The lengths of the adjacency lists of the nodes that are not settled, added up.
abbrev pub open_total : (ℕ → Bool) → List (ℕ × List ℕ) → ℕ
open_total settled [] = 0
open_total settled ((v, eids) ∷ t) = (if settled v then 0 else length eids) + open_total settled t

open_total-mark_le :
    (settled : ℕ → Bool) (u : ℕ) (t : List (ℕ × List ℕ))
    → open_total (mark u settled) t ≤ open_total settled t
open_total-mark_le settled u [] = omega arith
open_total-mark_le settled u ((v, eids) ∷ t) = ground (arith, open_total-mark_le settled u t)

open_total-mark :
    (settled : ℕ → Bool) (u : ℕ) (t : List (ℕ × List ℕ))
    → settled u ≡ false
    → length (listed u t) + open_total (mark u settled) t ≤ open_total settled t
unfolding listed
open_total-mark settled u [] h = omega arith
open_total-mark settled u ((v, eids) ∷ t) h =
    ground (arith, open_total-mark settled u t h, open_total-mark_le settled u t)

pub open_total-none : (t : List (ℕ × List ℕ)) → open_total (λ _. false) t ≡ listed_total t
unfolding listed_total
open_total-none [] = refl
open_total-none ((v, eids) ∷ t) = omega (arith, open_total-none t)

-- Settled nodes pass on their distance.
abbrev pub IsRelaxed : RoadGraph → ℕ → (ℕ → Bool) → Search → Type 0
IsRelaxed g m settled s =
    (u d eid v len : ℕ)
    → settled u ≡ true
    → find u s.dist ≡ some d
    → IsStep g m u eid v len
    → (x : ℕ) × (find v s.dist ≡ some x) × (x ≤ d + len)

module _ (g : RoadGraph) (a m b : ℕ) where
  pub record Outer (settled : ℕ → Bool) (low depth : ℕ) (s : Search) : Type 0 where
    pub inv : Inv g a m settled low depth s
    pub relaxed : IsRelaxed g m settled s
    pub goal_open : settled b ≡ false

  -- The entry that is popped, when it is not out of date, belongs to a node that is not settled.
  popped_open :
      (settled : ℕ → Bool) (low depth d u : ℕ) (heap : List Entry) (s : Search)
      → s.heap ≡ (d, u) ∷ heap
      → Inv g a m settled low depth s
      → more_than_known d (find u s.dist) ≡ false
      → (find u s.dist ≡ some d)
        × (settled u ≡ false)
        × (low ≤ d)
        × IsOrdered heap
        × All (λ y. entry_less (d, u) y ≡ true) heap
  popped_open settled low depth d u heap s e h live =
      let (known, at, le, low_le, strict) = h.entry_known d u (rw e (ground arith)) in
      let o : IsOrdered ((d, u) ∷ heap) = rw e at h.ordered in
      (ground arith, ground (arith, Bool-cases (settled u)), low_le, o.1, o.0)

  -- Popping an entry that is out of date.
  drop_stale :
      (settled : ℕ → Bool) (low depth d u : ℕ) (heap : List Entry) (s : Search)
      → s.heap ≡ (d, u) ∷ heap
      → Inv g a m settled low depth s
      → more_than_known d (find u s.dist) ≡ true
      → Inv g a m settled low depth (record s { heap = heap })
  drop_stale settled low depth d u heap s e h stale =
      let o : IsOrdered ((d, u) ∷ heap) = rw e at h.ordered in
      record {
        ordered = o.1;
        entry_known = λ d' v at. h.entry_known d' v (rw e (ground arith));
        pending = λ v d' at unsettled.
            let p : has_entry d' v ((d, u) ∷ heap) ≡ true = rw e at (h.pending v d' at unsettled) in
            ground arith;
        settled_known = h.settled_known;
        started = h.started;
        unknown = h.unknown;
        trail = h.trail;
      }

  -- More settled nodes make no trail worse.
  Trail-mark :
      (settled : ℕ → Bool) (prev : List (ℕ × (ℕ × ℕ))) (u : ℕ) (es : List ℕ) (v d : ℕ)
      → Trail g a m settled prev es v d
      → Trail g a m (mark u settled) prev es v d
  Trail-mark settled prev u [] v d t = t
  Trail-mark settled prev u (eid ∷ es) v d (away, w, dw, len, at, seen, step, total, t) =
      (away, w, dw, len, at, ground arith, step, total, Trail-mark settled prev u es w dw t)

  -- Popping an entry that is up to date settles its node.
  settle :
      (settled : ℕ → Bool) (low depth d u : ℕ) (heap : List Entry) (s : Search)
      → s.heap ≡ (d, u) ∷ heap
      → Inv g a m settled low depth s
      → more_than_known d (find u s.dist) ≡ false
      → Inv g a m (mark u settled) d (suc depth) (record s { heap = heap })
  settle settled low depth d u heap s e h live =
      let (at_u, fresh, low_le, o, first) = popped_open settled low depth d u heap s e h live in
      record {
        ordered = o;
        entry_known = λ d' v at.
            let (known, at_v, le, low_le', strict) = h.entry_known d' v (rw e (ground arith)) in
            let less = ordered_first d u d' v heap first at in
            (known, at_v, le, ground arith, λ done. ground arith);
        pending = λ v d' at unsettled.
            let p : has_entry d' v ((d, u) ∷ heap) ≡ true =
              rw e at (h.pending v d' at (ground arith)) in
            ground arith;
        settled_known = λ v done. elim (Bool-cases (u == v)) [
          | inl same ↦ (d, rw ((==_iff u v).0 same) at at_u, omega arith)
          | inr other ↦
              let (known, at, le) = h.settled_known v (ground arith) in (known, at, omega arith)
        ];
        started = h.started;
        unknown = h.unknown;
        trail = λ v d' at.
            let (es, t, short) = h.trail v d' at in
            (es, Trail-mark settled s.prev u es v d' t, omega arith);
      }

  -- A bound on the trails may be raised.
  deeper :
      (settled : ℕ → Bool) (low depth : ℕ) (s : Search)
      → Inv g a m settled low depth s
      → Inv g a m settled low (suc depth) s
  deeper settled low depth s h = record {
    ordered = h.ordered;
    entry_known = h.entry_known;
    pending = h.pending;
    settled_known = h.settled_known;
    started = h.started;
    unknown = h.unknown;
    trail = λ v d at. let (es, t, short) = h.trail v d at in (es, t, omega arith);
  }

  -- One round: the invariant holds again, and the work that is left is less.
  pub visit-Outer :
      (settled : ℕ → Bool) (low depth d u : ℕ) (heap : List Entry) (s : Search)
      → IsSound g
      → u ≢ b
      → s.heap ≡ (d, u) ∷ heap
      → Outer settled low depth s
      → (t : Search) × (settled' : ℕ → Bool) × (low' : ℕ) × (visit g m d u
            (record s { heap = heap })
          ≡ some t)
        × Outer settled' low' (suc depth) t
        × (suc (length t.heap + open_total settled' g.adj)
            ≤ length s.heap + open_total settled g.adj)
  unfolding visit
  visit-Outer settled low depth d u heap s sound apart e h =
      elim (Bool-cases (more_than_known d (find u s.dist))) [
        | inl stale ↦
            let k = drop_stale settled low depth d u heap s e h.inv stale in
            (
              record s { heap = heap },
              settled,
              low,
              rw stale refl,
              record {
                inv = deeper settled low depth _ k;
                relaxed = h.relaxed;
                goal_open = h.goal_open;
              },
              omega (arith, ap length e),
            )
        | inr live ↦
            let (at_u, fresh, _, _, _) = popped_open settled low depth d u heap s e h.inv live in
            let k = settle settled low depth d u heap s e h.inv live in
            let (es, t, short) = h.inv.trail u d at_u in
            let (s', runs, r) =
              relax-Relaxed g a m (mark u settled) d depth u es (listed u g.adj)
                (record s { heap = heap })
                (λ eid at. let (e', found, _, _) = sound.listed_at u eid at in (e', found))
                (λ eid at. at) (ground arith) short (Trail-mark settled s.prev u es u d t) k in
            (
              s',
              mark u settled,
              d,
              rw live runs,
              record {
                inv = r.inv;
                relaxed = λ w dw eid v len done at step. elim (Bool-cases (u == w)) [
                  | inl same ↦
                      let back : w ≡ u = ground arith in
                      let at' : find w s.dist ≡ some dw = ground (arith, r.kept w done) in
                      let (x, at_v, le) =
                        r.reached eid v len (rw back at step.at_node) (rw back at step) in
                      (x, at_v, ground arith)
                  | inr other ↦
                      let (x, at_v, le) =
                        h.relaxed w dw eid v len (ground arith) (ground (arith, r.kept w done))
                          step in
                      let (y, at_y, le') = r.nearer v x at_v in (y, at_y, omega arith)
                ];
                goal_open = ground (arith, h.goal_open);
              },
              omega (arith, ap length e, r.grown, open_total-mark settled u g.adj fresh),
            )
      ]
