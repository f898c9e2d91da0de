-- ===== src/Roads/Topology/Chains/Extends.antt =====
-- Extending a chain: it ends, it uses each segment at most once, and it takes over the way ids of the
-- segments that it uses.
use fwh_osm.Prelude.{
  ℕ, zero, suc, ◌+◌, ◌<◌, ◌≡◌, refl, sym, ◌∙◌, append_none, append_assoc, Bool, true, false, Option,
  some, List, [], ◌∷◌, ◌++◌, arith, if◌then◌else◌, ◌==◌, length, get_elem?, get_elem?-set, set,
  length-set, last_or, Option-cases, inl, inr,
}
use fwh_osm.Prelude.Table.{listed}
use fwh_osm.Prelude.Sets.{count, count-append}
use fwh_osm.Roads.Ways.{WayData}
use fwh_osm.Roads.Topology.{Segment}
use fwh_osm.Roads.Topology.Chains.{Meeting, Next, Chain, attach, next_of, extend}
use fwh_osm.Roads.Topology.Chains.Finds.{InRange, IsNext, find_next-IsNext}

-- How many segments are not used.
abbrev pub free : List Bool → ℕ
free [] = 0
free (b ∷ bs) = (if b then 0 else 1) + free bs

-- How many segments of the way `id` are used.
abbrev pub taken : ℕ → List Segment → List Bool → ℕ
taken id [] bs = 0
taken id (s ∷ segs) [] = 0
taken id ((s, wd) ∷ segs) (b ∷ bs) =
    (if b then if wd.way_id == id then 1 else 0 else 0) + taken id segs bs

pub free-set :
    (bs : List Bool) (i : ℕ) → get_elem? bs i ≡ some false → suc (free (set bs i true)) ≡ free bs
free-set [] i e = cc
free-set (b ∷ bs) zero e = ground arith
free-set (b ∷ bs) (suc i) e = ground (arith, free-set bs i e)

pub taken-set :
    (id : ℕ) (segs : List Segment) (bs : List Bool) (i : ℕ) (s : List ℕ) (wd : WayData)
    → get_elem? bs i ≡ some false
    → get_elem? segs i ≡ some (s, wd)
    → taken id segs (set bs i true) ≡ (if wd.way_id == id then 1 else 0) + taken id segs bs
taken-set id [] bs i s wd e at = cc
taken-set id (g ∷ segs) [] i s wd e at = cc
taken-set id ((s', wd') ∷ segs) (b ∷ bs) zero s wd e at =
    let same : wd' ≡ wd = ground arith in rw same (ground arith)
taken-set id ((s', wd') ∷ segs) (b ∷ bs) (suc i) s wd e at =
    omega (arith, taken-set id segs bs i s wd e at)

-- What `extend` changes: the flags and the chain.
pub record IsExtended (segments : List Segment) (used : List Bool) (c : Chain) (used' : List Bool)
    (c' : Chain) : Type 0 where
  pub size : length used' ≡ length used
  pub later : (i : ℕ) → get_elem? used i ≡ some true → get_elem? used' i ≡ some true
  pub conserved :
      (id : ℕ)
      → count id c'.chain_ways + taken id segments used
        ≡ count id c.chain_ways + taken id segments used'
  pub same_origin : c'.origin ≡ c.origin
  pub longer : (added : List ℕ) × (c'.chain_nodes ≡ c.chain_nodes ++ added)

lt_of_get_elem? : (bs : List Bool) (i : ℕ) (b : Bool) → get_elem? bs i ≡ some b → i < length bs
lt_of_get_elem? [] i b e = cc
lt_of_get_elem? (x ∷ bs) zero b e = omega arith
lt_of_get_elem? (x ∷ bs) (suc i) b e = omega (arith, lt_of_get_elem? bs i b e)

module _ (segments : List Segment) (t : List (ℕ × List Meeting)) where
  IsExtended-refl : (used : List Bool) (c : Chain) → IsExtended segments used c used c
  IsExtended-refl used c = record {
    size = refl;
    later = λ i e. e;
    conserved = λ id. refl;
    same_origin = refl;
    longer = ([], sym (append_none c.chain_nodes));
  }

  IsExtended-attach :
      (used : List Bool) (c : Chain) (degree tail : ℕ) (n : Next) (used' : List Bool) (c' : Chain)
      → IsNext segments used degree c.origin.fc tail n
      → IsExtended segments (set used n.index true) (attach n c) used' c'
      → IsExtended segments used c used' c'
  unfolding attach
  IsExtended-attach used c degree tail n used' c' k more =
      let free_at = lt_of_get_elem? used n.index false k.unused in
      record {
        size = omega (arith, more.size, length-set used n.index true);
        later = λ i at. more.later i (ground (arith, get_elem?-set used n.index i true));
        conserved = λ id. ground (
          arith,
          more.conserved id,
          taken-set id segments used n.index k.nodes n.data_of k.unused k.stored,
          count-append id c.chain_ways (n.data_of.way_id ∷ []),
        );
        same_origin = more.same_origin;
        longer = (
          n.added ++ more.longer.0,
          more.longer.1 ∙ append_assoc c.chain_nodes n.added more.longer.0,
        );
      }

  extend-next :
      (fuel : ℕ) (used : List Bool) (c : Chain) (r : Option Next) (n : Next)
      → next_of segments t used c ≡ some r
      → r ≡ some n
      → extend segments t (suc fuel) used c
        ≡ extend segments t fuel (set used n.index true) (attach n c)
  unfolding extend
  extend-next fuel used c r n runs e = simp (extend, runs, e)

  next_of-IsNext :
      (used : List Bool) (c : Chain)
      → length used ≡ length segments
      → InRange (length segments) t
      → (r : Option Next) × (next_of segments t used c ≡ some r)
        × ((n : Next)
            → r ≡ some n
            → IsNext segments used
                (length (listed (last_or 0 c.chain_nodes) t))
                c.origin.fc
                (last_or 0 c.chain_nodes)
                n)
  unfolding next_of
  next_of-IsNext used c same h =
      let tail = last_or 0 c.chain_nodes in
      find_next-IsNext segments used (length (listed tail t)) c.origin.fc tail (listed tail t) same
        (h tail)

  -- With more rounds than free segments the loop ends.
  pub extend-IsExtended :
      (fuel : ℕ) (used : List Bool) (c : Chain)
      → length used ≡ length segments
      → InRange (length segments) t
      → free used < fuel
      → (used' : List Bool) × (c' : Chain) × (extend segments t fuel used c ≡ some (used', c'))
        × IsExtended segments used c used' c'
  unfolding extend
  extend-IsExtended zero used c same h less = absurd (omega arith)
  extend-IsExtended (suc fuel) used c same h less =
      let (r, runs, found) = next_of-IsNext used c same h in
      elim (Option-cases r) [
        | inl last ↦ (used, c, simp (extend, runs, last), IsExtended-refl used c)
        | inr (n, e) ↦
            let k = found n e in
            let (used', c', goes, more) =
              extend-IsExtended fuel (set used n.index true) (attach n c)
                (length-set used n.index true ∙ same) h
                (omega (arith, free-set used n.index k.unused)) in
            (
              used',
              c',
              extend-next fuel used c r n runs e ∙ goes,
              IsExtended-attach used c _ _ n used' c' k more,
            )
      ]
