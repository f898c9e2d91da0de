-- ===== src/Replication/Extract/Anchor.antt =====
-- `anchor` sets the baseline of the regions that have their directory, and of no other.
use fwh_osm.Prelude.{
  ℕ, String, true, false, ◌&&◌, List, [], ◌∷◌, ◌≡◌, refl, arith, str_eq, str_eq_iff, Bool-cases,
  inl, inr, if◌then◌else◌, has_name, ap,
}
use fwh_osm.Prelude.Text.{Text, NoBreak}
use fwh_osm.Replication.State.Trip.{parse_state-format_sequence}
use fwh_osm.Replication.Disk.{
  Disk, Region, write_state, write_extract_state, region_state, extract_state, change_region,
}
use fwh_osm.Replication.Publish.Covered.{IsCovered}
use fwh_osm.Replication.Extract.{set_anchor, anchor}

set_anchor_idem :
    (seq : ℕ) (ts : Text) (d : Region)
    → set_anchor seq ts (set_anchor seq ts d) ≡ set_anchor seq ts d
unfolding set_anchor write_state write_extract_state
set_anchor_idem seq ts d = refl

set_anchor-is_dir : (seq : ℕ) (ts : Text) (d : Region) → (set_anchor seq ts d).is_dir ≡ d.is_dir
unfolding set_anchor write_state write_extract_state
set_anchor-is_dir seq ts d = refl

-- A region named in the call is anchored exactly if it has its directory; all else stays.
anchor-region :
    (regions : List String) (seq : ℕ) (ts : Text) (disk : Disk) (q : String)
    → (anchor regions seq ts disk).0 q
      ≡ (if has_name q regions && (disk q).is_dir then set_anchor seq ts (disk q) else disk q)
unfolding anchor
anchor-region [] seq ts disk q = refl
anchor-region (r ∷ rs) seq ts disk q = elim (Bool-cases (str_eq r q)) [
  | inl same ↦
      let here = ap disk ((str_eq_iff r q).0 same) in
      ground (
        arith,
        here,
        anchor-region rs seq ts (change_region r (set_anchor seq ts) disk) q,
        anchor-region rs seq ts disk q,
        set_anchor_idem seq ts (disk q),
        set_anchor-is_dir seq ts (disk q),
      )
  | inr other ↦ ground (
    arith,
    anchor-region rs seq ts (change_region r (set_anchor seq ts) disk) q,
    anchor-region rs seq ts disk q,
  )
]

set_anchor-IsCovered :
    (seq : ℕ) (ts : Text) (d : Region) → NoBreak ts → IsCovered (set_anchor seq ts d)
unfolding set_anchor write_state write_extract_state region_state extract_state
set_anchor-IsCovered seq ts d nb =
    let read = parse_state-format_sequence seq ts nb in
    record {
      anchored = λ x. ground (arith, read);
      head = λ h x. record {
        at = λ e s y lo hi.
            let e_is : e ≡ seq = ground (arith, read) in
            let h_is : h ≡ seq = ground (arith, read) in absurd (omega arith);
      };
    }

-- After `anchor` with a timestamp of one line, each named region that has its updates directory
-- starts a stream with no hole, and no other region is touched.
pub anchor-IsCovered :
    (regions : List String) (seq : ℕ) (ts : Text) (disk : Disk) (q : String)
    → NoBreak ts
    → (has_name q regions ≡ true
        → (disk q).is_dir ≡ true
        → IsCovered ((anchor regions seq ts disk).0 q))
      × ((has_name q regions && (disk q).is_dir) ≡ false
          → (anchor regions seq ts disk).0 q ≡ disk q)
anchor-IsCovered regions seq ts disk q nb = (
  λ named there.
      let here : (anchor regions seq ts disk).0 q ≡ set_anchor seq ts (disk q) =
        ground (arith, anchor-region regions seq ts disk q) in
      rw here (set_anchor-IsCovered seq ts (disk q) nb),
  λ spared. ground (arith, anchor-region regions seq ts disk q),
)
