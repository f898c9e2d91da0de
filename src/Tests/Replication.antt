-- ===== src/Tests/Replication.antt =====
-- Tests of replication_publish.py's model: a tree of two regions, and a day of publishing.
use mathlib.Core.List.{map}
use fwh_osm.Prelude.{
  ◌+◌, ◌&&◌, String, Bool, true, false, none, some, List, [], ◌∷◌, ◌≡◌, ◌≢◌, refl, arith, All, keep,
  has_name, str_eq, if◌then◌else◌,
}
use fwh_osm.Prelude.Int.{pos, negsuc}
use fwh_osm.Prelude.Result.{ok, err, replication_error}
use fwh_osm.Prelude.Text.{Text, codes, NoBreak, zfill, decimal}
use fwh_osm.Replication.Sequence.{sequence_path, path_sequence, diff_name, sequence_path_round_trip}
use fwh_osm.Replication.State.{escape_colons, format_state, parse_state}
use fwh_osm.Replication.State.Trip.{parse_state-format_sequence, parse_state-format_state}
use fwh_osm.Replication.Cut.{Osmium, done, failed, group_size, cut_diff_multi}
use fwh_osm.Replication.Cut.Passes.{WritesGroup, cut_diff_multi_total, cut_diff_multi_complete}
use fwh_osm.Replication.Upstream.{Upstream}
use fwh_osm.Replication.Disk.{
  write_state, write_extract_state, Disk, Region, Pbf, no_region, has_diff, write_pbf,
  change_region, region_state, extract_state, count_up,
}
use fwh_osm.Replication.Publish.{Env, visited, publish}
use fwh_osm.Replication.Publish.Covered.{IsCovered, IsTrusted}
use fwh_osm.Replication.Publish.Safety.{publish-IsCovered}
use fwh_osm.Replication.Extract.{
  set_anchor, ApplyChanges, written, install, anchor, apply_published,
}
use fwh_osm.Replication.Extract.Anchor.{anchor-IsCovered}
use fwh_osm.Replication.Extract.Apply.{apply_published_advances, apply_published_refuses_gap}
use fwh_osm.Replication.Extract.Stream.{here, next, rewritten, Reach-apply_published}

path-5090 : sequence_path (pos 5090) ≡ ok (codes "000/005/090")
unfolding sequence_path zfill
path-5090 = refl

sequence_path_round_trip_example :
    (path : Text) × (sequence_path (pos 5090) ≡ ok path) × (path_sequence path ≡ 5090)
sequence_path_round_trip_example = sequence_path_round_trip 5090 (omega arith)

abbrev stamp : Text
stamp = codes "2026-10-02T00:00:00Z"

state-5090 :
    format_state 5090 stamp ≡ codes "sequenceNumber=5090\ntimestamp=2026-10-02T00\\:00\\:00Z\n"
unfolding format_state decimal escape_colons
state-5090 = refl

stamp-NoBreak : NoBreak stamp
stamp-NoBreak = ground arith

parse_state-format_state_example : parse_state (format_state 5090 stamp) ≡ (some 5090, stamp)
parse_state-format_state_example = parse_state-format_state 5090 stamp stamp-NoBreak refl refl

-- Two regions at a time are killed; one at a time is cut.
abbrev tight : Osmium
tight pass (a ∷ []) = (done, a ∷ [])
tight pass [] = (done, [])
tight pass (a ∷ b ∷ rest) = (failed (negsuc 8), a ∷ [])

tight-WritesGroup : WritesGroup tight
tight-WritesGroup pass [] r e m = m
tight-WritesGroup pass (a ∷ []) r e m = m
tight-WritesGroup pass (a ∷ b ∷ rest) r e m = cc

abbrev has_polygon : String → Bool
has_polygon r = if str_eq r "asia" then false else true

cut-tight :
    cut_diff_multi tight has_polygon none ("africa" ∷ "asia" ∷ "europe" ∷ []) []
    ≡ some (ok ("africa" ∷ "europe" ∷ []))
unfolding cut_diff_multi group_size
cut-tight = refl

cut_diff_multi_total_example :
    cut_diff_multi tight has_polygon none ("africa" ∷ "asia" ∷ "europe" ∷ []) [] ≢ none
cut_diff_multi_total_example =
    cut_diff_multi_total tight has_polygon none ("africa" ∷ "asia" ∷ "europe" ∷ []) []

cut_diff_multi_complete_example :
    ◌≡◌ {A = List String}
      ("africa" ∷ "europe" ∷ [])
      (keep has_polygon ("africa" ∷ "asia" ∷ "europe" ∷ []))
cut_diff_multi_complete_example =
    cut_diff_multi_complete tight has_polygon none ("africa" ∷ "asia" ∷ "europe" ∷ []) []
      ("africa" ∷ "europe" ∷ []) tight-WritesGroup cut-tight

-- A server that is at 22 and has every diff.
abbrev server : Upstream
server = record {
  state_txt = some (codes "sequenceNumber=22\ntimestamp=2026-10-04T00\\:00\\:00Z\n");
  diff_state_txt = λ seq. none;
  download = λ seq. some 83;
}

abbrev env : Env
env = record {
  up = server;
  osmium = λ seq. tight;
  polys = has_polygon;
  avail = λ seq. none;
  left_over = λ seq. [];
  cut_size = λ seq r. 7;
  index_takes = λ idx seq. true;
  work = [];
  max_days = 7;
  dry_run = false;
  update_indexes = [];
}

abbrev with_dir : Region
with_dir = record no_region { is_dir = true }

abbrev bare_tree : Disk
bare_tree r = if str_eq r "africa" then with_dir else no_region

abbrev start_tree : Disk
start_tree = (anchor ("africa" ∷ []) 20 stamp bare_tree).0

anchor-IsCovered_example :
    (has_name "africa" ("africa" ∷ []) ≡ true
      → (bare_tree "africa").is_dir ≡ true
      → IsCovered (start_tree "africa"))
    × ((has_name "africa" ("africa" ∷ []) && (bare_tree "africa").is_dir) ≡ false
        → start_tree "africa" ≡ bare_tree "africa")
anchor-IsCovered_example =
    anchor-IsCovered ("africa" ∷ []) 20 stamp bare_tree "africa" stamp-NoBreak

start_tree-IsCovered : IsCovered (start_tree "africa")
start_tree-IsCovered = anchor-IsCovered_example.0 refl refl

start_tree-head : (region_state (start_tree "africa")).0 ≡ some 20
unfolding region_state anchor set_anchor write_state write_extract_state
start_tree-head = parse_state-format_sequence 20 stamp stamp-NoBreak

publish-IsCovered_example :
    IsCovered ((publish env ("africa" ∷ []) start_tree).1.disk "africa")
    × All
        (λ (tree : Disk). IsTrusted 20 (tree "africa"))
        (visited (publish env ("africa" ∷ []) start_tree).1)
publish-IsCovered_example =
    publish-IsCovered env ("africa" ∷ []) start_tree "africa" 20 refl start_tree-head
      start_tree-IsCovered

-- A region one day behind its head.
abbrev extract : Pbf
extract = record {
  header = record { sequence = some 20; timestamp = stamp; base_url = [] };
  bytes = 1;
  size = 9;
}

abbrev behind_region : Region
behind_region = record with_dir {
  pbf = some extract;
  state = some (format_state 21 stamp);
  extract = some (format_state 20 stamp);
  diffs = (diff_name 21, 7) ∷ [];
}

abbrev behind_tree : Disk
behind_tree r = if str_eq r "africa" then behind_region else no_region

behind-head : (region_state (behind_tree "africa")).0 ≡ some 21
unfolding region_state
behind-head = parse_state-format_sequence 21 stamp stamp-NoBreak

behind-extract : (extract_state (behind_tree "africa")).0 ≡ some 20
unfolding extract_state
behind-extract = parse_state-format_sequence 20 stamp stamp-NoBreak

has_diff-21 : has_diff ((diff_name 21, 7) ∷ []) (diff_name 21) ≡ true
unfolding has_diff diff_name zfill decimal
has_diff-21 = refl

behind-IsCovered : IsCovered (behind_tree "africa")
behind-IsCovered = record {
  anchored = λ e. cc behind-head;
  head = λ h x. record {
    at = λ e s y lo hi.
        let h_is : h ≡ 21 = ground (arith, behind-head) in
        let e_is : e ≡ 20 = ground (arith, behind-extract) in
        let s_is : s ≡ 21 = omega arith in rw s_is has_diff-21;
  };
}

abbrev applies : ApplyChanges
applies bytes diffs = written (bytes + 1) 10

apply_published_advances_example :
    let after = apply_published applies [] "africa" behind_tree in
    (after.0 ≡ ok (20, 21, 10))
    × ((new : Pbf) × ((after.1 "africa").pbf ≡ some new)
        × (new.header.sequence ≡ some 21)
        × (new.bytes ≡ 2))
    × ((extract_state (after.1 "africa")).0 ≡ some 21)
    × ((region_state (after.1 "africa")).0 ≡ some 21)
apply_published_advances_example =
    apply_published_advances applies [] "africa" behind_tree extract 20 21 2 10 refl behind-extract
      behind-head (omega arith) behind-IsCovered refl

abbrev newer_extract : Pbf
newer_extract = record extract { bytes = 5 }

abbrev rewritten_tree : Disk
rewritten_tree = change_region "africa" (write_pbf newer_extract) behind_tree

rewritten_head : (region_state (rewritten_tree "africa")).0 ≡ some 21
unfolding region_state write_pbf
rewritten_head = parse_state-format_sequence 21 stamp stamp-NoBreak

rewritten_extract : (extract_state (rewritten_tree "africa")).0 ≡ some 20
unfolding extract_state write_pbf
rewritten_extract = parse_state-format_sequence 20 stamp stamp-NoBreak

rewritten_pbf : (rewritten_tree "africa").pbf ≡ some newer_extract
unfolding write_pbf
rewritten_pbf = refl

Reach-apply_published_example :
    apply_published applies [] "africa" rewritten_tree
    ≡ install applies [] "africa" 20 21
        (region_state (rewritten_tree "africa")).1
        (applies 5 (map diff_name (count_up 21 1)))
        rewritten_tree
Reach-apply_published_example =
    Reach-apply_published "africa" behind_tree rewritten_tree applies [] newer_extract 20 21
      behind-IsCovered (next here (rewritten "africa" newer_extract)) rewritten_pbf
      rewritten_extract rewritten_head (omega arith)

-- The same region, whose only pending diff is gone.
abbrev torn_tree : Disk
torn_tree r = if str_eq r "africa" then record behind_region { diffs = [] } else no_region

torn-head : (region_state (torn_tree "africa")).0 ≡ some 21
unfolding region_state
torn-head = parse_state-format_sequence 21 stamp stamp-NoBreak

torn-extract : (extract_state (torn_tree "africa")).0 ≡ some 20
unfolding extract_state
torn-extract = parse_state-format_sequence 20 stamp stamp-NoBreak

torn-gap : has_diff (torn_tree "africa").diffs (diff_name 21) ≡ false
unfolding has_diff
torn-gap = refl

apply_published_refuses_gap_example :
    apply_published applies [] "africa" torn_tree ≡ (err replication_error, torn_tree)
apply_published_refuses_gap_example =
    apply_published_refuses_gap applies [] "africa" torn_tree extract 20 21 21 refl torn-extract
      torn-head (omega arith) (omega arith) torn-gap
