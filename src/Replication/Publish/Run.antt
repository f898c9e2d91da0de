-- ===== src/Replication/Publish/Run.antt =====
-- The state of one call of `publish`, what it is given from outside, and its writes.
use fwh_osm.Prelude.{
  ℕ, ◌+◌, String, Bool, true, false, Option, List, [], ◌∷◌, ◌++◌, if◌then◌else◌, str_eq,
}
use fwh_osm.Prelude.Text.{Text}
use fwh_osm.Replication.State.{format_state}
use fwh_osm.Replication.Disk.{Disk, Region, change_region, move_diff, write_state, write_diff_state}
use fwh_osm.Replication.Upstream.{Upstream, Cache}
use fwh_osm.Replication.Cut.{Osmium}

pub data Reason : Type 0 where
  no_reason no_sequence current no_polygon : Reason
  no_output : ℕ → Reason

pub record RegionResult : Type 0 where
  pub published : List ℕ
  pub bytes_written : ℕ
  pub skipped : Bool
  pub reason : Reason

abbrev pub new_result : RegionResult
new_result = record { published = []; bytes_written = 0; skipped = false; reason = no_reason }

abbrev pub skipped_for : Reason → RegionResult
skipped_for why = record { published = []; bytes_written = 0; skipped = true; reason = why }

-- The arguments of the call, and what happens outside of it: the server, the osmium passes for each
-- sequence number, the polygons, the free memory, what the staging directory holds, the size of
-- each cut, and whether an index takes a diff.
pub record Env : Type 0 where
  pub up : Upstream
  pub osmium : ℕ → Osmium
  pub polys : String → Bool
  pub avail : ℕ → Option ℕ
  pub left_over : ℕ → List String
  pub cut_size : ℕ → String → ℕ
  pub index_takes : String → ℕ → Bool
  -- the upstream diffs that the work directory already holds
  pub work : Cache
  pub max_days : ℕ
  pub dry_run : Bool
  pub update_indexes : List String

pub record Run : Type 0 where
  pub disk : Disk
  pub history : List Disk
  pub cache : Cache
  pub per_region : String → RegionResult
  pub planet_bytes : ℕ
  pub index_errors : List (String × ℕ)
  pub days : ℕ
  pub to_sequence : ℕ

-- Every tree that was on the disk, the last one first.
abbrev pub visited : Run → List Disk
visited run = run.disk ∷ run.history

unfoldable pub write : String → (Region → Region) → Run → Run
write r f run = record run { disk = change_region r f run.disk; history = visited run }

abbrev pub change_result : String → (RegionResult → RegionResult) → Run → Run
change_result r g run = record run {
  per_region = λ q. if str_eq r q then g (run.per_region q) else run.per_region q;
}

unfoldable pub mark : String → Reason → Run → Run
mark r why = change_result r (λ p. record p { skipped = true; reason = why })

-- `Path.write_text` opens the file, which empties it, and then writes the text, in one piece: there is
-- a tree between the two.
unfoldable pub write_text : String → (Text → Region → Region) → Text → Run → Run
unfolding write
write_text r f text run = write r (f text) (write r (f []) run)

-- A cut diff goes into place; then `state.txt` and the diff's own state are written.
unfoldable pub land : ℕ → Text → ℕ → String → Run → Run
unfolding write write_text
land seq ts size r run =
    let moved = write r (move_diff seq size) run in
    let credited =
      change_result r
        (λ p. record p {
          published = p.published ++ seq ∷ [];
          bytes_written = p.bytes_written + size;
        })
        moved in
    write_text r (write_diff_state seq) (format_state seq ts)
      (write_text r write_state (format_state seq ts) credited)

-- Regions with no polygon are skipped for the rest of the run.
unfoldable pub mark_missing : (String → Bool) → List String → Run → Run
unfolding mark
mark_missing polys [] run = run
mark_missing polys (r ∷ rs) run =
    mark_missing polys rs (if polys r then run else mark r no_polygon run)
