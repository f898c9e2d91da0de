-- ===== src/PbfUpdate.antt =====
-- src/osm_geocoder/tools/_osm_tools/pbf_update.py: a cached extract brought up to date by diffs.
-- The copy that `localize` gives is taken to be the bytes of the entry. Pyosmium, and
-- `download_region` and `is_region_cached` of pbf_download.py, are parameters.
pub mod Budget
pub mod Diffed
use fwh_osm.Prelude.{
  ℕ, suc, ◌+◌, ◌-◌, ◌*◌, Bool, true, false, not, ◌&&◌, ◌||◌, Option, none, some, if◌then◌else◌, ltb,
  leb, is_empty,
}
use fwh_osm.Prelude.Result.{Result, ok, err, file_not_found, replication_error}
use fwh_osm.Prelude.Text.{Text}

-- A PBF: what its replication header says, and its size.
pub record Pbf : Type 0 where
  pub url : Text
  pub sequence : Option ℕ
  pub size : ℕ

-- The `.meta.json` beside an extract; `via_diff` is the note that its `extra` carries.
pub record Sidecar : Type 0 where
  pub sha256 : Text
  pub size_bytes : ℕ
  pub via_diff : Bool

-- The cache entry of the region, the scratch copy of a remote one, the file `.updated.pbf`, and
-- how often `download_region` was called.
pub record World : Type 0 where
  pub stored : Option Pbf
  pub scratch : Option Pbf
  pub out : Option Pbf
  pub sidecar : Option Sidecar
  pub downloads : ℕ

-- `apply_diffs_to_file`: an exception, which may leave its output, `None`, or the new file with the
-- last and the newest sequence number.
pub data Applied : Type 0 where
  raised : Option Pbf → Applied
  nothing : Option Pbf → Applied
  applied : Pbf → ℕ → ℕ → Applied

pub data Status : Type 0 where
  updated up_to_date stale no_baseline : Status

pub record AppliedDiffs : Type 0 where
  pub status : Status
  pub bytes_changed : ℕ

pub data Method : Type 0 where
  uncached current diff full too_stale without_baseline : Method

-- The method, the bytes, and `size` and `wasInCache` of the cache entry.
pub record UpdateResult : Type 0 where
  pub method : Method
  pub applied_bytes : ℕ
  pub size : ℕ
  pub was_in_cache : Bool

pub record Tools : Type 0 where
  pub apply_diffs : Pbf → ℕ → ℕ → Applied
  pub is_region_cached : World → Bool
  -- whether `localize` gives the cache entry itself
  pub is_local : Bool
  -- `download_region(force=True)`: the new world, and the size and `wasInCache` that it reports
  pub download_region : World → Result (ℕ × Bool) × World

abbrev pub size_of : Option Pbf → ℕ
size_of none = 0
size_of (some p) = p.size

abbrev pub difference : ℕ → ℕ → ℕ
difference a b = (a - b) + (b - a)

-- `_refresh_sidecar`: nothing without a hash to carry over, and nothing if the size of the local
-- file cannot be read: that exception is logged.
unfoldable pub refreshed : Option Sidecar → Option Pbf → Option Sidecar
refreshed none p = none
refreshed (some old) none = some old
refreshed (some old) (some p) =
    if is_empty old.sha256
    then some old
    else some (record { sha256 = old.sha256; size_bytes = p.size; via_diff = true })

module _ (tools : Tools) where
  -- `local_pbf`
  unfoldable pub local_pbf : World → Option Pbf
  local_pbf w = if tools.is_local then w.stored else w.scratch

  unfoldable pub set_local : Option Pbf → World → World
  set_local p w = if tools.is_local then record w { stored = p } else record w { scratch = p }

  -- `storage.localize(dst)`
  unfoldable pub localize : World → World
  localize w = if tools.is_local then w else record w { scratch = w.stored }

  -- Behind `apply_diffs_to_file`, for the extract `p`.
  unfoldable pub swap_in : Pbf → Applied → World → Result AppliedDiffs × World
  unfolding set_local
  swap_in p (raised left) w = (err replication_error, record w { out = left })
  swap_in p (nothing left) w =
      (ok (record { status = up_to_date; bytes_changed = 0 }), record w { out = none })
  swap_in p (applied new last newest) w = (
    ok (record {
      status = if ltb last newest then stale else updated;
      bytes_changed = difference new.size p.size;
    }),
    set_local (some new) (record w { out = none }),
  )

  unfoldable pub from_sequence : ℕ → Pbf → Option ℕ → World → Result AppliedDiffs × World
  unfolding swap_in
  from_sequence max_diff_mb p none w = (ok (record { status = no_baseline; bytes_changed = 0 }), w)
  from_sequence max_diff_mb p (some seq) w =
      if is_empty p.url
      then (ok (record { status = no_baseline; bytes_changed = 0 }), w)
      else swap_in p (tools.apply_diffs p (suc seq) (max_diff_mb * 1024)) (record w { out = none })

  unfoldable pub apply_to : ℕ → Option Pbf → World → Result AppliedDiffs × World
  unfolding from_sequence
  apply_to max_diff_mb none w = (err file_not_found, w)
  apply_to max_diff_mb (some p) w = from_sequence max_diff_mb p p.sequence w

  unfoldable pub apply_geofabrik_diffs : ℕ → World → Result AppliedDiffs × World
  unfolding apply_to local_pbf
  apply_geofabrik_diffs max_diff_mb w = apply_to max_diff_mb (local_pbf w) w

  unfoldable pub refresh_sidecar : World → World
  unfolding refreshed local_pbf
  refresh_sidecar w = record w { sidecar = refreshed w.sidecar (local_pbf w) }

  -- `storage.finalize_from_local(local_pbf, dst)`: the file is moved into the store.
  unfoldable pub finalize : World → World
  finalize w = if tools.is_local then w else record w { stored = w.scratch; scratch = none }

  -- `download_region(region_path, force=True)`, and its report
  unfoldable pub full_download : World → Result UpdateResult × World
  full_download w =
      let (r, w') = tools.download_region w in
      (
        elim r [
          | err e ↦ err e
          | ok (size, was_in_cache) ↦ ok (record {
            method = full;
            applied_bytes = size;
            size = size;
            was_in_cache = was_in_cache;
          })
        ],
        record w' { downloads = suc w.downloads },
      )

  unfoldable pub report : Method → ℕ → Bool → World → Result UpdateResult × World
  unfolding local_pbf
  report method bytes was_in_cache w = (
    ok (record {
      method = method;
      applied_bytes = bytes;
      size = size_of (local_pbf w);
      was_in_cache = was_in_cache;
    }),
    w,
  )

  unfoldable pub fall_back : (diff_only : Bool) → Method → World → Result UpdateResult × World
  unfolding report full_download
  fall_back true method w = report method 0 true w
  fall_back false method w = full_download w

  -- Behind `_apply_geofabrik_diffs`.
  unfoldable pub by_status : (diff_only : Bool) → Status → ℕ → World → Result UpdateResult × World
  unfolding report refresh_sidecar finalize fall_back
  by_status diff_only up_to_date bytes w = report current 0 true w
  by_status diff_only updated bytes w = report diff bytes false (refresh_sidecar (finalize w))
  by_status diff_only stale bytes w = fall_back diff_only too_stale w
  by_status diff_only no_baseline bytes w = fall_back diff_only without_baseline w

  unfoldable pub with_applied :
      (diff_only : Bool) → Result AppliedDiffs → World → Result UpdateResult × World
  unfolding by_status
  with_applied diff_only (err e) w = (err e, w)
  with_applied diff_only (ok a) w = by_status diff_only a.status a.bytes_changed w

  -- An entry that is not cached has no local file, so its size is 0 unless the file is there.
  unfoldable pub update_uncached : (diff_only : Bool) → World → Result UpdateResult × World
  unfolding full_download
  update_uncached true w = (
    ok (record {
      method = uncached;
      applied_bytes = 0;
      size = if tools.is_local then size_of w.stored else 0;
      was_in_cache = false;
    }),
    w,
  )
  update_uncached false w = full_download w

  unfoldable pub update_region : ℕ → (diff_only : Bool) → World → Result UpdateResult × World
  unfolding update_uncached with_applied apply_geofabrik_diffs localize
  update_region max_diff_mb diff_only w =
      if tools.is_region_cached w
      then (let (result, w') = apply_geofabrik_diffs max_diff_mb (localize w) in
          with_applied diff_only result w')
      else update_uncached diff_only w
