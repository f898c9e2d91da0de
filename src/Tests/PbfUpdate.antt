-- ===== src/Tests/PbfUpdate.antt =====
-- A cached extract, local and remote, that a server brings up to date.
use fwh_osm.Prelude.{ℕ, Bool, true, false, none, some, refl, is_some}
use fwh_osm.Prelude.Result.{ok}
use fwh_osm.Prelude.Text.{Text, codes}
use fwh_osm.PbfUpdate.{
  Pbf, World, applied, diff, Tools, local_pbf, set_local, localize, swap_in, from_sequence,
  apply_to, apply_geofabrik_diffs, refreshed, refresh_sidecar, finalize, report, by_status,
  with_applied, update_region,
}
use fwh_osm.PbfUpdate.Budget.{IsSpared, update_region_spares}
use fwh_osm.PbfUpdate.Diffed.{IsDiff, update_region_diff}

abbrev old : Pbf
old = record { url = codes "https://h/u"; sequence = some 10; size = 100 }

abbrev new : Pbf
new = record { url = codes "https://h/u"; sequence = some 12; size = 130 }

abbrev hash : Text
hash = codes "ab12"

abbrev start : World
start = record {
  stored = some old;
  scratch = none;
  out = none;
  sidecar = some (record { sha256 = hash; size_bytes = 100; via_diff = false });
  downloads = 0;
}

-- One server that catches up, and one that stays behind.
abbrev tools : Bool → ℕ → Tools
tools here last = record {
  apply_diffs = λ p s k. applied new last 12;
  is_region_cached = λ w. is_some w.stored;
  is_local = here;
  download_region = λ w. (ok (200, false), w);
}

update_region_spares_example :
    IsSpared (tools true 11) start (update_region (tools true 11) 512 true start)
update_region_spares_example = update_region_spares (tools true 11) 512 start

abbrev remote_end : World
remote_end = record start { stored = some new }

update_region_diff_example :
    IsDiff
      (tools false 12)
      512
      start
      (record { method = diff; applied_bytes = 30; size = 0; was_in_cache = false })
      remote_end
unfolding update_region apply_geofabrik_diffs apply_to from_sequence swap_in with_applied by_status
    report refresh_sidecar finalize refreshed set_local local_pbf localize
update_region_diff_example =
    update_region_diff (tools false 12) 512 false start remote_end
      (record { method = diff; applied_bytes = 30; size = 0; was_in_cache = false }) refl refl
