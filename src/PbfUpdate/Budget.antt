-- ===== src/PbfUpdate/Budget.antt =====
-- The promise of `diff_only`: no full download.
use fwh_osm.Prelude.{
  ℕ, suc, ◌*◌, true, Option, none, some, ◌≡◌, ◌≢◌, inl, inr, refl, ◌∙◌, arith, Bool-cases,
}
use fwh_osm.Prelude.Result.{Result, ok, err}
use fwh_osm.PbfUpdate.{
  Pbf, World, Applied, raised, nothing, applied, Status, updated, up_to_date, stale, no_baseline,
  AppliedDiffs, full, UpdateResult, Tools, local_pbf, set_local, localize, swap_in, from_sequence,
  apply_to, apply_geofabrik_diffs, refresh_sidecar, finalize, report, fall_back, by_status,
  with_applied, update_uncached, update_region,
}

module _ (tools : Tools) where
  -- No call of `download_region`, and not its method.
  abbrev pub IsSpared : World → Result UpdateResult × World → Type 0
  IsSpared w (err e, w') = w'.downloads ≡ w.downloads
  IsSpared w (ok r, w') = (r.method ≢ full) × (w'.downloads ≡ w.downloads)

  set_local-downloads : (p : Option Pbf) (w : World) → (set_local tools p w).downloads ≡ w.downloads
  unfolding set_local
  set_local-downloads p w = ground arith

  localize-downloads : (w : World) → (localize tools w).downloads ≡ w.downloads
  unfolding localize
  localize-downloads w = ground arith

  swap_in-downloads :
      (p : Pbf) (a : Applied) (w : World) → (swap_in tools p a w).1.downloads ≡ w.downloads
  unfolding swap_in
  swap_in-downloads p (raised left) w = refl
  swap_in-downloads p (nothing left) w = refl
  swap_in-downloads p (applied new last newest) w =
      set_local-downloads (some new) (record w { out = none })

  from_sequence-downloads :
      (max_diff_mb : ℕ) (p : Pbf) (s : Option ℕ) (w : World)
      → (from_sequence tools max_diff_mb p s w).1.downloads ≡ w.downloads
  unfolding from_sequence
  from_sequence-downloads max_diff_mb p none w = refl
  from_sequence-downloads max_diff_mb p (some seq) w =
      let swap =
        swap_in-downloads p (tools.apply_diffs p (suc seq) (max_diff_mb * 1024))
          (record w { out = none }) in
      ground (arith, swap)

  apply_to-downloads :
      (max_diff_mb : ℕ) (o : Option Pbf) (w : World)
      → (apply_to tools max_diff_mb o w).1.downloads ≡ w.downloads
  unfolding apply_to
  apply_to-downloads max_diff_mb none w = refl
  apply_to-downloads max_diff_mb (some p) w = from_sequence-downloads max_diff_mb p p.sequence w

  finalize-downloads : (w : World) → (finalize tools w).downloads ≡ w.downloads
  unfolding finalize
  finalize-downloads w = ground arith

  by_status-IsSpared :
      (s : Status) (bytes : ℕ) (w : World) → IsSpared w (by_status tools true s bytes w)
  unfolding by_status report fall_back refresh_sidecar
  by_status-IsSpared up_to_date bytes w = (λ e. cc, refl)
  by_status-IsSpared updated bytes w = (λ e. cc, finalize-downloads w)
  by_status-IsSpared stale bytes w = (λ e. cc, refl)
  by_status-IsSpared no_baseline bytes w = (λ e. cc, refl)

  with_applied-IsSpared :
      (r : Result AppliedDiffs) (w : World) → IsSpared w (with_applied tools true r w)
  unfolding with_applied
  with_applied-IsSpared (err e) w = refl
  with_applied-IsSpared (ok a) w = by_status-IsSpared a.status a.bytes_changed w

  IsSpared-from :
      (w w' : World) (r : Result UpdateResult × World)
      → w'.downloads ≡ w.downloads
      → IsSpared w' r
      → IsSpared w r
  IsSpared-from w w' (err e, w'') same h = h ∙ same
  IsSpared-from w w' (ok r, w'') same (m, h) = (m, h ∙ same)

  -- With `diff_only`, whatever the server and the cache do, `download_region` is not called, and no
  -- full download is reported.
  pub update_region_spares :
      (max_diff_mb : ℕ) (w : World) → IsSpared w (update_region tools max_diff_mb true w)
  unfolding update_region update_uncached apply_geofabrik_diffs
  update_region_spares max_diff_mb w = elim (Bool-cases (tools.is_region_cached w)) [
    | inr missing ↦ rw missing (λ e. cc, refl)
    | inl there ↦
        let here = localize tools w in
        let step = apply_to tools max_diff_mb (local_pbf tools here) here in
        rw there (
          IsSpared-from w step.1 (with_applied tools true step.0 step.1)
            (apply_to-downloads max_diff_mb (local_pbf tools here) here ∙ localize-downloads w)
            (with_applied-IsSpared step.0 step.1))
  ]
