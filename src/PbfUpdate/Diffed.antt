-- ===== src/PbfUpdate/Diffed.antt =====
-- What a result with the method `diff` stands for.
use fwh_osm.Prelude.{
  ℕ, suc, ◌*◌, ◌≤◌, Bool, true, false, Option, none, some, ◌≡◌, ◌≢◌, inl, inr, refl, sym, subst,
  arith, ltb, is_empty, Bool-cases,
}
use fwh_osm.Prelude.Result.{Result, ok, err, Result-cases}
use fwh_osm.PbfUpdate.{
  Pbf, Sidecar, World, Applied, raised, nothing, applied, updated, Method, diff, too_stale,
  without_baseline, UpdateResult, Tools, difference, local_pbf, set_local, localize, swap_in,
  from_sequence, apply_to, apply_geofabrik_diffs, refreshed, refresh_sidecar, finalize,
  full_download, report, fall_back, by_status, with_applied, update_uncached, update_region,
}

refreshed-gone : (o : Option Sidecar) → refreshed o none ≡ o
unfolding refreshed
refreshed-gone none = refl
refreshed-gone (some old) = refl

module _ (tools : Tools) where
  -- What a result with the method `diff` stands for.
  pub record IsDiff (max_diff_mb : ℕ) (w : World) (r : UpdateResult) (w' : World) : Type 0 where
    pub old : Pbf
    pub new : Pbf
    pub seq : ℕ
    pub last : ℕ
    pub newest : ℕ
    pub had : w.stored ≡ some old
    pub baseline : old.sequence ≡ some seq
    pub made : tools.apply_diffs old (suc seq) (max_diff_mb * 1024) ≡ applied new last newest
    pub caught_up : newest ≤ last
    pub stored : w'.stored ≡ some new
    pub local_entry :
        tools.is_local ≡ true → (r.size ≡ new.size) × (w'.sidecar ≡ refreshed w.sidecar (some new))
    pub remote_entry : tools.is_local ≡ false → (r.size ≡ 0) × (w'.sidecar ≡ w.sidecar)
    pub spared : w'.downloads ≡ w.downloads

  localized : (w : World) → local_pbf tools (localize tools w) ≡ w.stored
  unfolding local_pbf localize
  localized w = ground arith

  IsDiffOf : ℕ → World → Result UpdateResult × World → Type 0
  IsDiffOf max_diff_mb w (err e, w') = Unit
  IsDiffOf max_diff_mb w (ok r, w') = r.method ≡ diff → IsDiff max_diff_mb w r w'

  module _ (max_diff_mb : ℕ) (w : World) (diff_only : Bool) where
    full-IsDiffOf : (x : World) → IsDiffOf max_diff_mb w (full_download tools x)
    unfolding full_download IsDiffOf
    full-IsDiffOf x = elim (Result-cases (tools.download_region x).0) [
      | inl (e, bad) ↦ rw (bad, full_download) tt
      | inr (r, good) ↦ rw (good, full_download) (λ e. cc)
    ]

    fall_back-IsDiffOf :
        (d : Bool) (m : Method) (x : World)
        → m ≢ diff
        → IsDiffOf max_diff_mb w (fall_back tools d m x)
    unfolding fall_back report IsDiffOf
    fall_back-IsDiffOf true m x other = λ e. absurd (other e)
    fall_back-IsDiffOf false m x other = full-IsDiffOf x

    -- After the swap: the entry, the sidecar and the reported size.
    updated-IsDiff :
        (p new : Pbf) (seq last newest bytes : ℕ)
        → w.stored ≡ some p
        → p.sequence ≡ some seq
        → tools.apply_diffs p (suc seq) (max_diff_mb * 1024) ≡ applied new last newest
        → newest ≤ last
        → IsDiffOf max_diff_mb w (
            by_status tools diff_only updated bytes
              (set_local tools (some new) (record (localize tools w) { out = none })))
    unfolding by_status report refresh_sidecar finalize set_local localize local_pbf IsDiffOf
        refreshed
    updated-IsDiff p new seq last newest bytes had base made caught =
        elim (Bool-cases tools.is_local) [
          | inl here ↦ rw here (λ e. record {
            old = p;
            new = new;
            seq = seq;
            last = last;
            newest = newest;
            had = had;
            baseline = base;
            made = made;
            caught_up = caught;
            stored = refl;
            local_entry = λ x. (refl, refl);
            remote_entry = λ x. cc;
            spared = refl;
          })
          | inr away ↦ rw away (λ e. record {
            old = p;
            new = new;
            seq = seq;
            last = last;
            newest = newest;
            had = had;
            baseline = base;
            made = made;
            caught_up = caught;
            stored = refl;
            local_entry = λ x. cc;
            remote_entry = λ x. (refl, refreshed-gone w.sidecar);
            spared = refl;
          })
        ]

    swap-IsDiffOf :
        (p : Pbf) (seq : ℕ) (a : Applied)
        → w.stored ≡ some p
        → p.sequence ≡ some seq
        → tools.apply_diffs p (suc seq) (max_diff_mb * 1024) ≡ a
        → let step = swap_in tools p a (record (localize tools w) { out = none }) in
          IsDiffOf max_diff_mb w (with_applied tools diff_only step.0 step.1)
    unfolding with_applied swap_in IsDiffOf
    swap-IsDiffOf p seq (raised left) had base made = tt
    swap-IsDiffOf p seq (nothing left) had base made = unfold by_status report in λ e. cc
    swap-IsDiffOf p seq (applied new last newest) had base made =
        elim (Bool-cases (ltb last newest)) [
          | inl behind ↦ rw behind (
              unfold by_status in
              fall_back-IsDiffOf diff_only too_stale
                (set_local tools (some new) (record (localize tools w) { out = none })) (λ e. cc))
          | inr caught ↦ rw caught (
              updated-IsDiff p new seq last newest (difference new.size p.size) had base made
                (ground arith))
        ]

    sequence-IsDiffOf :
        (p : Pbf) (s : Option ℕ)
        → w.stored ≡ some p
        → p.sequence ≡ s
        → let step = from_sequence tools max_diff_mb p s (localize tools w) in
          IsDiffOf max_diff_mb w (with_applied tools diff_only step.0 step.1)
    unfolding from_sequence with_applied
    sequence-IsDiffOf p none had base =
        unfold by_status in
        fall_back-IsDiffOf diff_only without_baseline (localize tools w) (λ e. cc)
    sequence-IsDiffOf p (some seq) had base = elim (Bool-cases (is_empty p.url)) [
      | inl no_url ↦ rw no_url (
          unfold by_status in
          fall_back-IsDiffOf diff_only without_baseline (localize tools w) (λ e. cc))
      | inr url ↦ rw url (swap-IsDiffOf p seq _ had base refl)
    ]

    file-IsDiffOf :
        (o : Option Pbf)
        → w.stored ≡ o
        → let step = apply_to tools max_diff_mb o (localize tools w) in
          IsDiffOf max_diff_mb w (with_applied tools diff_only step.0 step.1)
    unfolding apply_to
    file-IsDiffOf none had = unfold with_applied IsDiffOf in tt
    file-IsDiffOf (some p) had = sequence-IsDiffOf p p.sequence had refl

    uncached-IsDiffOf : (d : Bool) → IsDiffOf max_diff_mb w (update_uncached tools d w)
    unfolding update_uncached IsDiffOf
    uncached-IsDiffOf true = λ e. cc
    uncached-IsDiffOf false = full-IsDiffOf w

    update_region-IsDiffOf : IsDiffOf max_diff_mb w (update_region tools max_diff_mb diff_only w)
    unfolding update_region apply_geofabrik_diffs
    update_region-IsDiffOf = elim (Bool-cases (tools.is_region_cached w)) [
      | inr missing ↦ rw missing (uncached-IsDiffOf diff_only)
      | inl there ↦ rw there (
          let file = file-IsDiffOf (local_pbf tools (localize tools w)) (sym (localized w)) in file)
    ]

  -- A result with the method `diff` means that the cached extract had a baseline, that the server
  -- made the new extract of it from the next sequence number on and within the budget, up to its
  -- newest one, and that the new extract is the cache entry now, with no full download. Where the
  -- entry is a local file its sidecar is refreshed with the old hash and the new size. Where it is
  -- remote, the local copy is gone by then: the size that is reported is 0, and the sidecar stays
  -- as it was.
  pub update_region_diff :
      (max_diff_mb : ℕ) (diff_only : Bool) (w w' : World) (r : UpdateResult)
      → update_region tools max_diff_mb diff_only w ≡ (ok r, w')
      → r.method ≡ diff
      → IsDiff max_diff_mb w r w'
  unfolding IsDiffOf
  update_region_diff max_diff_mb diff_only w w' r e =
      subst (IsDiffOf max_diff_mb w) e (update_region-IsDiffOf max_diff_mb w diff_only)
