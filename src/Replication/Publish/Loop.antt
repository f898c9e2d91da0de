-- ===== src/Replication/Publish/Loop.antt =====
-- The loops of `publish` keep the stream of an anchored region without a hole.
use fwh_osm.Prelude.{
  ℕ, suc, String, true, false, Option, none, some, List, [], ◌∷◌, ◌≡◌, refl, ◌∙◌, arith, max,
  str_eq, Bool-cases, inl, inr, has_name, subst, sym,
}
use fwh_osm.Prelude.Result.{Result, ok, err}
use fwh_osm.Prelude.Text.{Text, NoBreak}
use fwh_osm.Replication.Publish.Run.{Env, Run, Reason, no_output, mark, land}
use fwh_osm.Replication.Publish.Day.{Step, remove_name, publish_regions, close_day, publish_made}
use fwh_osm.Replication.Publish.Covered.{CoveredTo, CoveredTo-le}
use fwh_osm.Replication.Publish.Writes.{
  Seen, is_skipped, land-Seen, land-reach, land-other, land-is_skipped, mark-is_skipped,
}

module _ (env : Env) (q : String) (s : ℕ) where
  -- After the sequence number `n`: the region `q`, unless it is skipped, is covered up to there and
  -- up to its own start `s`.
  pub record Reached (n : ℕ) (step : Step) : Type 0 where
    pub seen : Seen q s step.1
    pub reach : step.0 ≡ ok tt → is_skipped q step.1 ≡ false → CoveredTo (max s n) (step.1.disk q)

  -- Within the loop over regions: `rs` are still to come.
  pub record Within (n : ℕ) (rs : List String) (run : Run) : Type 0 where
    pub seen : Seen q s run
    pub coming : has_name q rs ≡ true → CoveredTo (max s n) (run.disk q)
    pub past :
        is_skipped q run ≡ false → has_name q rs ≡ false → CoveredTo (max s (suc n)) (run.disk q)

  Within-mark :
      (n : ℕ) (r : String) (rs : List String) (why : Reason) (run : Run)
      → Within n (r ∷ rs) run
      → Within n rs (mark r why run)
  unfolding mark
  Within-mark n r rs why run w = record {
    seen = w.seen;
    coming = λ m. w.coming (ground arith);
    past = λ k m.
        w.past (ground (arith, mark-is_skipped q r why run))
          (ground (arith, mark-is_skipped q r why run));
  }

  Within-land :
      (n : ℕ) (r : String) (rs : List String) (size : ℕ) (ts : Text) (run : Run)
      → NoBreak ts
      → Within n (r ∷ rs) run
      → Within n rs (land (suc n) ts size r run)
  Within-land n r rs size ts run nb w = elim (Bool-cases (str_eq r q)) [
    | inl same ↦
        let reach = land-reach q s n size ts r run same (w.coming (ground arith)) in
        record {
          seen = seen;
          coming = λ m. CoveredTo-le {n = max s (suc n)} (omega arith) reach;
          past = λ k m. reach;
        }
    | inr other ↦
        let stays = sym (land-other q (suc n) size ts r run other) in
        record {
          seen = seen;
          coming = λ m. subst (CoveredTo (max s n)) stays (w.coming (ground arith));
          past = λ k m.
              subst (CoveredTo (max s (suc n))) stays
                (w.past (sym (land-is_skipped q (suc n) size ts r run) ∙ k) (ground arith));
        }
  ]
    where
      seen : Seen q s (land (suc n) ts size r run)
      seen =
          land-Seen q s n size ts r run nb
            (λ same. CoveredTo-le {n = max s n} (omega arith) (w.coming (ground arith))) w.seen

  publish_regions-Reached :
      (n : ℕ) (ts : Text) (made staged rs : List String) (run : Run)
      → NoBreak ts
      → Within n rs run
      → Reached (suc n) (publish_regions env (suc n) ts made staged rs run)
  unfolding publish_regions
  publish_regions-Reached n ts made staged [] run nb w = record {
    seen = w.seen;
    reach = λ e k. w.past k refl;
  }
  publish_regions-Reached n ts made staged (r ∷ rs) run nb w = elim (Bool-cases (has_name r made)) [
    | inr absent ↦
        rw (absent, publish_regions)
          (publish_regions-Reached n ts made staged rs (mark r (no_output (suc n)) run) nb
            (Within-mark n r rs (no_output (suc n)) run w))
    | inl there ↦ elim (Bool-cases (has_name r staged)) [
      | inr gone ↦
          rw (there, publish_regions) (rw gone (record { seen = w.seen; reach = λ e k. cc }))
      | inl still ↦
          rw (there, publish_regions)
            (rw still (
              publish_regions-Reached n ts made (remove_name r staged) rs
                (land (suc n) ts (env.cut_size (suc n) r) r run) nb
                (Within-land n r rs (env.cut_size (suc n) r) ts run nb w)))
    ]
  ]

  close_day-Reached : (n : ℕ) (step : Step) → Reached n step → Reached n (close_day env n step)
  unfolding close_day
  close_day-Reached n (err e, run) r = r
  close_day-Reached n (ok tt, run) r = record { seen = r.seen; reach = λ e k. r.reach refl k }

  pub publish_made-Reached :
      (n : ℕ) (ts : Text) (cuttable : List String) (o : Option (Result (List String))) (run : Run)
      → NoBreak ts
      → Within n cuttable run
      → Reached (suc n) (publish_made env (suc n) ts cuttable o run)
  unfolding publish_made
  publish_made-Reached n ts cuttable none run nb w = record { seen = w.seen; reach = λ e k. cc }
  publish_made-Reached n ts cuttable (some (err x)) run nb w = record {
    seen = w.seen;
    reach = λ e k. cc;
  }
  publish_made-Reached n ts cuttable (some (ok made)) run nb w =
      close_day-Reached (suc n) _ (publish_regions-Reached n ts made made cuttable run nb w)
