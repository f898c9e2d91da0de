-- ===== src/Replication/Publish/Days.antt =====
-- The days of one run, and the whole of `publish`, keep the stream of an anchored region.
use fwh_osm.Prelude.{
  ℕ, zero, suc, ◌+◌, String, Bool, true, false, not, Option, none, some, List, [], ◌∷◌, ◌≡◌, refl,
  arith, max, str_eq_iff, Bool-cases, inl, inr, has_name, keep, has_name-keep, subst, sym, ap,
  is_empty,
}
use fwh_osm.Prelude.Result.{Result, ok, err}
use fwh_osm.Prelude.Text.{Text, NoBreak}
use fwh_osm.Replication.State.{parse_state}
use fwh_osm.Replication.State.Clean.{parse_state-NoBreak}
use fwh_osm.Replication.Upstream.{diff_timestamp, fetch_planet_diff}
use fwh_osm.Replication.Disk.{Disk, no_region}
use fwh_osm.Replication.Publish.Run.{Env, Run, mark_missing}
use fwh_osm.Replication.Publish.Day.{
  Step, and_then, timestamp_or, is_due, publish_cut, publish_fetched, publish_day, publish_days,
}
use fwh_osm.Replication.Publish.Covered.{CoveredTo, CoveredTo-le}
use fwh_osm.Replication.Publish.Writes.{
  AreSeen, Seen, is_skipped, mark_missing-trees, mark_missing-is_skipped,
}
use fwh_osm.Replication.Publish.Loop.{Reached, Within, publish_made-Reached}

pub keep-has_name :
    (k : String) (p : String → Bool) (ns : List String)
    → has_name k ns ≡ true
    → p k ≡ true
    → has_name k (keep p ns) ≡ true
keep-has_name k p [] h h' = h
keep-has_name k p (x ∷ xs) h h' = ground (arith, keep-has_name k p xs, str_eq_iff x k)

diff_timestamp-NoBreak : (env : Env) (seq : ℕ) → NoBreak (diff_timestamp env.up seq)
unfolding diff_timestamp
diff_timestamp-NoBreak env seq = go (env.up.diff_state_txt seq)
  where
    go : (o : Option Text) → NoBreak (elim o [ none ↦ [] | some text ↦ (parse_state text).1 ])
    go none = tt
    go (some text) = parse_state-NoBreak text

timestamp_or-NoBreak :
    (env : Env) (ts : Text) (seq : ℕ) → NoBreak ts → NoBreak (timestamp_or env ts seq)
timestamp_or-NoBreak env ts seq nb = elim (Bool-cases (is_empty (diff_timestamp env.up seq))) [
  | inl none_there ↦ rw none_there nb
  | inr there ↦ rw there (diff_timestamp-NoBreak env seq)
]

first : List Disk → Disk
first [] = λ q. no_region
first (d ∷ ds) = d

mark_missing-disk :
    (q : String) (polys : String → Bool) (rs : List String) (run : Run)
    → (mark_missing polys rs run).disk ≡ run.disk
unfolding first
mark_missing-disk q polys rs run = ap first (mark_missing-trees q polys rs run)

module _ (env : Env) (q : String) (s : ℕ) (starts : String → Option ℕ) (names : List String)
    (up_ts : Text) (nb : NoBreak up_ts) (named : has_name q names ≡ true)
    (anchored : starts q ≡ some s) where
  publish_cut-Reached :
      (n : ℕ) (ts : Text) (cuttable : List String) (run : Run)
      → NoBreak ts
      → Within env q s n cuttable run
      → Reached env q s (suc n) (publish_cut env (suc n) ts cuttable run)
  unfolding publish_cut
  publish_cut-Reached n ts [] run nbt w = record { seen = w.seen; reach = λ e k. w.past k refl }
  publish_cut-Reached n ts (r ∷ rs) run nbt w =
      publish_made-Reached env q s n ts (r ∷ rs) _ run nbt w

  -- Regions with no polygon are marked, and what is due and not skipped is to come.
  marked-Within :
      (n : ℕ) (run : Run)
      → Reached env q s n (ok tt, run)
      → let due = keep (is_due env starts names up_ts (suc n)) names in
        let marked = mark_missing env.polys due run in
        Within env q s n (keep (λ r. not (marked.per_region r).skipped) due) marked
  marked-Within n run r =
      let due = keep (is_due env starts names up_ts (suc n)) names in
      let marked = mark_missing env.polys due run in
      let cuttable = keep (λ r. not (marked.per_region r).skipped) due in
      let back : CoveredTo (max s n) (run.disk q) → CoveredTo (max s n) (marked.disk q) =
        subst (λ (d : Disk). CoveredTo (max s n) (d q))
          (sym (mark_missing-disk q env.polys due run)) in
      let earlier : is_skipped q marked ≡ false → CoveredTo (max s n) (marked.disk q) =
        λ k. back (r.reach refl (mark_missing-is_skipped q env.polys due run k)) in
      record {
        seen = subst (AreSeen q s) (sym (mark_missing-trees q env.polys due run)) r.seen;
        coming = λ m.
            let kept = has_name-keep q (λ r. not (marked.per_region r).skipped) due m in
            earlier (ground arith);
        past = λ k m. elim (Bool-cases (is_due env starts names up_ts (suc n) q)) [
          | inl due_now ↦
              let is_there : has_name q cuttable ≡ true =
                keep-has_name q (λ r. not (marked.per_region r).skipped) due
                  (keep-has_name q (is_due env starts names up_ts (suc n)) names named due_now)
                  (ground arith) in
              cc
          | inr past_it ↦ CoveredTo-le {n = max s n} (ground arith) (earlier k)
        ];
      }

  publish_fetched-Reached :
      (n : ℕ) (fetched : Result ℕ) (run : Run)
      → Reached env q s n (ok tt, run)
      → Reached env q s (suc n) (publish_fetched env starts names up_ts (suc n) fetched run)
  unfolding publish_fetched
  publish_fetched-Reached n (err e) run r = record { seen = r.seen; reach = λ x k. cc }
  publish_fetched-Reached n (ok size) run r =
      publish_cut-Reached n (timestamp_or env up_ts (suc n)) _ _
        (timestamp_or-NoBreak env up_ts (suc n) nb)
        (marked-Within n (record run { planet_bytes = run.planet_bytes + size })
          (record { seen = r.seen; reach = r.reach }))

  publish_day-Reached :
      (n : ℕ) (run : Run)
      → env.dry_run ≡ false
      → Reached env q s n (ok tt, run)
      → Reached env q s (suc n) (publish_day env starts names up_ts (suc n) run)
  unfolding publish_day
  publish_day-Reached n run wet r =
      let fetch = fetch_planet_diff env.up run.cache (suc n) in
      simp wet (
        publish_fetched-Reached n fetch.0 (record run { cache = fetch.1 })
          (record { seen = r.seen; reach = r.reach }))

  and_then-Seen :
      (n : ℕ) (step : Step) (next : Run → Step)
      → Reached env q s n step
      → ((run : Run) → Reached env q s n (ok tt, run) → Seen q s (next run).1)
      → Seen q s (and_then step next).1
  unfolding and_then
  and_then-Seen n (ok _, run) next r h = h run r
  and_then-Seen n (err e, run) next r h = r.seen

  pub publish_days-Seen :
      (days n : ℕ) (run : Run)
      → env.dry_run ≡ false
      → Reached env q s n (ok tt, run)
      → Seen q s (publish_days env starts names up_ts days (suc n) run).1
  unfolding publish_days
  publish_days-Seen zero n run wet r = r.seen
  publish_days-Seen (suc days) n run wet r =
      and_then-Seen (suc n) (publish_day env starts names up_ts (suc n) run) _
        (publish_day-Reached n run wet r) (λ run' r'. publish_days-Seen days (suc n) run' wet r')

-- A dry run writes nothing.
pub publish_days-dry :
    (env : Env) (starts : String → Option ℕ) (names : List String) (up_ts : Text) (days seq : ℕ)
    (run : Run)
    → env.dry_run ≡ true
    → publish_days env starts names up_ts days seq run ≡ (ok tt, run)
unfolding publish_days
publish_days-dry env starts names up_ts zero seq run dry = refl
publish_days-dry env starts names up_ts (suc days) seq run dry =
    simp dry (publish_days-dry env starts names up_ts days (suc seq) run dry)
