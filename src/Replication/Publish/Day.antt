-- ===== src/Replication/Publish/Day.antt =====
-- The loop of `publish` over sequence numbers, and what stands around it.
use fwh_osm.Prelude.{
  ℕ, zero, suc, ◌+◌, ◌-◌, String, Bool, true, false, not, Option, none, some, List, [], ◌∷◌, ◌++◌,
  map, if◌then◌else◌, leb, str_eq, keep, has_name, is_empty, min,
}
use fwh_osm.Prelude.Int.{ℤ, pos, negsuc}
use fwh_osm.Prelude.Result.{Result, ok, err, file_not_found, replication_error}
use fwh_osm.Prelude.Text.{Text}
use fwh_osm.Replication.Disk.{Disk, region_state}
use fwh_osm.Replication.Upstream.{upstream_state, diff_timestamp, fetch_planet_diff}
use fwh_osm.Replication.Cut.{cut_diff_multi}
use fwh_osm.Replication.Publish.Run.{
  Env, Run, RegionResult, Reason, no_sequence, current, no_output, new_result, skipped_for, mark,
  land, mark_missing,
}

abbrev pub remove_name : String → List String → List String
remove_name r = keep (λ q. not (str_eq r q))

abbrev pub Step : Type 0
Step = Result (Unit {0}) × Run

-- The next statement runs unless an exception ended this one.
unfoldable pub and_then : Step → (Run → Step) → Step
and_then (ok _, run) next = next run
and_then (err e, run) next = (err e, run)

module _ (env : Env) where
  -- The loop over `cuttable`: `made` is the result of the cut, `staged` what of it still lies in the
  -- staging directory.
  unfoldable pub publish_regions : ℕ → Text → (made staged rs : List String) → Run → Step
  publish_regions seq ts made staged [] run = (ok tt, run)
  publish_regions seq ts made staged (r ∷ rs) run = elim (has_name r made) [
    | false ↦ publish_regions seq ts made staged rs (mark r (no_output seq) run)
    | true ↦ elim (has_name r staged) [
      | false ↦ (err file_not_found, run)
      | true ↦
          publish_regions seq ts made (remove_name r staged) rs
            (land seq ts (env.cut_size seq r) r run)
    ]
  ]

  -- A failing index is reported and stops nothing.
  abbrev index_failures : ℕ → List (String × ℕ)
  index_failures seq =
      map (λ idx. (idx, seq)) (keep (λ idx. not (env.index_takes idx seq)) env.update_indexes)

  unfoldable pub close_day : ℕ → Step → Step
  close_day seq (err e, run) = (err e, run)
  close_day seq (ok _, run) = (
    ok tt,
    record run {
      index_errors = run.index_errors ++ index_failures seq;
      days = suc run.days;
      to_sequence = seq;
    },
  )

  unfoldable pub publish_made : ℕ → Text → List String → Option (Result (List String)) → Run → Step
  unfolding publish_regions close_day
  publish_made seq ts cuttable none run = (err replication_error, run)
  publish_made seq ts cuttable (some (err e)) run = (err e, run)
  publish_made seq ts cuttable (some (ok made)) run =
      close_day seq (publish_regions seq ts made made cuttable run)

  unfoldable pub publish_cut : ℕ → Text → List String → Run → Step
  unfolding publish_made
  publish_cut seq ts [] run = (ok tt, run)
  publish_cut seq ts (r ∷ rs) run =
      publish_made seq ts (r ∷ rs)
        (cut_diff_multi (env.osmium seq) env.polys (env.avail seq) (r ∷ rs) (env.left_over seq)) run

  -- `diff_timestamp(seq, …) or up_ts`
  abbrev pub timestamp_or : Text → ℕ → Text
  timestamp_or up_ts seq = let ts = diff_timestamp env.up seq in if is_empty ts then up_ts else ts

  module _ (starts : String → Option ℕ) (names : List String) (up_ts : Text) where
    -- `not (starts[r] is not None and seq <= starts[r])`
    abbrev pub is_due : ℕ → String → Bool
    is_due seq r = elim (starts r) [ none ↦ true | some s ↦ not (leb seq s) ]

    unfoldable pub publish_fetched : ℕ → Result ℕ → Run → Step
    unfolding publish_cut
    publish_fetched seq (err e) run = (err e, run)
    publish_fetched seq (ok size) run =
        let due = keep (is_due seq) names in
        let marked =
          mark_missing env.polys due (record run { planet_bytes = run.planet_bytes + size }) in
        publish_cut seq (timestamp_or up_ts seq) (keep (λ r. not (marked.per_region r).skipped) due)
          marked

    unfoldable pub publish_day : ℕ → Run → Step
    unfolding publish_fetched
    publish_day seq run =
        let (fetched, cache') = fetch_planet_diff env.up run.cache seq in
        if env.dry_run
        then (ok tt, run)
        else publish_fetched seq fetched (record run { cache = cache' })

    -- `for seq in range(seq, seq + days)`
    unfoldable pub publish_days : ℕ → ℕ → Run → Step
    unfolding publish_day and_then
    publish_days zero seq run = (ok tt, run)
    publish_days (suc days) seq run =
        and_then (publish_day seq run) (λ run'. publish_days days (suc seq) run')

pub record PublishResult : Type 0 where
  pub upstream_sequence : ℕ
  pub from_sequence : ℤ
  pub to_sequence : ℤ
  pub days : ℕ
  pub regions : List RegionResult
  pub planet_bytes : ℕ
  pub index_errors : List (String × ℕ)

-- The smaller of two known sequence numbers.
unfoldable pub lower : Option ℕ → Option ℕ → Option ℕ
lower none o = o
lower (some s) none = some s
lower (some s) (some t) = some (min s t)

-- `min(known)` over the regions that have a sequence number
unfoldable pub least_start : (String → Option ℕ) → List String → Option ℕ
unfolding lower
least_start starts [] = none
least_start starts (r ∷ rs) = lower (starts r) (least_start starts rs)

abbrev pub start_run : Env → Disk → Run
start_run env disk = record {
  disk = disk;
  history = [];
  cache = env.work;
  per_region = λ r. new_result;
  planet_bytes = 0;
  index_errors = [];
  days = 0;
  to_sequence = 0;
}

-- The results that need no run: every region is skipped for the same reason.
abbrev all_skipped : Reason → ℕ → ℤ → List String → PublishResult
all_skipped why up_seq from names = record {
  upstream_sequence = up_seq;
  from_sequence = from;
  to_sequence = from;
  days = 0;
  regions = map (λ r. skipped_for why) names;
  planet_bytes = 0;
  index_errors = [];
}

unfoldable pub finish : ℕ → ℕ → List String → Step → Result PublishResult × Run
finish up_seq from names (err e, run) = (err e, run)
finish up_seq from names (ok _, run) = (
  ok (record {
    upstream_sequence = up_seq;
    from_sequence = pos from;
    to_sequence = pos run.to_sequence;
    days = run.days;
    regions = map run.per_region names;
    planet_bytes = run.planet_bytes;
    index_errors = run.index_errors;
  }),
  run,
)

module _ (env : Env) (names : List String) (disk : Disk) where
  -- `starts`: where each region is before the run
  abbrev pub starts : String → Option ℕ
  starts r = (region_state (disk r)).0

  -- From a known first sequence number on.
  unfoldable pub publish_from : ℕ → Text → ℕ → Result PublishResult × Run
  unfolding publish_days finish
  publish_from up_seq up_ts from =
      let target = min up_seq (from + env.max_days) in
      let run = record (start_run env disk) { to_sequence = from } in
      if leb target from
      then (ok (all_skipped current up_seq (pos from) names), run)
      else finish up_seq from names
          (publish_days env starts names up_ts (target - from) (suc from) run)

  unfoldable pub publish_known : ℕ → Text → Option ℕ → Result PublishResult × Run
  unfolding publish_from
  publish_known up_seq up_ts none =
      (ok (all_skipped no_sequence up_seq (negsuc 0) names), start_run env disk)
  publish_known up_seq up_ts (some from) = publish_from up_seq up_ts from

  unfoldable pub publish_head : Result (ℕ × Text) → Result PublishResult × Run
  unfolding publish_known
  publish_head (err e) = (err e, start_run env disk)
  publish_head (ok (up_seq, up_ts)) =
      if is_empty names
      then (err replication_error, start_run env disk)
      else publish_known up_seq up_ts (least_start starts names)

  unfoldable pub publish : Result PublishResult × Run
  unfolding publish_head
  publish = publish_head (upstream_state env.up)
