-- ===== src/Replication/Publish/Safety.antt =====
-- What a whole call of `publish` guarantees to a consumer, wherever it stops.
use fwh_osm.Prelude.{
  ℕ, suc, ◌+◌, ◌-◌, ◌≤◌, String, true, Option, none, some, List, [], ◌∷◌, ◌≡◌, ◌∙◌, arith, All, min,
  leb, str_eq, str_eq_iff, Bool-cases, Option-cases, inl, inr, has_name, is_empty, ap,
}
use fwh_osm.Prelude.Result.{Result, ok, err}
use fwh_osm.Prelude.Text.{Text, NoBreak}
use fwh_osm.Replication.State.{StateInfo, parse_state}
use fwh_osm.Replication.State.Clean.{parse_state-NoBreak}
use fwh_osm.Replication.Upstream.{Upstream, upstream_state, read_head}
use fwh_osm.Replication.Disk.{Disk, region_state}
use fwh_osm.Replication.Publish.Run.{Env, visited}
use fwh_osm.Replication.Publish.Day.{
  Step, publish_days, lower, least_start, start_run, starts, finish, publish_from, publish_known,
  publish_head, publish,
}
use fwh_osm.Replication.Publish.Covered.{IsCovered, IsTrusted, IsCovered-IsTrusted, CoveredTo-le}
use fwh_osm.Replication.Publish.Writes.{Seen}
use fwh_osm.Replication.Publish.Days.{publish_days-Seen, publish_days-dry}

abbrev IsAtMost : ℕ → Option ℕ → Type 0
IsAtMost s none = ⊥
IsAtMost s (some n) = n ≤ s

lower-left : (s : ℕ) (o : Option ℕ) → IsAtMost s (lower (some s) o)
unfolding lower
lower-left s none = omega arith
lower-left s (some n) = omega arith

lower-right : (s : ℕ) (p o : Option ℕ) → IsAtMost s o → IsAtMost s (lower p o)
unfolding lower
lower-right s none o h = h
lower-right s (some n) none h = absurd h
lower-right s (some n) (some m) h = omega arith

least_start-IsAtMost :
    (starts : String → Option ℕ) (names : List String) (q : String) (s : ℕ)
    → starts q ≡ some s
    → has_name q names ≡ true
    → IsAtMost s (least_start starts names)
unfolding least_start
least_start-IsAtMost starts [] q s a m = cc
least_start-IsAtMost starts (r ∷ rs) q s a m = elim (Bool-cases (str_eq r q)) [
  | inl same ↦
      let start : starts r ≡ some s = ap starts ((str_eq_iff r q).0 same) ∙ a in
      rw start (lower-left s (least_start starts rs))
  | inr other ↦
      lower-right s (starts r) (least_start starts rs)
        (least_start-IsAtMost starts rs q s a (ground arith))
]

abbrev IsClean : Result (ℕ × Text) → Type 0
IsClean (err e) = Unit
IsClean (ok (seq, ts)) = NoBreak ts

read_head-IsClean : (info : StateInfo) → NoBreak info.1 → IsClean (read_head info)
read_head-IsClean (none, t) nb = tt
read_head-IsClean (some n, t) nb = nb

upstream_state-IsClean : (up : Upstream) → IsClean (upstream_state up)
unfolding upstream_state
upstream_state-IsClean up = elim (Option-cases up.state_txt) [
  | inl down ↦ rw (down, upstream_state) tt
  | inr (text, e) ↦
      rw (e, upstream_state) (read_head-IsClean (parse_state text) (parse_state-NoBreak text))
]

module _ (env : Env) (names : List String) (disk : Disk) (q : String) (s : ℕ)
    (named : has_name q names ≡ true) (anchored : (region_state (disk q)).0 ≡ some s)
    (covered : IsCovered (disk q)) where
  start_seen : IsCovered (disk q) × (IsTrusted s (disk q) × Unit {0})
  start_seen = (covered, (IsCovered-IsTrusted (covered.head s anchored) covered, tt))

  finish-Seen :
      (up_seq from : ℕ) (step : Step) → Seen q s step.1 → Seen q s (finish up_seq from names step).1
  unfolding finish
  finish-Seen up_seq from (err e, run) h = h
  finish-Seen up_seq from (ok _, run) h = h

  days-Seen :
      (days from : ℕ) (up_ts : Text)
      → NoBreak up_ts
      → from ≤ s
      → Seen q s
          (publish_days env
            (starts env names disk)
            names
            up_ts
            days
            (suc from)
            (record (start_run env disk) { to_sequence = from })).1
  days-Seen days from up_ts nb low = elim (Bool-cases env.dry_run) [
    | inl dry ↦
        rw (publish_days-dry env (starts env names disk) names up_ts days (suc from) _ dry)
          start_seen
    | inr wet ↦
        publish_days-Seen env q s (starts env names disk) names up_ts nb named anchored days from _
          wet
          (record {
            seen = start_seen;
            reach = λ e k. CoveredTo-le {n = s} (omega arith) (covered.head s anchored);
          })
  ]

  publish_known-Seen :
      (up_seq : ℕ) (up_ts : Text) (o : Option ℕ)
      → NoBreak up_ts
      → IsAtMost s o
      → Seen q s (publish_known env names disk up_seq up_ts o).1
  unfolding publish_known publish_from
  publish_known-Seen up_seq up_ts none nb low = absurd low
  publish_known-Seen up_seq up_ts (some from) nb low =
      elim (Bool-cases (leb (min up_seq (from + env.max_days)) from)) [
        | inl nothing_new ↦ rw nothing_new start_seen
        | inr news ↦ rw news (
            finish-Seen up_seq from _
              (days-Seen (min up_seq (from + env.max_days) - from) from up_ts nb low))
      ]

  publish_head-Seen :
      (head : Result (ℕ × Text)) → IsClean head → Seen q s (publish_head env names disk head).1
  unfolding publish_head
  publish_head-Seen (err e) nb = start_seen
  publish_head-Seen (ok (up_seq, up_ts)) nb = elim (Bool-cases (is_empty names)) [
    | inl nobody ↦ rw nobody start_seen
    | inr some_names ↦ rw some_names (
        publish_known-Seen up_seq up_ts (least_start (starts env names disk) names) nb
          (least_start-IsAtMost (starts env names disk) names q s anchored named))
  ]

-- Take a region that has a published head `s`, and whose diffs between the data of its extract and
-- that head are all there. Whatever the network, osmium and the memory do, a call of `publish` for it
-- that returns, or raises one of its errors, again leaves a head and all the diffs between the extract
-- and that head. Every tree that the call passes through, so also the one that an interruption
-- leaves, has all the diffs up to `s`, and up to the head that it advertises; it advertises none only
-- while `state.txt` is emptied to be written.
pub publish-IsCovered :
    (env : Env) (names : List String) (disk : Disk) (q : String) (s : ℕ)
    → has_name q names ≡ true
    → (region_state (disk q)).0 ≡ some s
    → IsCovered (disk q)
    → IsCovered ((publish env names disk).1.disk q)
      × All (λ (tree : Disk). IsTrusted s (tree q)) (visited (publish env names disk).1)
unfolding publish
publish-IsCovered env names disk q s named anchored covered =
    publish_head-Seen env names disk q s named anchored covered (upstream_state env.up)
      (upstream_state-IsClean env.up)
