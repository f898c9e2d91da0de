-- ===== src/Replication/Upstream.antt =====
-- The upstream server of replication_publish.py. The network is a parameter: the answers to the
-- requests, `none` where a request raises.
use fwh_osm.Prelude.{ℕ, suc, Option, none, some, List, [], ◌∷◌, ◌==◌, if◌then◌else◌}
use fwh_osm.Prelude.Text.{Text}
use fwh_osm.Prelude.Result.{Result, ok, err, replication_error}
use fwh_osm.Replication.State.{StateInfo, parse_state}

pub record Upstream : Type 0 where
  pub state_txt : Option Text
  pub diff_state_txt : ℕ → Option Text
  -- the size of what `copyfileobj` wrote
  pub download : ℕ → Option ℕ

abbrev pub read_head : StateInfo → Result (ℕ × Text)
read_head (none, ts) = err replication_error
read_head (some seq, ts) = ok (seq, ts)

unfoldable pub upstream_state : Upstream → Result (ℕ × Text)
upstream_state up = elim up.state_txt [
  | none ↦ err replication_error
  | some text ↦ read_head (parse_state text)
]

-- An empty text stands for no timestamp.
unfoldable pub diff_timestamp : Upstream → ℕ → Text
diff_timestamp up seq = elim (up.diff_state_txt seq) [
  | none ↦ []
  | some text ↦ (parse_state text).1
]

-- The work directory: the size of `NNNNNNNNN.osc.gz` for each sequence number.
abbrev pub Cache : Type 0
Cache = List (ℕ × ℕ)

unfoldable pub cached_size : Cache → ℕ → Option ℕ
cached_size [] seq = none
cached_size ((s, size) ∷ rest) seq = if s == seq then some size else cached_size rest seq

-- A file that is there and not empty is used again. `.part` is renamed only when it is complete.
unfoldable pub fetch_planet_diff : Upstream → Cache → ℕ → Result ℕ × Cache
unfolding cached_size
fetch_planet_diff up cache seq = elim (cached_size cache seq) [
  | some (suc size) ↦ (ok (suc size), cache)
  | other ↦ elim (up.download seq) [
    | none ↦ (err replication_error, cache)
    | some size ↦ (ok size, (seq, size) ∷ cache)
  ]
]
