-- ===== src/Replication/State/Parse.antt =====
-- `parse_state` of replication_publish.py. The keys end with their only `=`, so what stands behind
-- a key is what stands behind the line's first `=`.
use fwh_osm.Prelude.{ℕ, ◌∷◌, [], List, Option, none, some, ◌&&◌, ◌==◌, if◌then◌else◌}
use fwh_osm.Prelude.Text.{Text, strip, after_prefix, splitlines, starts_with_code, isdigit, value}
use fwh_osm.Replication.State.Format.{sequence_key, timestamp_key}

-- `s.replace("\\:", ":")`: a backslash in front of a colon goes.
unfoldable pub unescape_colons : Text → Text
unescape_colons [] = []
unescape_colons (c ∷ s) =
    let rest = unescape_colons s in if c == 92 && starts_with_code 58 s then rest else c ∷ rest

-- (sequenceNumber, timestamp)
abbrev pub StateInfo : Type 0
StateInfo = Option ℕ × Text

-- `int(raw) if raw.isdigit() else None`
abbrev pub read_sequence : Text → Option ℕ
read_sequence raw = if isdigit raw then some (value raw) else none

-- The body of the loop, on a line that is stripped.
unfoldable pub parse_line : StateInfo → Text → StateInfo
unfolding after_prefix
parse_line (seq, ts) line = elim (after_prefix sequence_key line) [
  | some raw ↦ (read_sequence (strip raw), ts)
  | none ↦ elim (after_prefix timestamp_key line) [
    | some raw ↦ (seq, unescape_colons (strip raw))
    | none ↦ (seq, ts)
  ]
]

unfoldable pub parse_lines : StateInfo → List Text → StateInfo
unfolding parse_line
parse_lines info [] = info
parse_lines info (line ∷ lines) = parse_lines (parse_line info (strip line)) lines

unfoldable pub parse_state : Text → StateInfo
unfolding parse_lines
parse_state text = parse_lines (none, []) (splitlines text)
