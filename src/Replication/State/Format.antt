-- ===== src/Replication/State/Format.antt =====
-- `format_state` of replication_publish.py.
use fwh_osm.Prelude.{ℕ, ◌++◌, ◌∷◌, [], ◌==◌, if◌then◌else◌}
use fwh_osm.Prelude.Text.{Text, codes, decimal}

-- `timestamp.replace(":", "\\:")`: 58 is the colon and 92 the backslash.
unfoldable pub escape_colons : Text → Text
escape_colons [] = []
escape_colons (c ∷ s) = let rest = escape_colons s in if c == 58 then 92 ∷ 58 ∷ rest else c ∷ rest

abbrev pub sequence_key : Text
sequence_key = codes "sequenceNumber="

abbrev pub timestamp_key : Text
timestamp_key = codes "timestamp="

-- Each of the two lines ends with a line feed.
unfoldable pub format_state : ℕ → Text → Text
format_state seq timestamp =
    (sequence_key ++ decimal seq) ++ 10 ∷ ((timestamp_key ++ escape_colons timestamp) ++ 10 ∷ [])
