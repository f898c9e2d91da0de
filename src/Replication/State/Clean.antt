-- ===== src/Replication/State/Clean.antt =====
-- A timestamp that `parse_state` returns stands on one line.
use fwh_osm.Prelude.{◌∷◌, [], List, none, arith, All, Option-cases, inl, inr}
use fwh_osm.Prelude.Text.{
  Text, strip, after_prefix, NoBreak, strip-NoBreak, after_prefix-NoBreak, splitlines,
  splitlines-NoBreak,
}
use fwh_osm.Replication.State.Format.{sequence_key, timestamp_key}
use fwh_osm.Replication.State.Parse.{
  StateInfo, unescape_colons, parse_line, parse_lines, parse_state,
}

unescape_colons-NoBreak : (s : Text) → NoBreak s → NoBreak (unescape_colons s)
unfolding unescape_colons
unescape_colons-NoBreak [] h = tt
unescape_colons-NoBreak (c ∷ s) (h, hs) = ground (arith, unescape_colons-NoBreak s hs)

parse_line-NoBreak :
    (info : StateInfo) (line : Text)
    → NoBreak info.1
    → NoBreak line
    → NoBreak (parse_line info line).1
unfolding parse_line
parse_line-NoBreak info line h k = elim (Option-cases (after_prefix sequence_key line)) [
  | inr (raw, e) ↦ rw e h
  | inl e ↦ elim (Option-cases (after_prefix timestamp_key line)) [
    | inl e' ↦ rw (e, parse_line) (rw e' h)
    | inr (raw, e') ↦
        rw (e, parse_line)
          (rw e' (
            unescape_colons-NoBreak (strip raw)
              (strip-NoBreak raw (after_prefix-NoBreak timestamp_key line e' k))))
  ]
]

parse_lines-NoBreak :
    (info : StateInfo) (ls : List Text)
    → NoBreak info.1
    → All NoBreak ls
    → NoBreak (parse_lines info ls).1
unfolding parse_lines
parse_lines-NoBreak info [] h k = h
parse_lines-NoBreak info (l ∷ ls) h (k, ks) =
    parse_lines-NoBreak (parse_line info (strip l)) ls
      (parse_line-NoBreak info (strip l) h (strip-NoBreak l k)) ks

pub parse_state-NoBreak : (text : Text) → NoBreak (parse_state text).1
unfolding parse_state
parse_state-NoBreak text =
    parse_lines-NoBreak (none, []) (splitlines text) tt (splitlines-NoBreak text)
