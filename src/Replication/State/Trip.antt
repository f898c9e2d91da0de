-- ===== src/Replication/State/Trip.antt =====
-- Reading a state.txt that `format_state` wrote.
use fwh_osm.Prelude.{ℕ, ◌∷◌, [], ◌++◌, ◌≡◌, refl, true, some, none, arith, ap, All-append}
use fwh_osm.Prelude.Text.{
  Text, codes, is_space, strip, rstrip_by, rstrip_by-ends_ok, strip-ends_ok, strip-key,
  strip-no_space, no_space, no_space-all_digits, splitlines, NoBreak, splitlines-two, starts_ok,
  ends_ok, decimal, decimal-isdigit, isdigit, all_digits, value-decimal,
}
use fwh_osm.Replication.State.Format.{escape_colons, sequence_key, timestamp_key, format_state}
use fwh_osm.Replication.State.Parse.{
  StateInfo, read_sequence, unescape_colons, parse_line, parse_lines, parse_state,
}

unescape-escape : (s : Text) → unescape_colons (escape_colons s) ≡ s
unfolding unescape_colons escape_colons
unescape-escape [] = refl
unescape-escape (c ∷ s) = ground (arith, unescape-escape s)

escape_colons-NoBreak : (s : Text) → NoBreak s → NoBreak (escape_colons s)
unfolding escape_colons
escape_colons-NoBreak [] h = tt
escape_colons-NoBreak (c ∷ s) (h, hs) = ground (arith, escape_colons-NoBreak s hs)

all_digits-NoBreak : (s : Text) → all_digits s ≡ true → NoBreak s
all_digits-NoBreak [] h = tt
all_digits-NoBreak (c ∷ s) h = (ground arith, all_digits-NoBreak s (ground arith))

isdigit-all_digits : (s : Text) → isdigit s ≡ true → all_digits s ≡ true
isdigit-all_digits [] h = refl
isdigit-all_digits (c ∷ s) h = h

no_space-decimal : (n : ℕ) → no_space (decimal n) ≡ true
no_space-decimal n =
    no_space-all_digits (decimal n) (isdigit-all_digits (decimal n) (decimal-isdigit n))

read_sequence-decimal : (n : ℕ) → read_sequence (strip (decimal n)) ≡ some n
read_sequence-decimal n =
    rw (strip-no_space (decimal n) (no_space-decimal n), decimal-isdigit n, value-decimal n)

-- The sequence line, whatever was read before.
parse_line-sequence :
    (info : StateInfo) (n : ℕ)
    → parse_line info (strip (sequence_key ++ decimal n)) ≡ (some n, info.1)
unfolding parse_line
parse_line-sequence info n =
    let solid = no_space-decimal n in
    rw (strip-no_space (sequence_key ++ decimal n) (ground arith))
      (ap (λ o. (o, info.1)) (read_sequence-decimal n))

-- The timestamp line, for any text behind the key.
parse_line-timestamp :
    (info : StateInfo) (e : Text)
    → parse_line info (strip (timestamp_key ++ e))
      ≡ (info.0, unescape_colons (strip (rstrip_by is_space e)))
unfolding parse_line
parse_line-timestamp info e = rw (strip-key 116 (codes "imestamp=") e refl) refl

lines-format_state :
    (n : ℕ) (ts : Text)
    → NoBreak ts
    → splitlines (format_state n ts)
      ≡ (sequence_key ++ decimal n) ∷ (timestamp_key ++ escape_colons ts) ∷ []
unfolding format_state
lines-format_state n ts h =
    splitlines-two (sequence_key ++ decimal n) (timestamp_key ++ escape_colons ts)
      (All-append _ sequence_key (decimal n) (ground arith)
        (all_digits-NoBreak _ (isdigit-all_digits (decimal n) (decimal-isdigit n))))
      (All-append _ timestamp_key (escape_colons ts) (ground arith) (escape_colons-NoBreak ts h))

parse_state-format :
    (n : ℕ) (ts : Text)
    → NoBreak ts
    → parse_state (format_state n ts)
      ≡ (some n, unescape_colons (strip (rstrip_by is_space (escape_colons ts))))
unfolding parse_state parse_lines
parse_state-format n ts h =
    rw (lines-format_state n ts h)
      (rw (parse_line-sequence (none, []) n) (parse_line-timestamp (some n, []) (escape_colons ts)))

-- The sequence number that was written is read back, whatever white space the timestamp has.
pub parse_state-format_sequence :
    (n : ℕ) (ts : Text) → NoBreak ts → (parse_state (format_state n ts)).0 ≡ some n
parse_state-format_sequence n ts h = ap (λ (i : StateInfo). i.0) (parse_state-format n ts h)

starts_ok-escape : (s : Text) → starts_ok s ≡ true → starts_ok (escape_colons s) ≡ true
unfolding escape_colons
starts_ok-escape [] h = refl
starts_ok-escape (c ∷ s) h = ground arith

ends_ok-escape : (s : Text) → ends_ok s ≡ true → ends_ok (escape_colons s) ≡ true
unfolding escape_colons
ends_ok-escape [] h = refl
ends_ok-escape (c ∷ []) h = ground arith
ends_ok-escape (c ∷ d ∷ s) h = ground (arith, ends_ok-escape (d ∷ s) h)

-- `parse_state` reads back from what `format_state` wrote the sequence number and the timestamp,
-- for a timestamp on one line that neither begins nor ends with white space; colons and
-- backslashes in it do no harm.
pub parse_state-format_state :
    (n : ℕ) (ts : Text)
    → NoBreak ts
    → starts_ok ts ≡ true
    → ends_ok ts ≡ true
    → parse_state (format_state n ts) ≡ (some n, ts)
parse_state-format_state n ts h b e =
    let back = ends_ok-escape ts e in
    rw (parse_state-format n ts h) (
      rw (rstrip_by-ends_ok (escape_colons ts) back) (
        rw (strip-ends_ok (escape_colons ts) (starts_ok-escape ts b) back)
          (rw (unescape-escape ts))))
