-- ===== src/Population/Parse.antt =====
-- `parse_population`, and the `_parse_pop` of the extraction from a PBF.
pub mod Digits
pub mod Grouped
use fwh_osm.Prelude.{
  ℕ, suc, Bool, true, false, not, ◌&&◌, ◌||◌, Option, none, some, List, [], ◌∷◌, ◌++◌,
  if◌then◌else◌, ◌==◌, length, keep, is_empty,
}
use fwh_osm.Prelude.Int.{ℤ, pos, negsuc, negate}
use fwh_osm.Prelude.Text.{Text, strip, lstrip_by, rstrip_by, is_digit, isdigit, value}
use fwh_osm.Population.Places.{Value, null, bool, int, str, other}

-- `c in "~≈≅"`
abbrev pub is_about : ℕ → Bool
is_about c = c == 126 || (c == 8776 || c == 8773)

abbrev pub is_plus : ℕ → Bool
is_plus c = c == 43

abbrev pub comma : ℕ
comma = 44

abbrev pub period : ℕ
period = 46

-- `c in s` and `s.replace(c, "")`
unfoldable pub has_char : ℕ → Text → Bool
has_char k [] = false
has_char k (c ∷ s) = c == k || has_char k s

unfoldable pub remove_char : ℕ → Text → Text
remove_char k s = keep (λ c. not (c == k)) s

-- `s.split(c)`
unfoldable pub cons_head : ℕ → List Text → List Text
cons_head c [] = (c ∷ []) ∷ []
cons_head c (p ∷ ps) = (c ∷ p) ∷ ps

unfoldable pub split : ℕ → Text → List Text
unfolding cons_head
split k [] = [] ∷ []
split k (c ∷ s) = let rest = split k s in if c == k then [] ∷ rest else cons_head c rest

-- Two parts, the second of them three digits.
unfoldable pub looks_like_thousands : List Text → Bool
looks_like_thousands (_ ∷ p ∷ []) = length p == 3 && isdigit p
looks_like_thousands _ = false

unfoldable pub drop_separators : Text → Text
unfolding has_char remove_char split looks_like_thousands
drop_separators s =
    let has_comma = has_char comma s in
    let has_period = has_char period s in
    if has_comma && not has_period
    then remove_char comma s
    else if has_period && not has_comma
    then (if looks_like_thousands (split period s) then remove_char period s else s)
    else s

-- The loop over the characters, with `result` so far: the digits, and a minus in front of them.
unfoldable pub numeric : Text → Text → Text
numeric result [] = result
numeric result (c ∷ s) =
    numeric (if is_digit c || (c == 45 && is_empty result) then result ++ c ∷ [] else result) s

-- `int(result)`, unless it is empty or a minus alone.
unfoldable pub read_int : Text → Option ℤ
read_int [] = none
read_int (c ∷ []) = if c == 45 then none else some (pos (value (c ∷ [])))
read_int (c ∷ d ∷ s) =
    if c == 45 then some (negate (value (d ∷ s))) else some (pos (value (c ∷ d ∷ s)))

-- Behind `str(value).strip()`
unfoldable pub parse_stripped : Text → Option ℤ
unfolding drop_separators numeric read_int
parse_stripped [] = none
parse_stripped (c ∷ s) =
    read_int (numeric [] (drop_separators (rstrip_by is_plus (lstrip_by is_about (c ∷ s)))))

-- Python's `bool` is an `int`.
unfoldable pub parse_population : Value → Option ℤ
unfolding parse_stripped
parse_population null = none
parse_population (int n) = some n
parse_population (bool true) = some (pos 1)
parse_population (bool false) = some (pos 0)
parse_population (str s) = parse_stripped (strip s)
parse_population (other s) = parse_stripped (strip s)

-- `re.sub(r"[^0-9]", "", value)`, read as a number
unfoldable pub parse_pop : Text → Option ℕ
parse_pop s = let digits = keep is_digit s in if is_empty digits then none else some (value digits)
