-- ===== src/Population/Parse/Digits.antt =====
-- A text with no minus is read as the number of its digits, wherever they stand.
use fwh_osm.Prelude.{
  append_none, ℕ, Bool, true, false, not, Option, none, some, [], ◌∷◌, ◌++◌, if◌then◌else◌, ◌==◌,
  keep, is_empty, ◌≡◌, refl, sym, ◌∙◌, ap, arith,
}
use fwh_osm.Prelude.Int.{ℤ, pos}
use fwh_osm.Prelude.Text.{Text, strip, lstrip_by, rstrip_by, is_digit, is_space, value}
use fwh_osm.Population.Places.{str}
use fwh_osm.Population.Parse.{
  is_about, is_plus, comma, period, has_char, remove_char, drop_separators, numeric, read_int,
  parse_stripped, parse_population, parse_pop,
}

-- Trimming characters that are no digits keeps the digits.
keep-lstrip_by :
    (p : ℕ → Bool) (s : Text)
    → ((c : ℕ) → p c ≡ true → is_digit c ≡ false)
    → keep is_digit (lstrip_by p s) ≡ keep is_digit s
unfolding lstrip_by
keep-lstrip_by p [] h = refl
keep-lstrip_by p (c ∷ s) h = ground (arith, keep-lstrip_by p s h, h c)

empty-keep : (s : Text) → is_empty s ≡ true → keep is_digit s ≡ []
empty-keep [] h = refl
empty-keep (c ∷ s) h = cc

keep-rstrip_by :
    (p : ℕ → Bool) (s : Text)
    → ((c : ℕ) → p c ≡ true → is_digit c ≡ false)
    → keep is_digit (rstrip_by p s) ≡ keep is_digit s
unfolding rstrip_by
keep-rstrip_by p [] h = refl
keep-rstrip_by p (c ∷ s) h =
    let rest = keep-rstrip_by p s h in
    let none_left = empty-keep (rstrip_by p s) in ground (arith, rest, h c, none_left)

-- Nor does `strip`, nor the removal of separators.
keep-strip : (s : Text) → keep is_digit (strip s) ≡ keep is_digit s
unfolding strip
keep-strip s =
    keep-rstrip_by is_space (lstrip_by is_space s) (λ c h. ground arith)
    ∙ keep-lstrip_by is_space s (λ c h. ground arith)

keep-remove_char :
    (k : ℕ) (s : Text) → is_digit k ≡ false → keep is_digit (remove_char k s) ≡ keep is_digit s
unfolding remove_char
keep-remove_char k [] h = refl
keep-remove_char k (c ∷ s) h = ground (arith, keep-remove_char k s h)

keep-drop_separators : (s : Text) → keep is_digit (drop_separators s) ≡ keep is_digit s
unfolding drop_separators
keep-drop_separators s =
    ground (arith, keep-remove_char comma s refl, keep-remove_char period s refl)

-- No minus.
abbrev pub NoMinus : Text → Type 0
NoMinus s = has_char 45 s ≡ false

keep-NoMinus : (p : ℕ → Bool) (s : Text) → NoMinus s → NoMinus (keep p s)
unfolding has_char
keep-NoMinus p [] h = refl
keep-NoMinus p (c ∷ s) h = ground (arith, keep-NoMinus p s)

drop_separators-NoMinus : (s : Text) → NoMinus s → NoMinus (drop_separators s)
unfolding drop_separators remove_char
drop_separators-NoMinus s h =
    ground
      (arith, keep-NoMinus (λ c. not (c == comma)) s h, keep-NoMinus (λ c. not (c == period)) s h)

lstrip_by-NoMinus : (p : ℕ → Bool) (s : Text) → NoMinus s → NoMinus (lstrip_by p s)
unfolding lstrip_by has_char
lstrip_by-NoMinus p [] h = refl
lstrip_by-NoMinus p (c ∷ s) h = ground (arith, lstrip_by-NoMinus p s)

rstrip_by-NoMinus : (p : ℕ → Bool) (s : Text) → NoMinus s → NoMinus (rstrip_by p s)
unfolding rstrip_by has_char
rstrip_by-NoMinus p [] h = refl
rstrip_by-NoMinus p (c ∷ s) h = ground (arith, rstrip_by-NoMinus p s)

strip-NoMinus : (s : Text) → NoMinus s → NoMinus (strip s)
unfolding strip
strip-NoMinus s h = rstrip_by-NoMinus is_space _ (lstrip_by-NoMinus is_space s h)

append_one : (s t : Text) (c : ℕ) → (s ++ c ∷ []) ++ t ≡ s ++ c ∷ t
append_one [] t c = refl
append_one (x ∷ s) t c = ap (λ l. x ∷ l) (append_one s t c)

-- With no minus, the loop collects the digits.
numeric-keep : (s r : Text) → NoMinus s → numeric r s ≡ r ++ keep is_digit s
unfolding numeric has_char
numeric-keep [] r h = sym (append_none r)
numeric-keep (c ∷ s) r h =
    ground (arith, numeric-keep s r, numeric-keep s (r ++ c ∷ []), append_one r (keep is_digit s) c)

read_int-digits : (s : Text) → NoMinus s → is_empty s ≡ false → read_int s ≡ some (pos (value s))
unfolding read_int has_char
read_int-digits [] h n = cc
read_int-digits (c ∷ []) h n = ground arith
read_int-digits (c ∷ d ∷ s) h n = ground arith

abbrev pub from_natural : Option ℕ → Option ℤ
from_natural none = none
from_natural (some n) = some (pos n)

read_int-parse_pop :
    (digits : Text)
    → NoMinus digits
    → read_int digits ≡ from_natural (if is_empty digits then none else some (value digits))
unfolding read_int
read_int-parse_pop [] h = refl
read_int-parse_pop (c ∷ s) h = read_int-digits (c ∷ s) h refl

parse_stripped-parse_pop : (s : Text) → NoMinus s → parse_stripped s ≡ from_natural (parse_pop s)
unfolding parse_stripped parse_pop
parse_stripped-parse_pop [] h = refl
parse_stripped-parse_pop (c ∷ s) h =
    let left = lstrip_by is_about (c ∷ s) in
    let cleaned = rstrip_by is_plus left in
    let no_minus =
      drop_separators-NoMinus cleaned
        (rstrip_by-NoMinus is_plus left (lstrip_by-NoMinus is_about (c ∷ s) h)) in
    let kept : keep is_digit (drop_separators cleaned) ≡ keep is_digit (c ∷ s) =
      keep-drop_separators cleaned
      ∙ keep-rstrip_by is_plus left (λ k e. ground arith)
      ∙ keep-lstrip_by is_about (c ∷ s) (λ k e. ground arith) in
    ap read_int (numeric-keep (drop_separators cleaned) [] no_minus ∙ kept)
    ∙ read_int-parse_pop (keep is_digit (c ∷ s)) (keep-NoMinus is_digit (c ∷ s) h)

parse_pop-keep : (s t : Text) → keep is_digit t ≡ keep is_digit s → parse_pop t ≡ parse_pop s
unfolding parse_pop
parse_pop-keep s t e = rw e

pub parse_population-digits :
    (s : Text) → NoMinus s → parse_population (str s) ≡ from_natural (parse_pop s)
unfolding parse_population
parse_population-digits s h =
    parse_stripped-parse_pop (strip s) (strip-NoMinus s h)
    ∙ ap from_natural (parse_pop-keep s (strip s) (keep-strip s))
