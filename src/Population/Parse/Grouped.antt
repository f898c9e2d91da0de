-- ===== src/Population/Parse/Grouped.antt =====
-- A number with thousands separators, and with words and signs around it, is read back.
use fwh_osm.Prelude.{
  append_none, ℕ, Bool, true, false, some, [], ◌∷◌, ◌++◌, keep, is_empty, ◌≡◌, refl, ◌∙◌, ap, arith,
}
use fwh_osm.Prelude.Int.{pos}
use fwh_osm.Prelude.Text.{
  Text, is_digit, isdigit, all_digits, decimal, decimal-isdigit, value-decimal,
}
use fwh_osm.Population.Places.{str}
use fwh_osm.Population.Parse.{has_char, parse_population, parse_pop}
use fwh_osm.Population.Parse.Digits.{NoMinus, parse_population-digits, from_natural}
use fwh_osm.Population.Match.{group_digits, grouped}

keep-group_digits : (s : Text) → all_digits s ≡ true → keep is_digit (group_digits s) ≡ s
unfolding group_digits
keep-group_digits [] h = refl
keep-group_digits (c ∷ s) h = ground (arith, keep-group_digits s)

group_digits-NoMinus : (s : Text) → all_digits s ≡ true → NoMinus (group_digits s)
unfolding group_digits has_char
group_digits-NoMinus [] h = refl
group_digits-NoMinus (c ∷ s) h = ground (arith, group_digits-NoMinus s)

keep-append : (p : ℕ → Bool) (s t : Text) → keep p (s ++ t) ≡ keep p s ++ keep p t
keep-append p [] t = refl
keep-append p (c ∷ s) t = ground (arith, keep-append p s t)

append-NoMinus : (s t : Text) → NoMinus s → NoMinus t → NoMinus (s ++ t)
unfolding has_char
append-NoMinus [] t h k = k
append-NoMinus (c ∷ s) t h k = ground (arith, append-NoMinus s t)

isdigit-all_digits : (s : Text) → isdigit s ≡ true → (all_digits s ≡ true) × (is_empty s ≡ false)
isdigit-all_digits [] h = cc
isdigit-all_digits (c ∷ s) h = (h, refl)

around-parse_pop :
    (pre post s : Text) (n : ℕ)
    → keep is_digit pre ≡ []
    → keep is_digit post ≡ []
    → keep is_digit s ≡ decimal n
    → parse_pop (pre ++ (s ++ post)) ≡ some n
unfolding parse_pop
around-parse_pop pre post s n a b e =
    let all : keep is_digit (pre ++ (s ++ post)) ≡ decimal n =
      keep-append is_digit pre (s ++ post)
      ∙ ap (λ l. l ++ keep is_digit (s ++ post)) a
      ∙ keep-append is_digit s post
      ∙ ap (λ l. keep is_digit s ++ l) b
      ∙ append_none (keep is_digit s)
      ∙ e in
    rw all (rw ((isdigit-all_digits (decimal n) (decimal-isdigit n)).1) (ap some (value-decimal n)))

-- A number written with thousands separators, as `describe_filter` writes it, is read back by
-- `parse_population`, also with signs and words around it that have neither a digit nor a minus.
pub parse_population-grouped :
    (n : ℕ) (pre post : Text)
    → keep is_digit pre ≡ []
    → keep is_digit post ≡ []
    → NoMinus pre
    → NoMinus post
    → parse_population (str (pre ++ (grouped n ++ post))) ≡ some (pos n)
unfolding grouped
parse_population-grouped n pre post a b m m' =
    let digits = (isdigit-all_digits (decimal n) (decimal-isdigit n)).0 in
    parse_population-digits (pre ++ (grouped n ++ post)) (
      append-NoMinus pre (grouped n ++ post) m
        (append-NoMinus (grouped n) post (group_digits-NoMinus (decimal n) digits) m'))
    ∙ ap from_natural
        (around-parse_pop pre post (grouped n) n a b (keep-group_digits (decimal n) digits))
