-- ===== src/Prelude/Text/Lines.antt =====
-- `str.splitlines`, `str.replace` for one pair, and `str.split` at the first separator.
use Prim.Native.Nat.{ℕ}
use mathlib.Core.Path.{◌≡◌, refl, ap}
use mathlib.Core.Bool.{Bool, false, ◌&&◌, ◌||◌}
use mathlib.Core.List.{List, [], ◌∷◌, ◌++◌}
use native.Mathlib.Omega.{arith}
use fwh_osm.Prelude.Tests.{leb, ◌==◌, if◌then◌else◌}
use fwh_osm.Prelude.Lists.{All, is_empty}
use fwh_osm.Prelude.Text.Strip.{Text}

abbrev pub is_break : ℕ → Bool
is_break c = (leb 10 c && leb c 13) || (leb 28 c && leb c 30)

abbrev pub starts_with_code : ℕ → Text → Bool
starts_with_code d [] = false
starts_with_code d (c ∷ s) = c == d

-- The current line and the lines behind it. The first character of "\r\n" is passed over, so that
-- the pair is one break.
unfoldable pub line_parts : Text → Text × List Text
line_parts [] = ([], [])
line_parts (c ∷ s) =
    let (cur, rest) = line_parts s in
    if c == 13 && starts_with_code 10 s
    then (cur, rest)
    else if is_break c
    then ([], cur ∷ rest)
    else (c ∷ cur, rest)

-- No empty line stands behind a final break.
unfoldable pub drop_last_empty : List Text → List Text
drop_last_empty [] = []
drop_last_empty (l ∷ []) = if is_empty l then [] else l ∷ []
drop_last_empty (l ∷ m ∷ ls) = l ∷ drop_last_empty (m ∷ ls)

unfoldable pub splitlines : Text → List Text
unfolding line_parts drop_last_empty
splitlines s = let (cur, rest) = line_parts s in drop_last_empty (cur ∷ rest)

abbrev pub NoBreak : Text → Type 0
NoBreak = All (λ c. is_break c ≡ false)

line_parts-line :
    (l s : Text) → NoBreak l → line_parts (l ++ 10 ∷ s) ≡ (l, (line_parts s).0 ∷ (line_parts s).1)
unfolding line_parts
line_parts-line [] s h = refl
line_parts-line (c ∷ l) s (h, hs) = rw (line_parts-line l s hs) (ground arith)

-- Two lines, each ended by a line feed, are split into those two lines.
pub splitlines-two :
    (l m : Text) → NoBreak l → NoBreak m → splitlines (l ++ 10 ∷ (m ++ 10 ∷ [])) ≡ l ∷ m ∷ []
unfolding splitlines
splitlines-two l m hl hm =
    rw (line_parts-line l (m ++ 10 ∷ []) hl, splitlines)
      (ap (λ (p : Text × List Text). drop_last_empty (l ∷ p.0 ∷ p.1)) (line_parts-line m [] hm))
