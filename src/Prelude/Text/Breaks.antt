-- ===== src/Prelude/Text/Breaks.antt =====
-- The methods on texts put no line break where there was none.
use mathlib.Core.Path.{◌≡◌, subst}
use mathlib.Core.Option.{some}
use mathlib.Core.List.{List, [], ◌∷◌}
use native.Mathlib.Omega.{arith}
use fwh_osm.Prelude.Lists.{All}
use fwh_osm.Prelude.Text.Strip.{Text, is_space, strip, lstrip_by, rstrip_by, after_prefix}
use fwh_osm.Prelude.Text.Lines.{NoBreak, line_parts, drop_last_empty, splitlines}

lstrip_by-NoBreak : (s : Text) → NoBreak s → NoBreak (lstrip_by is_space s)
unfolding lstrip_by
lstrip_by-NoBreak [] h = tt
lstrip_by-NoBreak (c ∷ s) h = ground (arith, lstrip_by-NoBreak s)

rstrip_by-NoBreak : (s : Text) → NoBreak s → NoBreak (rstrip_by is_space s)
unfolding rstrip_by
rstrip_by-NoBreak [] h = tt
rstrip_by-NoBreak (c ∷ s) h = ground (arith, rstrip_by-NoBreak s)

pub strip-NoBreak : (s : Text) → NoBreak s → NoBreak (strip s)
unfolding strip
strip-NoBreak s h = rstrip_by-NoBreak (lstrip_by is_space s) (lstrip_by-NoBreak s h)

pub after_prefix-NoBreak :
    (p s : Text) {r : Text} → after_prefix p s ≡ some r → NoBreak s → NoBreak r
unfolding after_prefix
after_prefix-NoBreak [] s e h = subst NoBreak (ground arith) h
after_prefix-NoBreak (p ∷ ps) [] e h = cc
after_prefix-NoBreak (p ∷ ps) (c ∷ s) e (hc, hs) = after_prefix-NoBreak ps s (ground arith) hs

line_parts-NoBreak : (s : Text) → NoBreak (line_parts s).0 × All NoBreak (line_parts s).1
unfolding line_parts
line_parts-NoBreak [] = (tt, tt)
line_parts-NoBreak (c ∷ s) = ground (arith, line_parts-NoBreak s)

drop_last_empty-NoBreak : (ls : List Text) → All NoBreak ls → All NoBreak (drop_last_empty ls)
unfolding drop_last_empty
drop_last_empty-NoBreak [] h = tt
drop_last_empty-NoBreak (l ∷ []) h = ground arith
drop_last_empty-NoBreak (l ∷ m ∷ ls) (h, hs) = (h, drop_last_empty-NoBreak (m ∷ ls) hs)

pub splitlines-NoBreak : (s : Text) → All NoBreak (splitlines s)
unfolding splitlines
splitlines-NoBreak s =
    let parts = line_parts-NoBreak s in
    drop_last_empty-NoBreak ((line_parts s).0 ∷ (line_parts s).1) (parts.0, parts.1)
