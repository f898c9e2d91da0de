-- ===== src/Prelude/Text/Strip.antt =====
-- Code points, white space, prefixes, and the methods that trim and search.
use Prim.Native.Nat.{ℕ, ◌+◌}
use Prim.Native.Char.{code}
use Prim.Native.String.{String}
use mathlib.Core.Path.{◌≡◌, refl, subst}
use mathlib.Core.Logic.{◌↔◌}
use mathlib.Core.Bool.{Bool, true, false, ◌&&◌, ◌||◌}
use mathlib.Core.Option.{Option, none, some}
use mathlib.Core.List.{List, [], ◌∷◌, ◌++◌, map}
use native.Mathlib.Omega.{arith}
use fwh_osm.Prelude.Tests.{leb, ◌==◌, if◌then◌else◌}
use fwh_osm.Prelude.Lists.{is_empty}

abbrev pub Text : Type 0
Text = List ℕ

-- The code points of a literal.
abbrev pub codes : String → Text
codes String.[] = []
codes (String.◌∷◌ c s) = code c ∷ codes s

abbrev pub is_space : ℕ → Bool
is_space c = (leb 9 c && leb c 13) || (leb 28 c && leb c 32)

abbrev pub is_digit : ℕ → Bool
is_digit c = leb 48 c && leb c 57

-- `c.lower()`
abbrev pub to_lower : ℕ → ℕ
to_lower c = if leb 65 c && leb c 90 then c + 32 else c

abbrev pub lower : Text → Text
lower = map to_lower

abbrev pub same_text : Text → Text → Bool
same_text [] [] = true
same_text (a ∷ s) (b ∷ t) = a == b && same_text s t
same_text _ _ = false

module _ (p : ℕ → Bool) where
  -- `s.lstrip(chars)` and `s.rstrip(chars)`, for the characters that pass the test.
  unfoldable pub lstrip_by : Text → Text
  lstrip_by [] = []
  lstrip_by (c ∷ s) = let rest = lstrip_by s in if p c then rest else c ∷ s

  unfoldable pub rstrip_by : Text → Text
  rstrip_by [] = []
  rstrip_by (c ∷ s) = let rest = rstrip_by s in if p c && is_empty rest then [] else c ∷ rest

-- `s.strip()`
unfoldable pub strip : Text → Text
unfolding lstrip_by rstrip_by
strip s = rstrip_by is_space (lstrip_by is_space s)

-- What stands behind a prefix; `none` if the text does not start with it.
unfoldable pub after_prefix : Text → Text → Option Text
after_prefix [] s = some s
after_prefix (p ∷ ps) [] = none
after_prefix (p ∷ ps) (c ∷ s) = let rest = after_prefix ps s in if p == c then rest else none

pub after_prefix-append : (p s : Text) → after_prefix p (p ++ s) ≡ some s
unfolding after_prefix
after_prefix-append [] s = refl
after_prefix-append (c ∷ p) s = ground (arith, after_prefix-append p s)

-- A text that `strip` leaves alone: it neither begins nor ends with white space.
abbrev pub ends_ok : Text → Bool
ends_ok [] = true
ends_ok (c ∷ []) = if is_space c then false else true
ends_ok (c ∷ d ∷ s) = ends_ok (d ∷ s)

abbrev pub starts_ok : Text → Bool
starts_ok [] = true
starts_ok (c ∷ s) = if is_space c then false else true

pub rstrip_by-ends_ok : (s : Text) → ends_ok s ≡ true → rstrip_by is_space s ≡ s
unfolding rstrip_by
rstrip_by-ends_ok [] h = refl
rstrip_by-ends_ok (c ∷ []) h = ground arith
rstrip_by-ends_ok (c ∷ d ∷ s) h = rw (rstrip_by-ends_ok (d ∷ s) h) (ground arith)

pub lstrip_by-starts_ok : (s : Text) → starts_ok s ≡ true → lstrip_by is_space s ≡ s
unfolding lstrip_by
lstrip_by-starts_ok [] h = refl
lstrip_by-starts_ok (c ∷ s) h = ground arith

pub strip-ends_ok : (s : Text) → starts_ok s ≡ true → ends_ok s ≡ true → strip s ≡ s
unfolding strip
strip-ends_ok s h k = rw (lstrip_by-starts_ok s h) (rstrip_by-ends_ok s k)

pub same_text_sound : (s t : Text) → same_text s t ≡ true → s ≡ t
same_text_sound [] [] h = refl
same_text_sound [] (_ ∷ _) h = cc
same_text_sound (_ ∷ _) [] h = cc
same_text_sound (a ∷ s) (b ∷ t) h = ground (arith, same_text_sound s t)

pub same_text_refl : (s : Text) → same_text s s ≡ true
same_text_refl [] = refl
same_text_refl (a ∷ s) = ground (arith, same_text_refl s)

pub same_text_iff : (s t : Text) → (same_text s t ≡ true) ↔ (s ≡ t)
same_text_iff s t =
    (same_text_sound s t, λ e. subst (λ k. same_text s k ≡ true) e (same_text_refl s))
