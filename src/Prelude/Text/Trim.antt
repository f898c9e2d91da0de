-- ===== src/Prelude/Text/Trim.antt =====
-- What trimming leaves of a text that begins with characters other than white space.
use Prim.Native.Nat.{ℕ}
use mathlib.Core.Path.{◌≡◌, refl}
use mathlib.Core.Bool.{Bool, true, ◌&&◌, not}
use mathlib.Core.List.{[], ◌∷◌, ◌++◌}
use native.Mathlib.Omega.{arith}
use fwh_osm.Prelude.Text.Decimal.{all_digits}
use fwh_osm.Prelude.Text.Strip.{Text, is_space, strip, lstrip_by, rstrip_by, lstrip_by-starts_ok}

abbrev pub no_space : Text → Bool
no_space [] = true
no_space (c ∷ s) = not (is_space c) && no_space s

pub rstrip_by-key :
    (k s : Text) → no_space k ≡ true → rstrip_by is_space (k ++ s) ≡ k ++ rstrip_by is_space s
unfolding rstrip_by
rstrip_by-key [] s h = refl
rstrip_by-key (c ∷ k) s h = ground (arith, rstrip_by-key k s)

pub strip-key :
    (c : ℕ) (k s : Text)
    → no_space (c ∷ k) ≡ true
    → strip (c ∷ (k ++ s)) ≡ c ∷ (k ++ rstrip_by is_space s)
unfolding strip
strip-key c k s h =
    rw (lstrip_by-starts_ok (c ∷ (k ++ s)) (ground arith)) (rstrip_by-key (c ∷ k) s h)

pub rstrip_by-no_space : (s : Text) → no_space s ≡ true → rstrip_by is_space s ≡ s
unfolding rstrip_by
rstrip_by-no_space [] h = refl
rstrip_by-no_space (c ∷ s) h = ground (arith, rstrip_by-no_space s)

pub strip-no_space : (s : Text) → no_space s ≡ true → strip s ≡ s
unfolding strip
strip-no_space [] h = unfold lstrip_by rstrip_by in refl
strip-no_space (c ∷ s) h =
    rw (lstrip_by-starts_ok (c ∷ s) (ground arith)) (rstrip_by-no_space (c ∷ s) h)

pub no_space-all_digits : (s : Text) → all_digits s ≡ true → no_space s ≡ true
no_space-all_digits [] h = refl
no_space-all_digits (c ∷ s) h = ground (arith, no_space-all_digits s)
