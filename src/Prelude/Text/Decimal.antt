-- ===== src/Prelude/Text/Decimal.antt =====
-- Decimal numerals: `str(n)`, `int(s)` on digits, and zero padding.
use Prim.Native.Nat.{ℕ, zero, suc, ◌+◌, ◌-◌, ◌*◌, ◌/◌, ◌%◌, ◌^◌, ◌≤◌, ◌<◌}
use mathlib.Core.Path.{◌≡◌, refl, ap, ◌∙◌}
use mathlib.Core.Logic.{inl, inr}
use mathlib.Core.Bool.{Bool, true, false, ◌&&◌}
use mathlib.Core.List.{[], ◌∷◌, ◌++◌}
use native.Mathlib.Omega.{arith}
use native.Mathlib.Nat.{pow-suc}
use fwh_osm.Prelude.Tests.{ltb, ltb→lt, Bool-cases, if◌then◌else◌}
use fwh_osm.Prelude.Lists.{length, replicate, length-append, length-replicate, is_empty}
use fwh_osm.Prelude.Text.Strip.{Text, is_digit}

-- The digits of `n` in front of `acc`, one round for each unit of fuel.
decimal_from : ℕ → ℕ → Text → Text
decimal_from zero n acc = acc
decimal_from (suc f) n acc =
    let here = (48 + n % 10) ∷ acc in
    let more = decimal_from f (n / 10) here in if ltb n 10 then here else more

-- `str(n)`
unfoldable pub decimal : ℕ → Text
unfolding decimal_from
decimal n = decimal_from (suc n) n []

-- `int(s)` for a text of digits, from the left.
unfoldable pub value_from : ℕ → Text → ℕ
value_from acc [] = acc
value_from acc (c ∷ s) = value_from (acc * 10 + (c - 48)) s

unfoldable pub value : Text → ℕ
unfolding value_from
value s = value_from 0 s

abbrev pub all_digits : Text → Bool
all_digits [] = true
all_digits (c ∷ s) = is_digit c && all_digits s

-- `s.isdigit()`: the empty text is not one.
abbrev pub isdigit : Text → Bool
isdigit [] = false
isdigit (c ∷ s) = all_digits (c ∷ s)

-- `f"{n:0{w}d}"`
unfoldable pub zfill : ℕ → ℕ → Text
unfolding decimal
zfill w n = let s = decimal n in replicate (w - length s) 48 ++ s

pub value_from-append :
    (acc : ℕ) (s t : Text) → value_from acc (s ++ t) ≡ value_from (value_from acc s) t
unfolding value_from
value_from-append acc [] t = refl
value_from-append acc (c ∷ s) t = value_from-append (acc * 10 + (c - 48)) s t

-- Reading what was printed in front of `acc`, from any value on the left.
decimal_from-value :
    (f n : ℕ) (acc : Text) → n < f → value_from 0 (decimal_from f n acc) ≡ value_from n acc
unfolding decimal_from value_from
decimal_from-value zero n acc h = elim h [ ]
decimal_from-value (suc f) n acc h = elim (Bool-cases (ltb n 10)) [
  | inl small ↦ rw small (ap (λ k. value_from k acc) (omega (arith, ltb→lt n 10 small)))
  | inr large ↦ rw large (
      decimal_from-value f (n / 10) ((48 + n % 10) ∷ acc) (ground arith)
      ∙ ap (λ k. value_from k acc) (omega arith))
]

-- `int(str(n))` is `n`.
pub value-decimal : (n : ℕ) → value (decimal n) ≡ n
unfolding decimal value value_from
value-decimal n = decimal_from-value (suc n) n [] (omega arith)

decimal_from-all_digits :
    (f n : ℕ) (acc : Text) → all_digits acc ≡ true → all_digits (decimal_from f n acc) ≡ true
unfolding decimal_from
decimal_from-all_digits zero n acc h = h
decimal_from-all_digits (suc f) n acc h =
    ground (arith, decimal_from-all_digits f (n / 10) ((48 + n % 10) ∷ acc))

decimal_from-length :
    (f n k : ℕ) (acc : Text) → n < 10 ^ suc k → length (decimal_from f n acc) ≤ length acc + suc k
unfolding decimal_from
decimal_from-length zero n k acc h = omega arith
decimal_from-length (suc f) n zero acc h = ground arith
decimal_from-length (suc f) n (suc k) acc h =
    let p : 10 ^ suc (suc k) ≡ 10 ^ suc k * 10 = pow-suc 10 (suc k) in
    ground (arith, decimal_from-length f (n / 10) k ((48 + n % 10) ∷ acc))

pub length-decimal : (n k : ℕ) → n < 10 ^ suc k → length (decimal n) ≤ suc k
unfolding decimal
length-decimal n k h = omega (arith, decimal_from-length (suc n) n k [] h)

decimal_from-nonempty :
    (f n : ℕ) (c : ℕ) (acc : Text) → is_empty (decimal_from f n (c ∷ acc)) ≡ false
unfolding decimal_from
decimal_from-nonempty zero n c acc = refl
decimal_from-nonempty (suc f) n c acc =
    ground (arith, decimal_from-nonempty f (n / 10) (48 + n % 10) (c ∷ acc))

digits_shape : (s : Text) → all_digits s ≡ true → is_empty s ≡ false → isdigit s ≡ true
digits_shape [] h k = cc
digits_shape (c ∷ s) h k = h

-- A printed number is a non-empty text of digits.
pub decimal-isdigit : (n : ℕ) → isdigit (decimal n) ≡ true
unfolding decimal decimal_from
decimal-isdigit n =
    digits_shape (decimal_from (suc n) n []) (decimal_from-all_digits (suc n) n [] refl)
      (ground (arith, decimal_from-nonempty n (n / 10) (48 + n % 10) []))

value_from-zeros : (k : ℕ) (s : Text) → value_from 0 (replicate k 48 ++ s) ≡ value_from 0 s
unfolding value_from
value_from-zeros zero s = refl
value_from-zeros (suc k) s = value_from-zeros k s

-- Zero padding does not change the number that is read.
pub value-zfill : (w n : ℕ) → value (zfill w n) ≡ n
unfolding value zfill
value-zfill w n =
    value_from-zeros (w - length (decimal n)) (decimal n) ∙ (unfold value in value-decimal n)

pub length-zfill : (w n : ℕ) → n < 10 ^ suc w → length (zfill (suc w) n) ≡ suc w
unfolding zfill
length-zfill w n h = omega (
  arith,
  length-append (replicate (suc w - length (decimal n)) 48) (decimal n),
  length-replicate {A = ℕ} (suc w - length (decimal n)) 48,
  length-decimal n w h,
)
