-- ===== src/Prelude/Sets.antt =====
-- Sets of numbers as lists: what a set holds is asked with `has_number`.
use Prim.Native.Nat.{ℕ, ◌+◌}
use mathlib.Core.Path.{◌≡◌, refl}
use mathlib.Core.Bool.{Bool, true, not, ◌&&◌}
use mathlib.Core.List.{List, [], ◌∷◌, ◌++◌}
use native.Mathlib.Omega.{arith}
use fwh_osm.Prelude.Tests.{◌==◌, if◌then◌else◌}
use fwh_osm.Prelude.Lists.{keep}
use fwh_osm.Prelude.Table.{has_number, has_number-append}

pub has_number-keep :
    (p : ℕ → Bool) (n : ℕ) (ms : List ℕ) → has_number n (keep p ms) ≡ (has_number n ms && p n)
unfolding has_number
has_number-keep p n [] = refl
has_number-keep p n (m ∷ ms) = ground (arith, has_number-keep p n ms)

-- `a - b`
unfoldable pub minus : List ℕ → List ℕ → List ℕ
minus ms ks = keep (λ m. not (has_number m ks)) ms

-- `a | b`
unfoldable pub union : List ℕ → List ℕ → List ℕ
union ms ks = ms ++ keep (λ k. not (has_number k ms)) ks

-- `a & b`
unfoldable pub intersect : List ℕ → List ℕ → List ℕ
intersect ms ks = keep (λ m. has_number m ks) ms

pub has_number-minus :
    (n : ℕ) (ms ks : List ℕ)
    → has_number n (minus ms ks) ≡ (has_number n ms && not (has_number n ks))
unfolding minus
has_number-minus n ms ks = has_number-keep (λ m. not (has_number m ks)) n ms

pub has_number-union :
    (n : ℕ) (ms ks : List ℕ)
    → has_number n (union ms ks) ≡ (if has_number n ms then true else has_number n ks)
unfolding union
has_number-union n ms ks = ground (
  arith,
  has_number-append n ms (keep (λ k. not (has_number k ms)) ks),
  has_number-keep (λ k. not (has_number k ms)) n ks,
)

pub has_number-intersect :
    (n : ℕ) (ms ks : List ℕ) → has_number n (intersect ms ks) ≡ (has_number n ms && has_number n ks)
unfolding intersect
has_number-intersect n ms ks = has_number-keep (λ m. has_number m ks) n ms

-- `a <= b`
abbrev pub IsSubset : List ℕ → List ℕ → Type 0
IsSubset ms ks = (n : ℕ) → has_number n ms ≡ true → has_number n ks ≡ true

-- How often an id stands in a list.
abbrev pub count : ℕ → List ℕ → ℕ
count id [] = 0
count id (n ∷ ns) = (if n == id then 1 else 0) + count id ns

pub count-append : (id : ℕ) (ms ns : List ℕ) → count id (ms ++ ns) ≡ count id ms + count id ns
count-append id [] ns = omega arith
count-append id (m ∷ ms) ns = omega (arith, count-append id ms ns)
