-- ===== src/Prelude/Table.antt =====
-- Dictionaries with numbers as keys, in the order of insertion, and dictionaries of lists.
use Prim.Native.Nat.{ℕ}
use mathlib.Core.Path.{◌≡◌, refl}
use mathlib.Core.Bool.{Bool, true, false}
use mathlib.Core.Option.{Option, none, some}
use mathlib.Core.List.{List, [], ◌∷◌, ◌++◌}
use native.Mathlib.Omega.{arith}
use Prim.Native.String.{String}
use fwh_osm.Prelude.Tests.{◌==◌, if◌then◌else◌, str_eq, str_eq_iff}

module _ {ℓ} {V : Type ℓ} where
  -- `table.get(k)`
  unfoldable pub find : ℕ → List (ℕ × V) → Option V
  find k [] = none
  find k ((j, v) ∷ t) = if j == k then some v else find k t

  -- `table[k] = v`
  unfoldable pub put : ℕ → V → List (ℕ × V) → List (ℕ × V)
  put k v [] = (k, v) ∷ []
  put k v ((j, w) ∷ t) = if j == k then (j, v) ∷ t else (j, w) ∷ put k v t

  pub find-put :
      (k j : ℕ) (v : V) (t : List (ℕ × V))
      → find j (put k v t) ≡ (if k == j then some v else find j t)
  unfolding find put
  find-put k j v [] = refl
  find-put k j v ((i, w) ∷ t) = ground (arith, find-put k j v t)

  -- `table[k].append(v)` on a `defaultdict(list)`
  unfoldable pub append_at : ℕ → V → List (ℕ × List V) → List (ℕ × List V)
  append_at k v [] = (k, v ∷ []) ∷ []
  append_at k v ((j, vs) ∷ t) = if j == k then (j, vs ++ v ∷ []) ∷ t else (j, vs) ∷ append_at k v t

  -- `table.get(k, [])`
  unfoldable pub listed : ℕ → List (ℕ × List V) → List V
  listed k [] = []
  listed k ((j, vs) ∷ t) = if j == k then vs else listed k t

  pub listed-append_at :
      (k j : ℕ) (v : V) (t : List (ℕ × List V))
      → listed j (append_at k v t) ≡ (if k == j then listed j t ++ v ∷ [] else listed j t)
  unfolding listed append_at
  listed-append_at k j v [] = ground arith
  listed-append_at k j v ((i, ws) ∷ t) = ground (arith, listed-append_at k j v t)

-- Dictionaries with names as keys.
module _ {ℓ} {V : Type ℓ} where
  -- `table.get(k)`
  unfoldable pub find_name : String → List (String × V) → Option V
  find_name k [] = none
  find_name k ((j, v) ∷ t) = if str_eq j k then some v else find_name k t

  -- `table.get(k, default)`
  unfoldable pub find_or : V → String → List (String × V) → V
  unfolding find_name
  find_or default k t = elim (find_name k t) [ none ↦ default | some v ↦ v ]

  -- `table[k] = v`
  unfoldable pub put_name : String → V → List (String × V) → List (String × V)
  put_name k v [] = (k, v) ∷ []
  put_name k v ((j, w) ∷ t) = if str_eq j k then (j, v) ∷ t else (j, w) ∷ put_name k v t

  pub find_name-put_name :
      (k j : String) (v : V) (t : List (String × V))
      → find_name j (put_name k v t) ≡ (if str_eq k j then some v else find_name j t)
  unfolding find_name put_name
  find_name-put_name k j v [] = refl
  find_name-put_name k j v ((i, w) ∷ t) =
      ground (arith, str_eq_iff k j, str_eq_iff i k, str_eq_iff i j, find_name-put_name k j v t)

-- `n in ns`
unfoldable pub has_number : ℕ → List ℕ → Bool
has_number n [] = false
has_number n (m ∷ ms) = if m == n then true else has_number n ms

pub has_number-append :
    (n : ℕ) (ms ks : List ℕ)
    → has_number n (ms ++ ks) ≡ (if has_number n ms then true else has_number n ks)
unfolding has_number
has_number-append n [] ks = refl
has_number-append n (m ∷ ms) ks = ground (arith, has_number-append n ms ks)
