-- ===== src/Population/Stats/Sums.antt =====
-- The sum, the least and the greatest of the numbers that were counted.
use fwh_osm.Prelude.{
  ℕ, ◌*◌, ◌≤◌, min, max, List, [], ◌∷◌, ◌≡◌, ◌⊎◌, inl, inr, refl, sym, subst, arith, length, All,
  Among,
}
use fwh_osm.Population.Stats.{sum, least_of, greatest_of}

pub sum-below : (m : ℕ) (ns : List ℕ) → All (λ (n : ℕ). n ≤ m) ns → sum ns ≤ m * length ns
unfolding sum
sum-below m [] h = omega arith
sum-below m (n ∷ ns) (here, rest) = omega (arith, sum-below m ns rest)

pub sum-above : (m : ℕ) (ns : List ℕ) → All (λ (n : ℕ). m ≤ n) ns → m * length ns ≤ sum ns
unfolding sum
sum-above m [] h = omega arith
sum-above m (n ∷ ns) (here, rest) = omega (arith, sum-above m ns rest)

All-weaken-le :
    (a b : ℕ) (ns : List ℕ) → a ≤ b → All (λ (n : ℕ). n ≤ a) ns → All (λ (n : ℕ). n ≤ b) ns
All-weaken-le a b [] h all = tt
All-weaken-le a b (n ∷ ns) h (here, rest) = (omega arith, All-weaken-le a b ns h rest)

All-weaken-ge :
    (a b : ℕ) (ns : List ℕ) → b ≤ a → All (λ (n : ℕ). a ≤ n) ns → All (λ (n : ℕ). b ≤ n) ns
All-weaken-ge a b [] h all = tt
All-weaken-ge a b (n ∷ ns) h (here, rest) = (omega arith, All-weaken-ge a b ns h rest)

pub greatest_of-All : (n : ℕ) (ns : List ℕ) → All (λ (k : ℕ). k ≤ greatest_of n ns) (n ∷ ns)
unfolding greatest_of
greatest_of-All n [] = (omega arith, tt)
greatest_of-All n (m ∷ ms) = (
  omega arith,
  All-weaken-le (greatest_of m ms) (max n (greatest_of m ms)) (m ∷ ms) (omega arith)
      (greatest_of-All m ms),
)

pub least_of-All : (n : ℕ) (ns : List ℕ) → All (λ (k : ℕ). least_of n ns ≤ k) (n ∷ ns)
unfolding least_of
least_of-All n [] = (omega arith, tt)
least_of-All n (m ∷ ms) = (
  omega arith,
  All-weaken-ge (least_of m ms) (min n (least_of m ms)) (m ∷ ms) (omega arith) (least_of-All m ms),
)

-- One of the two numbers is the other.
min-Among : (n k : ℕ) (ms : List ℕ) → Among k ms → Among (min n k) (n ∷ ms)
min-Among n k ms h = elim (min-either n k) [
  | inl e ↦ inl e
  | inr e ↦ inr (subst (λ x. Among x ms) (sym e) h)
]
  where
    min-either : (n k : ℕ) → (min n k ≡ n) ⊎ (min n k ≡ k)
    min-either n k = ground arith

max-Among : (n k : ℕ) (ms : List ℕ) → Among k ms → Among (max n k) (n ∷ ms)
max-Among n k ms h = elim (max-either n k) [
  | inl e ↦ inl e
  | inr e ↦ inr (subst (λ x. Among x ms) (sym e) h)
]
  where
    max-either : (n k : ℕ) → (max n k ≡ n) ⊎ (max n k ≡ k)
    max-either n k = ground arith

pub least_of-Among : (n : ℕ) (ns : List ℕ) → Among (least_of n ns) (n ∷ ns)
unfolding least_of
least_of-Among n [] = inl refl
least_of-Among n (m ∷ ms) = min-Among n (least_of m ms) (m ∷ ms) (least_of-Among m ms)

pub greatest_of-Among : (n : ℕ) (ns : List ℕ) → Among (greatest_of n ns) (n ∷ ns)
unfolding greatest_of
greatest_of-Among n [] = inl refl
greatest_of-Among n (m ∷ ms) = max-Among n (greatest_of m ms) (m ∷ ms) (greatest_of-Among m ms)
