-- ===== src/Population/Top/Ranked.antt =====
-- The output is ranked, keeps the order of equals, and leaves out only what is not above it.
use fwh_osm.Prelude.{
  ℕ, zero, suc, min, List, [], ◌∷◌, ◌++◌, ◌≡◌, inl, inr, refl, ◌∙◌, ap, arith, length, take, drop,
  keep, All, Bool-cases, length-take, take-append-drop,
}
use fwh_osm.Prelude.Int.{ℤ, pos, leb_ℤ, eqb_ℤ, ◌≤ℤ◌}
use fwh_osm.Population.Filter.{Feature}
use fwh_osm.Population.Top.{pop, insert_ranked, sorted_by_pop, top_n_by_population}

-- No feature of the list is above `n`.
abbrev pub AllBelow : ℤ → List Feature → Type 0
AllBelow n fs = All (λ (f : Feature). pop f ≤ℤ n) fs

-- Populations never rise.
abbrev pub IsRanked : List Feature → Type 0
IsRanked [] = Unit
IsRanked (f ∷ fs) = AllBelow (pop f) fs × IsRanked fs

le_ℤ_trans : (a b c : ℤ) → a ≤ℤ b → b ≤ℤ c → a ≤ℤ c
le_ℤ_trans a b c h k = omega arith

AllBelow-trans : (a b : ℤ) (fs : List Feature) → a ≤ℤ b → AllBelow a fs → AllBelow b fs
AllBelow-trans a b [] h all = tt
AllBelow-trans a b (f ∷ fs) h (here, rest) =
    (le_ℤ_trans (pop f) a b here h, AllBelow-trans a b fs h rest)

insert_ranked-AllBelow :
    (n : ℤ) (f : Feature) (fs : List Feature)
    → pop f ≤ℤ n
    → AllBelow n fs
    → AllBelow n (insert_ranked f fs)
unfolding insert_ranked
insert_ranked-AllBelow n f [] h all = (h, tt)
insert_ranked-AllBelow n f (g ∷ gs) h (here, rest) = elim (Bool-cases (leb_ℤ (pop g) (pop f))) [
  | inl above ↦ rw above (h, (here, rest))
  | inr below ↦ rw below (here, insert_ranked-AllBelow n f gs h rest)
]

insert_ranked-IsRanked :
    (f : Feature) (fs : List Feature) → IsRanked fs → IsRanked (insert_ranked f fs)
unfolding insert_ranked
insert_ranked-IsRanked f [] h = (tt, tt)
insert_ranked-IsRanked f (g ∷ gs) (all, ranked) = elim (Bool-cases (leb_ℤ (pop g) (pop f))) [
  | inl above ↦
      let le : pop g ≤ℤ pop f = ground arith in
      rw above ((le, AllBelow-trans (pop g) (pop f) gs le all), (all, ranked))
  | inr below ↦
      let le : pop f ≤ℤ pop g = ground arith in
      rw below (insert_ranked-AllBelow (pop g) f gs le all, insert_ranked-IsRanked f gs ranked)
]

sorted_by_pop-IsRanked : (fs : List Feature) → IsRanked (sorted_by_pop fs)
unfolding sorted_by_pop
sorted_by_pop-IsRanked [] = tt
sorted_by_pop-IsRanked (f ∷ fs) =
    insert_ranked-IsRanked f (sorted_by_pop fs) (sorted_by_pop-IsRanked fs)

-- The features with a given population, in their order.
abbrev pub having : ℤ → List Feature → List Feature
having n fs = keep (λ (f : Feature). eqb_ℤ (pop f) n) fs

insert_ranked-having :
    (n : ℤ) (f : Feature) (fs : List Feature) → having n (insert_ranked f fs) ≡ having n (f ∷ fs)
unfolding insert_ranked
insert_ranked-having n f [] = refl
insert_ranked-having n f (g ∷ gs) = elim (Bool-cases (leb_ℤ (pop g) (pop f))) [
  | inl above ↦ rw above refl
  | inr below ↦ rw below (ground (arith, insert_ranked-having n f gs))
]

sorted_by_pop-having : (n : ℤ) (fs : List Feature) → having n (sorted_by_pop fs) ≡ having n fs
unfolding sorted_by_pop
sorted_by_pop-having n [] = refl
sorted_by_pop-having n (f ∷ fs) =
    insert_ranked-having n f (sorted_by_pop fs) ∙ ground (arith, sorted_by_pop-having n fs)

length-insert_ranked :
    (f : Feature) (fs : List Feature) → length (insert_ranked f fs) ≡ suc (length fs)
unfolding insert_ranked
length-insert_ranked f [] = refl
length-insert_ranked f (g ∷ gs) = ground (arith, length-insert_ranked f gs)

length-sorted_by_pop : (fs : List Feature) → length (sorted_by_pop fs) ≡ length fs
unfolding sorted_by_pop
length-sorted_by_pop [] = refl
length-sorted_by_pop (f ∷ fs) =
    length-insert_ranked f (sorted_by_pop fs) ∙ ap suc (length-sorted_by_pop fs)

take-AllBelow : (m : ℤ) (n : ℕ) (fs : List Feature) → AllBelow m fs → AllBelow m (take n fs)
take-AllBelow m zero fs h = tt
take-AllBelow m (suc n) [] h = tt
take-AllBelow m (suc n) (g ∷ gs) (here, rest) = (here, take-AllBelow m n gs rest)

-- The front of a ranked list is ranked, and nothing behind it is above any of it.
take-IsRanked : (n : ℕ) (fs : List Feature) → IsRanked fs → IsRanked (take n fs)
take-IsRanked zero fs h = tt
take-IsRanked (suc n) [] h = tt
take-IsRanked (suc n) (f ∷ fs) (all, h) = (take-AllBelow (pop f) n fs all, take-IsRanked n fs h)

drop-AllBelow : (m : ℤ) (n : ℕ) (fs : List Feature) → AllBelow m fs → AllBelow m (drop n fs)
drop-AllBelow m zero fs h = h
drop-AllBelow m (suc n) [] h = tt
drop-AllBelow m (suc n) (f ∷ fs) (here, rest) = drop-AllBelow m n fs rest

drop-below :
    (n : ℕ) (fs : List Feature)
    → IsRanked fs
    → All (λ (f : Feature). AllBelow (pop f) (drop n fs)) (take n fs)
drop-below zero fs h = tt
drop-below (suc n) [] h = tt
drop-below (suc n) (f ∷ fs) (all, h) = (drop-AllBelow (pop f) n fs all, drop-below n fs h)

-- The output of `top_n_by_population` with `n ≥ 0` has `n` features, or all of them if there are
-- fewer, and their populations never rise. No feature that is left out is above any of the output.
-- Output and rest together have, for each population, the same features as the input, in the same
-- order.
pub top_n_by_population-IsTop :
    (features : List Feature) (n : ℕ)
    → let out = top_n_by_population features (pos n) in
      (length out ≡ min n (length features))
      × IsRanked out
      × ((left_out : List Feature) × All (λ (f : Feature). AllBelow (pop f) left_out) out
          × ((p : ℤ) → having p (out ++ left_out) ≡ having p features))
unfolding top_n_by_population
top_n_by_population-IsTop features n =
    let ranked = sorted_by_pop features in
    let is_ranked = sorted_by_pop-IsRanked features in
    (
      length-take n ranked ∙ ap (min n) (length-sorted_by_pop features),
      take-IsRanked n ranked is_ranked,
      (
        drop n ranked,
        drop-below n ranked is_ranked,
        λ p. ap (having p) (take-append-drop n ranked) ∙ sorted_by_pop-having p features,
      ),
    )
