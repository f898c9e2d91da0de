-- ===== src/Roads/Selection/Prune/Sorted.antt =====
-- The zooms from the highest on: sorted, and the same as before.
use fwh_osm.Prelude.{
  ℕ, ◌≤◌, ◌≡◌, refl, Bool, true, List, [], ◌∷◌, arith, ◌+◌, leb, All, Bool-cases, inl, inr, ◌==◌,
  if◌then◌else◌,
}
use fwh_osm.Prelude.Table.{has_number}
use fwh_osm.Prelude.Sets.{count}
use fwh_osm.Roads.Selection.Prune.{insert_down, sort_down}

-- From the highest zoom on.
abbrev pub IsDescending : List ℕ → Type 0
IsDescending [] = Unit
IsDescending (z ∷ zs) = All (λ w. w ≤ z) zs × IsDescending zs

pub All-insert_down :
    (b z : ℕ) (ws : List ℕ) → z ≤ b → All (λ w. w ≤ b) ws → All (λ w. w ≤ b) (insert_down z ws)
unfolding insert_down
All-insert_down b z [] le h = (le, tt)
All-insert_down b z (w ∷ ws) le (k, h) = ground (arith, All-insert_down b z ws le h)

pub All-le : (b c : ℕ) (ws : List ℕ) → b ≤ c → All (λ w. w ≤ b) ws → All (λ w. w ≤ c) ws
All-le b c [] le h = tt
All-le b c (w ∷ ws) le (k, h) = (omega arith, All-le b c ws le h)

pub insert_down-IsDescending :
    (z : ℕ) (ws : List ℕ) → IsDescending ws → IsDescending (insert_down z ws)
unfolding insert_down
insert_down-IsDescending z [] h = (tt, tt)
insert_down-IsDescending z (w ∷ ws) (below, h) = elim (Bool-cases (leb w z)) [
  | inl le ↦ rw le ((ground arith, All-le w z ws (ground arith) below), (below, h))
  | inr gt ↦ rw gt (All-insert_down w z ws (ground arith) below, insert_down-IsDescending z ws h)
]

pub sort_down-IsDescending : (zs : List ℕ) → IsDescending (sort_down zs)
unfolding sort_down
sort_down-IsDescending [] = tt
sort_down-IsDescending (z ∷ zs) =
    insert_down-IsDescending z (sort_down zs) (sort_down-IsDescending zs)

pub insert_key :
    (p : ℕ → Bool) (z : ℕ) (ws : List ℕ)
    → p z ≡ true
    → All (λ w. p w ≡ true) ws
    → All (λ w. p w ≡ true) (insert_down z ws)
unfolding insert_down
insert_key p z [] k h = (k, tt)
insert_key p z (w ∷ ws) k (q, h) = ground (arith, insert_key p z ws k h)

-- Keys stay keys when they are sorted.
pub keys-sort_down :
    (p : ℕ → Bool) (zs : List ℕ) → All (λ w. p w ≡ true) zs → All (λ w. p w ≡ true) (sort_down zs)
unfolding sort_down
keys-sort_down p [] h = tt
keys-sort_down p (z ∷ zs) (k, h) = insert_key p z (sort_down zs) k (keys-sort_down p zs h)

pub own_keys :
    (zs : List ℕ) (p : ℕ → Bool)
    → ((w : ℕ) → has_number w zs ≡ true → p w ≡ true)
    → All (λ w. p w ≡ true) zs
unfolding has_number
own_keys [] p f = tt
own_keys (z ∷ zs) p f = (f z (ground arith), own_keys zs p (λ w m. f w (ground arith)))

pub bounded : (zs : List ℕ) → (top : ℕ) × All (λ w. w ≤ top) zs
bounded [] = (0, tt)
bounded (z ∷ zs) =
    let (top, h) = bounded zs in (z + top, (omega arith, All-le top (z + top) zs (omega arith) h))

pub count-insert_down :
    (id z : ℕ) (ws : List ℕ)
    → count id (insert_down z ws) ≡ (if z == id then 1 else 0) + count id ws
unfolding insert_down
count-insert_down id z [] = refl
count-insert_down id z (w ∷ ws) = ground (arith, count-insert_down id z ws)

pub count-sort_down : (id : ℕ) (zs : List ℕ) → count id (sort_down zs) ≡ count id zs
unfolding sort_down
count-sort_down id [] = refl
count-sort_down id (z ∷ zs) =
    omega (arith, count-insert_down id z (sort_down zs), count-sort_down id zs)
