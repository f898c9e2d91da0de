-- ===== src/Replication/Cut/Passes.antt =====
-- The passes of `cut_diff_multi`: they end, and together they cut every region.
use fwh_osm.Prelude.{
  ℕ, zero, suc, ◌+◌, ◌≤◌, ◌<◌, String, Bool, true, ◌||◌, Option, none, some, List, [], ◌∷◌, ◌++◌,
  ◌≡◌, ◌≢◌, refl, arith, length, take, drop, keep, has_name, length-drop, take-append-drop, ap,
  str_eq_iff, max, ◌/◌,
}
use fwh_osm.Prelude.Result.{Result, ok, err}
use fwh_osm.Replication.Cut.{
  Osmium, done, cut_passes, cut_usable, cut_diff_multi, cut_fuel, group_size, produced,
}

pub has_name-append :
    (k : String) (xs ys : List String) → has_name k (xs ++ ys) ≡ (has_name k xs || has_name k ys)
has_name-append k [] ys = refl
has_name-append k (x ∷ xs) ys = ground (arith, has_name-append k xs ys)

keep-all :
    (p : String → Bool) (xs : List String)
    → ((r : String) → has_name r xs ≡ true → p r ≡ true)
    → keep p xs ≡ xs
keep-all p [] h = refl
keep-all p (x ∷ xs) h =
    ground (arith, h x, str_eq_iff x x, keep-all p xs (λ r m. h r (ground arith)))

module _ (osmium : Osmium) where
  -- Each pass takes a region off the list or halves the group.
  cut_passes-ne-none :
      (fuel pass size : ℕ) (pending staged : List String)
      → 1 ≤ size
      → size + length pending < fuel
      → cut_passes osmium fuel pass size pending staged ≢ none
  unfolding cut_passes
  cut_passes-ne-none zero pass size pending staged h lt = absurd (omega arith)
  cut_passes-ne-none (suc fuel) pass size [] staged h lt = λ e. cc
  cut_passes-ne-none (suc fuel) pass size (r ∷ rs) staged h lt =
      let (outcome, wrote) = osmium pass (take size (r ∷ rs)) in
      ground (
        arith,
        length-drop size (r ∷ rs),
        cut_passes-ne-none fuel (suc pass) size (drop size (r ∷ rs)) (wrote ++ staged) h,
        cut_passes-ne-none fuel (suc pass) (max 1 (size / 2)) (r ∷ rs) (wrote ++ staged),
      )

  -- What a pass that succeeds is documented to do: it writes the output of every extract that
  -- its configuration names.
  abbrev pub WritesGroup : Type 0
  WritesGroup =
      (pass : ℕ) (group : List String) (r : String)
      → (osmium pass group).0 ≡ done
      → has_name r group ≡ true
      → has_name r (osmium pass group).1 ≡ true

  cut_passes_cover :
      (fuel pass size : ℕ) (pending staged out : List String) (r : String)
      → WritesGroup
      → cut_passes osmium fuel pass size pending staged ≡ some (ok out)
      → (has_name r pending || has_name r staged) ≡ true
      → has_name r out ≡ true
  unfolding cut_passes
  cut_passes_cover zero pass size pending staged out r w e m = cc
  cut_passes_cover (suc fuel) pass size [] staged out r w e m = ground arith
  cut_passes_cover (suc fuel) pass size (x ∷ xs) staged out r w e m =
      let group = take size (x ∷ xs) in
      let rest = drop size (x ∷ xs) in
      let wrote = (osmium pass group).1 in
      ground (
        arith,
        w pass group r,
        has_name-append r wrote staged,
        has_name-append r group rest,
        ap (has_name r) (take-append-drop size (x ∷ xs)),
        cut_passes_cover fuel (suc pass) size rest (wrote ++ staged) out r w,
        cut_passes_cover fuel (suc pass) (max 1 (size / 2)) (x ∷ xs) (wrote ++ staged) out r w,
      )

group_size-pos : (avail : Option ℕ) (n : ℕ) → 1 ≤ n → 1 ≤ group_size avail n
unfolding group_size
group_size-pos none n h = h
group_size-pos (some a) n h = omega arith

produced-ne-none :
    (usable : List String) (o : Option (Result (List String))) → o ≢ none → produced usable o ≢ none
unfolding produced
produced-ne-none usable none h = h
produced-ne-none usable (some (ok out)) h = λ e. cc
produced-ne-none usable (some (err x)) h = λ e. cc

-- The call always comes back, with a result or an exception, however many passes are killed: each
-- pass shortens the list of regions or halves the group.
pub cut_diff_multi_total :
    (osmium : Osmium) (polys : String → Bool) (avail : Option ℕ) (regions staged : List String)
    → cut_diff_multi osmium polys avail regions staged ≢ none
unfolding cut_diff_multi
cut_diff_multi_total osmium polys avail regions staged = go (keep polys regions)
  where
    go : (usable : List String) → cut_usable osmium avail usable staged ≢ none
    go [] = λ e. cc
    go (x ∷ xs) =
        let size = group_size avail (length (x ∷ xs)) in
        produced-ne-none (x ∷ xs) _ (
          cut_passes-ne-none osmium (cut_fuel size (x ∷ xs)) 0 size (x ∷ xs) staged
            (group_size-pos avail (length (x ∷ xs)) (omega arith)) (omega arith))

cut_usable-ok :
    (osmium : Osmium) (avail : Option ℕ) (usable staged out : List String)
    → WritesGroup osmium
    → cut_usable osmium avail usable staged ≡ some (ok out)
    → out ≡ usable
unfolding cut_usable produced
cut_usable-ok osmium avail [] staged out w e = ground arith
cut_usable-ok osmium avail (x ∷ xs) staged out w e =
    let size = group_size avail (length (x ∷ xs)) in
    go (cut_passes osmium (cut_fuel size (x ∷ xs)) 0 size (x ∷ xs) staged) refl e
  where
    go :
        (o : Option (Result (List String)))
        → cut_passes osmium
            (cut_fuel (group_size avail (length (x ∷ xs))) (x ∷ xs))
            0
            (group_size avail (length (x ∷ xs)))
            (x ∷ xs)
            staged
          ≡ o
        → produced (x ∷ xs) o ≡ some (ok out)
        → out ≡ x ∷ xs
    go none p q = cc
    go (some (err _)) p q = cc
    go (some (ok made)) p q =
        let all =
          keep-all (λ r. has_name r made) (x ∷ xs)
            (λ r m. cut_passes_cover osmium _ 0 _ (x ∷ xs) staged made r w p (ground arith)) in
        ground arith

-- If a pass that succeeds writes the outputs of its group, as osmium documents, then a call that
-- returns has cut exactly the regions that have a polygon, in their order, whatever groups the
-- memory allowed and whatever passes were killed on the way.
pub cut_diff_multi_complete :
    (osmium : Osmium) (polys : String → Bool) (avail : Option ℕ) (regions staged out : List String)
    → WritesGroup osmium
    → cut_diff_multi osmium polys avail regions staged ≡ some (ok out)
    → out ≡ keep polys regions
unfolding cut_diff_multi
cut_diff_multi_complete osmium polys avail regions staged out w e =
    cut_usable-ok osmium avail (keep polys regions) staged out w e
