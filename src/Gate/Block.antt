-- ===== src/Gate/Block.antt =====
-- `renew_slot`, `release_slot` and the block of `download_slot`.
use fwh_osm.Prelude.{
  ℕ, ◌+◌, true, false, some, ◌≡◌, ◌≢◌, ◌⊎◌, inl, inr, refl, ◌∙◌, arith, ==_iff, Option-cases,
}
use fwh_osm.Prelude.Text.{Text}
use fwh_osm.Gate.Store.{Doc, raised, Mongo, IsMongo, Same, Touched}
use fwh_osm.Gate.Slots.{
  SlotToken, is_held_by, leased, free_slot, Turns, got, acquire_slot, renew_slot, release_slot,
  download_slot,
}
use fwh_osm.Gate.Leases.{Reply-cases}

is_held_by-holder : (h : ℕ) (d : Doc) → is_held_by h d ≡ true → d.holder ≡ some h
unfolding is_held_by
is_held_by-holder h d e = elim (Option-cases d.holder) [
  | inl nobody ↦ ground (arith, nobody)
  | inr (k, holds) ↦ ground (arith, holds, ==_iff k h)
]

holder-is_held_by : (h : ℕ) (d : Doc) → d.holder ≡ some h → is_held_by h d ≡ true
unfolding is_held_by
holder-is_held_by h d e = rw e ((==_iff h h).1 refl)

module _ {Coll : Type 0} (m : Mongo Coll) (laws : IsMongo m) where
  -- A renewal that answers `True` finds the slot with our holder, and leaves it with our holder
  -- and a fresh lease. One that answers `False` although the collection replied did not find our
  -- holder there: the slot is someone else's, or free.
  pub renew_slot_truth :
      (i : Text) (h now lease : ℕ) (c : Coll)
      → let token : SlotToken = record { slot_id = some i; holder = h } in
        let after = renew_slot m true token now lease c in
        (after.0 ≡ true → m.find after.1 i ≡ some (leased h (now + lease)))
        × (after.0 ≡ false
            → (m.update_one i (is_held_by h) (λ d. record d { lease_expires = now + lease }) c).0
              ≢ raised
            → (d : Doc) → m.find c i ≡ some d
            → d.holder ≢ some h)
  unfolding renew_slot
  renew_slot_truth i h now lease c =
      let f : Doc → Doc = λ d. record d { lease_expires = now + lease } in
      elim (Reply-cases (m.update_one i (is_held_by h) f c).0) [
        | inl lost ↦ (λ yes. absurd (ground (arith, lost, yes)), λ no heard. absurd (heard lost))
        | inr (true, done) ↦ (
          λ yes.
              let t = laws.update_matched i (is_held_by h) f c done in
              let ours = is_held_by-holder h t.old t.passed in t.set_to.here ∙ rw ours refl,
          λ no. absurd (ground (arith, done, no)),
        )
        | inr (false, done) ↦ (
          λ yes. absurd (ground (arith, done, yes)),
          λ no heard d there ours.
              let missed = laws.update_missed i (is_held_by h) f c d done there in
              let matched = holder-is_held_by h d ours in cc,
        )
      ]

  foreign-Same :
      (i : Text) (h : ℕ) (c c' : Coll) (d : Doc)
      → Same m c c' ⊎ Touched m i (is_held_by h) (λ _. free_slot) c c'
      → m.find c i ≡ some d
      → d.holder ≢ some h
      → Same m c c'
  foreign-Same i h c c' d (inl same) there theirs = same
  foreign-Same i h c c' d (inr t) there theirs =
      let ours = is_held_by-holder h t.old t.passed in
      let found = t.found in absurd (theirs (ground (arith, there, found, ours)))

  ours-free :
      (i : Text) (h : ℕ) (c : Coll) (d : Doc)
      → (m.update_one i (is_held_by h) (λ _. free_slot) c).0 ≢ raised
      → m.find c i ≡ some d
      → d.holder ≡ some h
      → m.find (m.update_one i (is_held_by h) (λ _. free_slot) c).1 i ≡ some free_slot
  ours-free i h c d heard there ours =
      elim (Reply-cases (m.update_one i (is_held_by h) (λ _. free_slot) c).0) [
        | inl lost ↦ absurd (heard lost)
        | inr (true, done) ↦
            (laws.update_matched i (is_held_by h) (λ _. free_slot) c done).set_to.here
        | inr (false, done) ↦
            let missed = laws.update_missed i (is_held_by h) (λ _. free_slot) c d done there in
            let matched = holder-is_held_by h d ours in cc
      ]

  -- Take a `with download_slot` that was given the slot `i`, and whatever its body does and the
  -- other runners do until it ends, by a return or an exception. If the body ends with the slot
  -- still ours, the slot is free afterwards, unless the release itself raises. If by then the
  -- lease ran out and the slot is another's, the release changes nothing.
  pub download_slot_frees :
      {R : Type 0} (turns : Turns Coll) (max_concurrency lease : ℕ) (gate : Text) (h fuel : ℕ)
      (body : SlotToken → Coll → R × Coll) (c c1 : Coll) (i : Text) (d : Doc)
      → let token : SlotToken = record { slot_id = some i; holder = h } in
        let end = (body token c1).1 in
        acquire_slot m turns true max_concurrency lease gate h fuel c ≡ some (got token, c1)
        → m.find end i ≡ some d
        → (c2 : Coll) × (download_slot m turns true max_concurrency lease gate h fuel body c
            ≡ some (some (body token c1).0, c2))
          × (d.holder ≡ some h
              → (m.update_one i (is_held_by h) (λ _. free_slot) end).0 ≢ raised
              → m.find c2 i ≡ some free_slot)
          × (d.holder ≢ some h → Same m end c2)
  unfolding download_slot release_slot
  download_slot_frees turns max_concurrency lease gate h fuel body c c1 i d took there =
      let end = (body (record { slot_id = some i; holder = h }) c1).1 in
      (
        _,
        rw (took, download_slot) refl,
        λ ours heard. ours-free i h end d heard there ours,
        λ theirs.
            foreign-Same i h end _ d (laws.update_effect i (is_held_by h) (λ _. free_slot) end)
              there theirs,
      )
