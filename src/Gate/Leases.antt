-- ===== src/Gate/Leases.antt =====
-- Leases under the interleaved calls of all runners: each call of `claim`, `renew_slot`,
-- `release_slot` and `ensure_slots` is a step on the shared collection.
use fwh_osm.Prelude.{
  ℕ, zero, suc, ◌≤◌, Bool, true, false, Option, none, some, List, ◌≡◌, ◌≢◌, ◌⊎◌, inl, inr, refl,
  sym, ◌∙◌, ap, subst, arith,
}
use fwh_osm.Prelude.Text.{Text}
use fwh_osm.Gate.Store.{
  Doc, Reply, raised, replied, Mongo, IsMongo, Same, Touched, Inserted, Claimed,
}
use fwh_osm.Gate.Slots.{
  SlotToken, slot_name, slot_names, is_claimable, is_held_by, leased, free_slot, ensure_from,
  ensure_slots, claim, renew_slot, release_slot,
}

pub Reply-cases : {A : Type 0} (r : Reply A) → (r ≡ raised) ⊎ ((v : A) × (r ≡ replied v))
Reply-cases raised = inl refl
Reply-cases (replied v) = inr (v, refl)

some-inj : {A : Type 0} {a b : A} → some a ≡ some b → a ≡ b
some-inj e = cc

module _ {Coll : Type 0} (m : Mongo Coll) where
  -- A document that a filter does not let through is not changed.
  pub Touched-other :
      (i j : Text) (p : Doc → Bool) (f : Doc → Doc) (d : Doc) (c c' : Coll)
      → Touched m i p f c c'
      → m.find c j ≡ some d
      → p d ≡ false
      → m.find c' j ≡ some d
  Touched-other i j p f d c c' t here kept =
      let apart : j ≢ i = λ same.
        let same_doc : t.old ≡ d = some-inj (sym t.found ∙ ap (m.find c) (sym same) ∙ here) in
        let clash : p d ≡ true = subst (λ x. p x ≡ true) same_doc t.passed in cc in
      t.set_to.others j apart ∙ here

  pub update-keeps :
      (i j : Text) (p : Doc → Bool) (f : Doc → Doc) (d : Doc) (c c' : Coll)
      → Same m c c' ⊎ Touched m i p f c c'
      → m.find c j ≡ some d
      → p d ≡ false
      → m.find c' j ≡ some d
  update-keeps i j p f d c c' (inl same) here kept = same j ∙ here
  update-keeps i j p f d c c' (inr t) here kept = Touched-other i j p f d c c' t here kept

  claim-keeps :
      (ids : List Text) (j : Text) (p : Doc → Bool) (new d : Doc) (c c' : Coll)
      → Same m c c' ⊎ Claimed m ids p new c c'
      → m.find c j ≡ some d
      → p d ≡ false
      → m.find c' j ≡ some d
  claim-keeps ids j p new d c c' (inl same) here kept = same j ∙ here
  claim-keeps ids j p new d c c' (inr t) here kept =
      Touched-other t.slot j p (λ _. new) d c c' t.touched here kept

  upsert-keeps :
      (i j : Text) (new d : Doc) (c c' : Coll)
      → Same m c c' ⊎ Inserted m i new c c'
      → m.find c j ≡ some d
      → m.find c' j ≡ some d
  upsert-keeps i j new d c c' (inl same) here = same j ∙ here
  upsert-keeps i j new d c c' (inr t) here =
      let apart : j ≢ i =
        λ same. let clash : some d ≡ none = sym here ∙ ap (m.find c) same ∙ t.absent in cc in
      t.inserted.others j apart ∙ here

  module _ (laws : IsMongo m) where
    -- Seeding never changes a document that is there.
    pub ensure_from-keeps :
        (gate : Text) (n i : ℕ) (j : Text) (d : Doc) (c : Coll)
        → m.find c j ≡ some d
        → m.find (ensure_from m gate n i c).1 j ≡ some d
    unfolding ensure_from
    ensure_from-keeps gate zero i j d c here = here
    ensure_from-keeps gate (suc n) i j d c here =
        let kept =
          upsert-keeps (slot_name gate i) j free_slot d c _
            (laws.upsert_effect (slot_name gate i) free_slot c) here in
        elim (Reply-cases (m.upsert (slot_name gate i) free_slot c).0) [
          | inl lost ↦ rw (lost, ensure_from) kept
          | inr (v, done) ↦ rw (done, ensure_from) (ensure_from-keeps gate n (suc i) j d _ kept)
        ]

  -- What runners do to the collection, as long as no one of them reads a clock that is behind
  -- `expires`, and the holder `h` neither renews nor releases.
  pub data Step (h expires : ℕ) (c : Coll) : Coll → Type 0 where
    seeded : (n : ℕ) (gate : Text) → Step h expires c (ensure_slots m n gate c).1
    claimed :
        (n : ℕ) (gate : Text) (k now lease : ℕ)
        → now ≤ expires
        → Step h expires c (claim m n gate k now lease c).1
    renewed :
        (gate_on : Bool) (token : SlotToken) (now lease : ℕ)
        → token.holder ≢ h
        → Step h expires c (renew_slot m gate_on token now lease c).1
    released :
        (gate_on : Bool) (token : SlotToken)
        → token.holder ≢ h
        → Step h expires c (release_slot m gate_on token c)

  pub data Others (h expires : ℕ) (c : Coll) : Coll → Type 0 where
    here : Others h expires c c
    next : {c' c'' : Coll} → Others h expires c c' → Step h expires c' c'' → Others h expires c c''

  leased-not_claimable :
      (h expires now : ℕ) → now ≤ expires → is_claimable now (leased h expires) ≡ false
  unfolding is_claimable
  leased-not_claimable h expires now early = ground arith

  leased-not_held : (h k expires : ℕ) → k ≢ h → is_held_by k (leased h expires) ≡ false
  unfolding is_held_by
  leased-not_held h k expires apart = ground (arith, apart)

  module _ (laws : IsMongo m) (h expires : ℕ) (j : Text) where
    renew-keeps :
        (gate_on : Bool) (id : Option Text) (k now lease : ℕ) (c : Coll)
        → k ≢ h
        → m.find c j ≡ some (leased h expires)
        → m.find (renew_slot m gate_on (record { slot_id = id; holder = k }) now lease c).1 j
          ≡ some (leased h expires)
    unfolding renew_slot
    renew-keeps gate_on none k now lease c apart held = held
    renew-keeps false (some i) k now lease c apart held = held
    renew-keeps true (some i) k now lease c apart held =
        update-keeps i j (is_held_by k) _ (leased h expires) c _
          (laws.update_effect i (is_held_by k) _ c) held (leased-not_held h k expires apart)

    release-keeps :
        (gate_on : Bool) (id : Option Text) (k : ℕ) (c : Coll)
        → k ≢ h
        → m.find c j ≡ some (leased h expires)
        → m.find (release_slot m gate_on (record { slot_id = id; holder = k }) c) j
          ≡ some (leased h expires)
    unfolding release_slot
    release-keeps gate_on none k c apart held = held
    release-keeps false (some i) k c apart held = held
    release-keeps true (some i) k c apart held =
        update-keeps i j (is_held_by k) _ (leased h expires) c _
          (laws.update_effect i (is_held_by k) _ c) held (leased-not_held h k expires apart)

    Step-keeps :
        (c c' : Coll)
        → Step h expires c c'
        → m.find c j ≡ some (leased h expires)
        → m.find c' j ≡ some (leased h expires)
    unfolding ensure_slots claim
    Step-keeps c c' (seeded n gate) held =
        ensure_from-keeps laws gate n 0 j (leased h expires) c held
    Step-keeps c c' (claimed n gate k now lease early) held =
        claim-keeps (slot_names gate n 0) j (is_claimable now) _ (leased h expires) c _
          (laws.claim_effect (slot_names gate n 0) (is_claimable now) _ c) held
          (leased-not_claimable h expires now early)
    Step-keeps c c' (renewed gate_on token now lease apart) held =
        renew-keeps gate_on token.slot_id token.holder now lease c apart held
    Step-keeps c c' (released gate_on token apart) held =
        release-keeps gate_on token.slot_id token.holder c apart held

  -- Take a slot under a lease. Whatever calls the other runners make, in any order, some of them
  -- with a reply that is lost, the slot keeps its holder and its lease as long as no clock that a
  -- claim reads is past the end of the lease: no claim, no renewal or release of a token with
  -- another holder, and no seeding takes it away.
  pub lease_is_exclusive :
      (laws : IsMongo m) (h expires : ℕ) (slot : Text) (c c' : Coll)
      → m.find c slot ≡ some (leased h expires)
      → Others h expires c c'
      → m.find c' slot ≡ some (leased h expires)
  lease_is_exclusive laws h expires slot c _ held here = held
  lease_is_exclusive laws h expires slot c c'' held (next {c'} before step) =
      Step-keeps laws h expires slot c' c'' step
        (lease_is_exclusive laws h expires slot c c' held before)
