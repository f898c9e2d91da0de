-- ===== src/Gate/Seed.antt =====
-- `_ensure_slots`: the slots of the gate are there afterwards, and no holder is clobbered.
use fwh_osm.Prelude.{ℕ, zero, suc, some, ◌≡◌, inl, inr, arith, Among}
use fwh_osm.Prelude.Text.{Text}
use fwh_osm.Gate.Store.{Doc, replied, Mongo, IsMongo}
use fwh_osm.Gate.Slots.{slot_name, slot_names, free_slot, ensure_from, ensure_slots}
use fwh_osm.Gate.Leases.{Reply-cases, ensure_from-keeps}

module _ {Coll : Type 0} (m : Mongo Coll) (laws : IsMongo m) where
  ensure_from-there :
      (gate : Text) (n i : ℕ) (c : Coll) (j : Text)
      → (ensure_from m gate n i c).0 ≡ replied tt
      → Among j (slot_names gate n i)
      → (d : Doc) × (m.find (ensure_from m gate n i c).1 j ≡ some d)
  unfolding ensure_from slot_names
  ensure_from-there gate zero i c j done named = absurd named
  ensure_from-there gate (suc n) i c j done named =
      elim (Reply-cases (m.upsert (slot_name gate i) free_slot c).0) [
        | inl lost ↦ absurd (ground (arith, lost, done))
        | inr (v, wrote) ↦
            rw (wrote, ensure_from)
              (elim named [
                | inl same ↦
                    let (d, there) = laws.upsert_there (slot_name gate i) free_slot c wrote in
                    (
                      d,
                      rw same
                          (ensure_from-keeps m laws gate n (suc i) (slot_name gate i) d _ there),
                    )
                | inr later ↦
                    ensure_from-there gate n (suc i) _ j (ground (arith, wrote, done)) later
              ])
      ]

  -- If `_ensure_slots` ends without an exception, every slot of the gate has its document; and
  -- however it ends, each document that was there, with its holder and its lease, is unchanged.
  pub ensure_slots_seeds :
      (n : ℕ) (gate : Text) (c : Coll) (j : Text)
      → ((ensure_slots m n gate c).0 ≡ replied tt
          → Among j (slot_names gate n 0)
          → (d : Doc) × (m.find (ensure_slots m n gate c).1 j ≡ some d))
        × ((d : Doc) → m.find c j ≡ some d → m.find (ensure_slots m n gate c).1 j ≡ some d)
  unfolding ensure_slots
  ensure_slots_seeds n gate c j = (
    λ done named. ensure_from-there gate n 0 c j done named,
    λ d here. ensure_from-keeps m laws gate n 0 j d c here,
  )
