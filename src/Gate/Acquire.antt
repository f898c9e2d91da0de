-- ===== src/Gate/Acquire.antt =====
-- `acquire_slot`: what a token stands for, that a free slot is taken, and that a deadline ends the
-- wait.
use fwh_osm.Prelude.{
  ℕ, zero, suc, ◌+◌, Bool, true, false, Option, none, some, ◌≡◌, ◌≢◌, ◌⊎◌, inl, inr, refl, subst,
  arith, max, Bool-cases, Option-cases, is_some, Among,
}
use fwh_osm.Prelude.Text.{Text}
use fwh_osm.Gate.Store.{Doc, raised, replied, Mongo, IsMongo, Touched}
use fwh_osm.Gate.Slots.{
  SlotToken, noop_token, slot_names, is_claimable, leased, Turns, Ending, got, cancelled,
  ensure_slots, claim, acquire_from, acquire_slot,
}
use fwh_osm.Gate.Leases.{Reply-cases}

module _ {Coll : Type 0} (m : Mongo Coll) where
  -- The collection that the claim of turn `k + j` meets in a run that is at `c` at turn `k`: before
  -- it stand `j` claims and what the others do while the run sleeps.
  unfoldable pub waited : Turns Coll → ℕ → Text → ℕ → ℕ → ℕ → ℕ → Coll → Coll
  waited turns n gate h lease zero k c = c
  waited turns n gate h lease (suc j) k c =
      waited turns n gate h lease j (suc k)
        (turns.others k (claim m n gate h (turns.now_ms k) lease c).1)

  -- The claim of some turn of the run has ended it: the slot `i` of the first `n` was free or its
  -- lease had run out in the collection that this claim met, and it is ours now.
  pub record IsTaken (turns : Turns Coll) (n : ℕ) (gate : Text) (h lease k : ℕ) (c : Coll)
      (i : Text) (c' : Coll) : Type 0 where
    pub waits : ℕ
    pub turn : ℕ
    pub turn_is : turn ≡ k + waits
    pub named : Among i (slot_names gate n 0)
    pub claimed :
        c' ≡ (claim m n gate h (turns.now_ms turn) lease (waited turns n gate h lease waits k c)).1
    pub taken :
        Touched m i
          (is_claimable (turns.now_ms turn))
          (λ _. leased h (turns.now_ms turn + lease))
          (waited turns n gate h lease waits k c)
          c'

  -- A run that is one turn further on.
  IsTaken-later :
      (turns : Turns Coll) (n : ℕ) (gate : Text) (h lease k : ℕ) (c : Coll) (i : Text) (c' : Coll)
      → IsTaken turns n gate h lease
          (suc k)
          (turns.others k (claim m n gate h (turns.now_ms k) lease c).1)
          i
          c'
      → IsTaken turns n gate h lease k c i c'
  unfolding waited
  IsTaken-later turns n gate h lease k c i c' t = record {
    waits = suc t.waits;
    turn = t.turn;
    turn_is = omega (arith, t.turn_is);
    named = t.named;
    claimed = t.claimed;
    taken = t.taken;
  }

  IsHeld :
      (turns : Turns Coll) (n : ℕ) (gate : Text) (h lease k : ℕ) (c : Coll)
      → Option (Ending × Coll)
      → Type 0
  IsHeld turns n gate h lease k c none = Unit
  IsHeld turns n gate h lease k c (some (cancelled, c')) = Unit
  IsHeld turns n gate h lease k c (some (got token, c')) =
      (token ≡ noop_token)
      ⊎ ((i : Text) × (token ≡ record { slot_id = some i; holder = h })
          × IsTaken turns n gate h lease k c i c')

  IsHeld-later :
      (turns : Turns Coll) (n : ℕ) (gate : Text) (h lease k : ℕ) (c : Coll)
      (o : Option (Ending × Coll))
      → IsHeld turns n gate h lease
          (suc k)
          (turns.others k (claim m n gate h (turns.now_ms k) lease c).1)
          o
      → IsHeld turns n gate h lease k c o
  unfolding IsHeld
  IsHeld-later turns n gate h lease k c none x = tt
  IsHeld-later turns n gate h lease k c (some (cancelled, c')) x = tt
  IsHeld-later turns n gate h lease k c (some (got token, c')) (inl e) = inl e
  IsHeld-later turns n gate h lease k c (some (got token, c')) (inr (i, e, t)) =
      inr (i, e, IsTaken-later turns n gate h lease k c i c' t)

  module _ (laws : IsMongo m) (turns : Turns Coll) where
    claimed-IsTaken :
        (n : ℕ) (gate : Text) (h lease k : ℕ) (c : Coll) (i : Text)
        → (claim m n gate h (turns.now_ms k) lease c).0 ≡ replied (some i)
        → IsTaken turns n gate h lease k c i (claim m n gate h (turns.now_ms k) lease c).1
    unfolding claim waited
    claimed-IsTaken n gate h lease k c i done =
        let (named, taken) = laws.claim_one _ _ _ c i done in
        record {
          waits = 0;
          turn = k;
          turn_is = omega arith;
          named = named;
          claimed = refl;
          taken = taken;
        }

    acquire_from-IsHeld :
        (n : ℕ) (gate : Text) (h lease fuel k : ℕ) (c : Coll)
        → IsHeld turns n gate h lease k c (acquire_from m turns n gate h lease fuel k c)
    unfolding acquire_from IsHeld
    acquire_from-IsHeld n gate h lease zero k c = tt
    acquire_from-IsHeld n gate h lease (suc fuel) k c =
        elim (Reply-cases (claim m n gate h (turns.now_ms k) lease c).0) [
          | inl lost ↦ rw (lost, acquire_from) (inl refl)
          | inr (some i, done) ↦
              rw (done, acquire_from) (inr (i, refl, claimed-IsTaken n gate h lease k c i done))
          | inr (none, done) ↦ elim (Bool-cases (turns.is_late k)) [
            | inl late ↦ rw (done, acquire_from) (rw late (inl refl))
            | inr early ↦ elim (Bool-cases (turns.is_cancelled k)) [
              | inl stop ↦ rw (done, acquire_from) (rw early (rw stop tt))
              | inr wait ↦
                  rw (done, acquire_from)
                    (rw early (
                      rw wait (
                        IsHeld-later turns n gate h lease k c _
                          (acquire_from-IsHeld n gate h lease fuel (suc k) _))))
            ]
          ]
        ]

    acquire_slot-IsHeld :
        (gate_on : Bool) (max_concurrency lease : ℕ) (gate : Text) (h fuel : ℕ) (c : Coll)
        → IsHeld turns
            (max 1 max_concurrency)
            gate
            h
            lease
            0
            (ensure_slots m (max 1 max_concurrency) gate c).1
            (acquire_slot m turns gate_on max_concurrency lease gate h fuel c)
    unfolding acquire_slot IsHeld
    acquire_slot-IsHeld false max_concurrency lease gate h fuel c = inl refl
    acquire_slot-IsHeld true max_concurrency lease gate h fuel c =
        elim (Reply-cases (ensure_slots m (max 1 max_concurrency) gate c).0) [
          | inl lost ↦ rw (lost, acquire_slot) (inl refl)
          | inr (v, done) ↦
              rw (done, acquire_slot)
                (acquire_from-IsHeld (max 1 max_concurrency) gate h lease fuel 0 _)
        ]

    -- A token that `acquire_slot` returns is the token of the open gate, or it stands for one of
    -- the first `max(1, max_concurrency)` slots of the gate. The collection that is left is the one
    -- that the claim of some turn of the run has made. In the collection that this claim met, which
    -- the seeding, the claims before it and the other runners had made, the slot was free, or its
    -- lease had run out at the clock of the turn; now it has our holder and a fresh lease, and the
    -- claim changed no other slot.
    pub acquire_slot_holds :
        (gate_on : Bool) (max_concurrency lease : ℕ) (gate : Text) (h fuel : ℕ) (c c' : Coll)
        (token : SlotToken)
        → acquire_slot m turns gate_on max_concurrency lease gate h fuel c ≡ some (got token, c')
        → (token ≡ noop_token)
          ⊎ ((i : Text) × (token ≡ record { slot_id = some i; holder = h })
              × IsTaken turns
                  (max 1 max_concurrency)
                  gate
                  h
                  lease
                  0
                  (ensure_slots m (max 1 max_concurrency) gate c).1
                  i
                  c')
    unfolding IsHeld
    acquire_slot_holds gate_on max_concurrency lease gate h fuel c c' token e =
        subst
          (IsHeld turns (max 1 max_concurrency) gate h lease 0
            (ensure_slots m (max 1 max_concurrency) gate c).1)
          e (acquire_slot-IsHeld gate_on max_concurrency lease gate h fuel c)

    -- If one of the first slots is free when the first claim is made, or its lease has run out,
    -- and neither the seeding nor the claim raises, the call takes a slot at once: it does not
    -- wait, and it does not pass the gate.
    pub acquire_slot_takes_free :
        (max_concurrency lease : ℕ) (gate : Text) (h fuel : ℕ) (c : Coll) (j : Text) (old : Doc)
        → let seeded = ensure_slots m (max 1 max_concurrency) gate c in
          let first = claim m (max 1 max_concurrency) gate h (turns.now_ms 0) lease seeded.1 in
          seeded.0 ≡ replied tt
          → first.0 ≢ raised
          → Among j (slot_names gate (max 1 max_concurrency) 0)
          → m.find seeded.1 j ≡ some old
          → is_claimable (turns.now_ms 0) old ≡ true
          → (i : Text) × (acquire_slot m turns true max_concurrency lease gate h (suc fuel) c
              ≡ some (got (record { slot_id = some i; holder = h }), first.1))
    unfolding acquire_slot acquire_from claim
    acquire_slot_takes_free max_concurrency lease gate h fuel c j old seed heard named there free =
        elim (Reply-cases
          (claim m (max 1 max_concurrency) gate h (turns.now_ms 0) lease
            (ensure_slots m (max 1 max_concurrency) gate c).1).0) [
              | inl lost ↦ absurd (heard lost)
              | inr (some i, done) ↦ (i, rw (seed, acquire_slot) (rw (done, acquire_from)))
              | inr (none, done) ↦ let clash = laws.claim_none _ _ _ _ j old done named there in cc
            ]

  acquire_from-is_some :
      (turns : Turns Coll) (n : ℕ) (gate : Text) (h lease d k : ℕ) (c : Coll)
      → turns.is_late (k + d) ≡ true
      → is_some (acquire_from m turns n gate h lease (suc d) k c) ≡ true
  unfolding acquire_from
  acquire_from-is_some turns n gate h lease zero k c late =
      elim (Reply-cases (claim m n gate h (turns.now_ms k) lease c).0) [
        | inl lost ↦ rw (lost, acquire_from)
        | inr (some i, done) ↦ rw (done, acquire_from)
        | inr (none, done) ↦
            let now : turns.is_late k ≡ true = ground (arith, late) in
            rw (done, acquire_from) (rw now)
      ]
  acquire_from-is_some turns n gate h lease (suc d) k c late =
      elim (Reply-cases (claim m n gate h (turns.now_ms k) lease c).0) [
        | inl lost ↦ rw (lost, acquire_from)
        | inr (some i, done) ↦ rw (done, acquire_from)
        | inr (none, done) ↦ elim (Bool-cases (turns.is_late k)) [
          | inl now ↦ rw (done, acquire_from) (rw now)
          | inr early ↦ elim (Bool-cases (turns.is_cancelled k)) [
            | inl stop ↦ rw (done, acquire_from) (rw early (rw stop))
            | inr wait ↦
                rw (done, acquire_from)
                  (rw early (
                    rw wait (
                      acquire_from-is_some turns n gate h lease d (suc k) _
                        (subst (λ x. turns.is_late x ≡ true) (omega arith) late))))
          ]
        ]
      ]

  acquire_slot-is_some :
      (turns : Turns Coll) (gate_on : Bool) (max_concurrency lease : ℕ) (gate : Text) (h d : ℕ)
      (c : Coll)
      → turns.is_late d ≡ true
      → is_some (acquire_slot m turns gate_on max_concurrency lease gate h (suc d) c) ≡ true
  unfolding acquire_slot
  acquire_slot-is_some turns false max_concurrency lease gate h d c late = refl
  acquire_slot-is_some turns true max_concurrency lease gate h d c late =
      elim (Reply-cases (ensure_slots m (max 1 max_concurrency) gate c).0) [
        | inl lost ↦ rw (lost, acquire_slot)
        | inr (v, done) ↦
            rw (done, acquire_slot)
              (acquire_from-is_some turns (max 1 max_concurrency) gate h lease d 0 _
                (subst (λ x. turns.is_late x ≡ true) (omega arith) late))
      ]

  -- If the deadline has passed at turn `d`, the call ends by then, whatever the collection
  -- answers: fuel for `d + 1` turns is enough for a token or the exception of `while_waiting`.
  pub acquire_slot_total :
      (turns : Turns Coll) (gate_on : Bool) (max_concurrency lease : ℕ) (gate : Text) (h d : ℕ)
      (c : Coll)
      → turns.is_late d ≡ true
      → (out : Ending × Coll) × (acquire_slot m turns gate_on max_concurrency lease gate h (suc d) c
          ≡ some out)
  acquire_slot_total turns gate_on max_concurrency lease gate h d c late =
      elim (Option-cases (acquire_slot m turns gate_on max_concurrency lease gate h (suc d) c)) [
        | inl out ↦
            let ends = acquire_slot-is_some turns gate_on max_concurrency lease gate h d c late in
            absurd (ground (arith, ends, out))
        | inr found ↦ found
      ]
