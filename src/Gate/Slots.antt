-- ===== src/Gate/Slots.antt =====
-- `_slot_id`, `_ensure_slots`, `acquire_slot`, `renew_slot`, `release_slot` and `download_slot`, for
-- a resolved collection; `gate_on` says whether `_resolve_collection` finds one.
use fwh_osm.Prelude.{
  ℕ, zero, suc, ◌+◌, Bool, true, false, not, ◌&&◌, ◌||◌, Option, none, some, List, [], ◌∷◌, ◌++◌,
  if◌then◌else◌, max, ltb, ◌==◌, is_some, is_empty,
}
use fwh_osm.Prelude.Text.{Text, codes, decimal}
use fwh_osm.Gate.Store.{Doc, Reply, raised, replied, Mongo}

-- `_resolve_collection`, with its cache: what the process knows, and what it finds when it looks.
pub data Resolved : Type 0 where
  not_yet disabled resolved : Resolved

pub record Process : Type 0 where
  pub has_url : Bool
  pub imports : Bool
  pub connects : Bool

unfoldable pub resolve_collection : Process → Resolved → Bool × Resolved
resolve_collection p disabled = (false, disabled)
resolve_collection p resolved = (true, resolved)
resolve_collection p not_yet =
    if p.has_url && (p.imports && p.connects) then (true, resolved) else (false, disabled)

-- A token: no slot when the gate is off or was passed by.
pub record SlotToken : Type 0 where
  pub slot_id : Option Text
  pub holder : ℕ

abbrev pub active : SlotToken → Bool
active token = is_some token.slot_id

-- `"gate-disabled"` is no uuid: it stands at 0, and the uuids above.
abbrev pub noop_token : SlotToken
noop_token = record { slot_id = none; holder = 0 }

unfoldable pub slot_name : Text → ℕ → Text
slot_name gate i =
    if is_empty gate then codes "slot-" ++ decimal i else gate ++ (codes ":slot-" ++ decimal i)

-- `[_slot_id(gate, i) for i in range(i, i + n)]`
unfoldable pub slot_names : Text → ℕ → ℕ → List Text
slot_names gate zero i = []
slot_names gate (suc n) i = slot_name gate i ∷ slot_names gate n (suc i)

-- `{"holder": None}` or `{"lease_expires": {"$lt": now}}`
unfoldable pub is_claimable : ℕ → Doc → Bool
is_claimable now d = not (is_some d.holder) || ltb d.lease_expires now

unfoldable pub is_held_by : ℕ → Doc → Bool
is_held_by h d = elim d.holder [ none ↦ false | some k ↦ k == h ]

abbrev pub leased : ℕ → ℕ → Doc
leased h expires = record { holder = some h; lease_expires = expires }

abbrev pub free_slot : Doc
free_slot = record { holder = none; lease_expires = 0 }

-- What `acquire_slot` meets on its way: the clock and the deadline at each turn, whether
-- `while_waiting` raises then, and what the others do to the collection while it sleeps.
pub record Turns (Coll : Type 0) : Type 0 where
  pub now_ms : ℕ → ℕ
  pub is_late : ℕ → Bool
  pub is_cancelled : ℕ → Bool
  pub others : ℕ → Coll → Coll

-- How a call of `acquire_slot` ends: a token, or the exception of `while_waiting`.
pub data Ending : Type 0 where
  got : SlotToken → Ending
  cancelled : Ending

module _ {Coll : Type 0} (m : Mongo Coll) where
  -- The loop of `_ensure_slots`; the first exception ends it.
  unfoldable pub ensure_from : Text → ℕ → ℕ → Coll → Reply (Unit {0}) × Coll
  ensure_from gate zero i c = (replied tt, c)
  ensure_from gate (suc n) i c =
      let (r, c') = m.upsert (slot_name gate i) free_slot c in
      elim r [ raised ↦ (raised, c') | replied _ ↦ ensure_from gate n (suc i) c' ]

  unfoldable pub ensure_slots : ℕ → Text → Coll → Reply (Unit {0}) × Coll
  unfolding ensure_from
  ensure_slots max_concurrency gate c = ensure_from gate max_concurrency 0 c

  -- One claim query.
  unfoldable pub claim : ℕ → Text → ℕ → ℕ → ℕ → Coll → Reply (Option Text) × Coll
  unfolding slot_names is_claimable
  claim n gate h now lease c =
      m.find_one_and_update (slot_names gate n 0) (is_claimable now) (leased h (now + lease)) c

  -- The loop `while True`, from turn `k` on; nothing when the fuel ends first.
  unfoldable pub acquire_from :
      Turns Coll → ℕ → Text → ℕ → ℕ → (fuel k : ℕ) → Coll → Option (Ending × Coll)
  unfolding claim
  acquire_from turns n gate h lease zero k c = none
  acquire_from turns n gate h lease (suc fuel) k c =
      let (r, c') = claim n gate h (turns.now_ms k) lease c in
      let later = acquire_from turns n gate h lease fuel (suc k) (turns.others k c') in
      elim r [
        | raised ↦ some (got noop_token, c')
        | replied (some i) ↦ some (got (record { slot_id = some i; holder = h }), c')
        | replied none ↦
            if turns.is_late k
            then some (got noop_token, c')
            else if turns.is_cancelled k
            then some (cancelled, c')
            else later
      ]

  unfoldable pub acquire_slot :
      Turns Coll → (gate_on : Bool) → ℕ → ℕ → Text → ℕ → ℕ → Coll → Option (Ending × Coll)
  unfolding ensure_slots acquire_from
  acquire_slot turns false max_concurrency lease gate h fuel c = some (got noop_token, c)
  acquire_slot turns true max_concurrency lease gate h fuel c =
      let n = max 1 max_concurrency in
      let (r, c') = ensure_slots n gate c in
      elim r [
        | raised ↦ some (got noop_token, c')
        | replied _ ↦ acquire_from turns n gate h lease fuel 0 c'
      ]

  -- `modified_count > 0 or matched_count > 0`, or the failure that is reported as no renewal.
  abbrev pub did_renew : Reply Bool → Bool
  did_renew raised = false
  did_renew (replied matched) = matched

  unfoldable pub renew_slot : (gate_on : Bool) → SlotToken → ℕ → ℕ → Coll → Bool × Coll
  unfolding is_held_by
  renew_slot gate_on token now lease c = elim token.slot_id [
    | none ↦ (true, c)
    | some i ↦
        if gate_on
        then (let (r, c') =
              m.update_one i (is_held_by token.holder)
                (λ d. record d { lease_expires = now + lease }) c in
            (did_renew r, c'))
        else (true, c)
  ]

  unfoldable pub release_slot : (gate_on : Bool) → SlotToken → Coll → Coll
  unfolding is_held_by
  release_slot gate_on token c = elim token.slot_id [
    | none ↦ c
    | some i ↦
        if gate_on then (m.update_one i (is_held_by token.holder) (λ _. free_slot) c).1 else c
  ]

  -- `with download_slot(…): body`. The body is given the token, and stands for all that happens
  -- until it returns or raises, heartbeats and other runners included.
  unfoldable pub download_slot {ℓ} :
      {R : Type ℓ}
      → Turns Coll
      → (gate_on : Bool) → ℕ
      → ℕ
      → Text
      → ℕ
      → ℕ
      → (SlotToken → Coll → R × Coll)
      → Coll
      → Option (Option R × Coll)
  unfolding acquire_slot release_slot
  download_slot turns gate_on max_concurrency lease gate h fuel body c =
      elim (acquire_slot turns gate_on max_concurrency lease gate h fuel c) [
        | none ↦ none
        | some (cancelled, c') ↦ some (none, c')
        | some (got token, c') ↦
            let (r, c'') = body token c' in some (some r, release_slot gate_on token c'')
      ]
