-- ===== src/Tests/Gate.antt =====
-- A collection in memory, which does what MongoDB documents, and two runners on it.
use fwh_osm.Prelude.{
  zero, suc, ◌+◌, Bool, true, false, Option, none, some, List, [], ◌∷◌, ◌≡◌, ◌≢◌, ◌⊎◌, inl, inr,
  refl, ap, subst, arith, if◌then◌else◌, Bool-cases, is_some, Among,
}
use fwh_osm.Prelude.Text.{Text, codes, decimal, same_text, same_text_iff}
use fwh_osm.Gate.Slots.{
  SlotToken, noop_token, slot_name, slot_names, is_claimable, is_held_by, leased, free_slot, Turns,
  Ending, got, ensure_from, ensure_slots, claim, acquire_from, acquire_slot, renew_slot,
  download_slot,
}
use fwh_osm.Gate.Leases.{here, next, claimed, renewed, lease_is_exclusive}
use fwh_osm.Gate.Acquire.{IsTaken, acquire_slot_holds, acquire_slot_takes_free, acquire_slot_total}
use fwh_osm.Gate.Block.{download_slot_frees}
use fwh_osm.Gate.Store.{Doc, Reply, raised, replied, Mongo, IsMongo, Same, IsPut, Touched, Inserted}

abbrev Coll : Type 0
Coll = Text → Option Doc

abbrev set_doc : Text → Doc → Coll → Coll
set_doc i d c j = if same_text j i then some d else c j

abbrev passes : (Doc → Bool) → Option Doc → Bool
passes p none = false
passes p (some d) = p d

abbrev insert : Text → Doc → Coll → Coll
insert i d c = if is_some (c i) then c else set_doc i d c

abbrev find_one_and_update : List Text → (Doc → Bool) → Doc → Coll → Reply (Option Text) × Coll
find_one_and_update [] p d c = (replied none, c)
find_one_and_update (i ∷ is) p d c =
    let rest = find_one_and_update is p d c in
    if passes p (c i) then (replied (some i), set_doc i d c) else rest

abbrev change : (Doc → Bool) → (Doc → Doc) → Option Doc → Text → Coll → Reply Bool × Coll
change p f none i c = (replied false, c)
change p f (some d) i c = if p d then (replied true, set_doc i (f d) c) else (replied false, c)

abbrev memory : Mongo Coll
memory = record {
  find = λ c i. c i;
  upsert = λ i d c. (replied tt, insert i d c);
  find_one_and_update = find_one_and_update;
  update_one = λ i p f c. change p f (c i) i c;
}

set_doc-IsPut : (i : Text) (d : Doc) (c : Coll) → IsPut memory i d c (set_doc i d c)
set_doc-IsPut i d c = record {
  here = rw ((same_text_iff i i).1 refl);
  others = λ j apart. elim (Bool-cases (same_text j i)) [
    | inl same ↦ absurd (apart ((same_text_iff j i).0 same))
    | inr other ↦ rw other
  ];
}

insert-effect :
    (i : Text) (d : Doc) (c : Coll) (o : Option Doc)
    → c i ≡ o
    → Same memory c (if is_some o then c else set_doc i d c)
      ⊎ Inserted memory i d c (if is_some o then c else set_doc i d c)
insert-effect i d c none e = inr (record { absent = e; inserted = set_doc-IsPut i d c })
insert-effect i d c (some old) e = inl (λ j. refl)

insert-there :
    (i : Text) (d : Doc) (c : Coll) (o : Option Doc)
    → c i ≡ o
    → (old : Doc) × ((if is_some o then c else set_doc i d c) i ≡ some old)
insert-there i d c none e = (d, rw ((same_text_iff i i).1 refl))
insert-there i d c (some old) e = (old, e)

passes-found :
    (p : Doc → Bool) (o : Option Doc)
    → passes p o ≡ true
    → (old : Doc) × (o ≡ some old) × (p old ≡ true)
passes-found p none e = cc
passes-found p (some old) e = (old, refl, e)

claim-Claimed :
    (ids : List Text) (p : Doc → Bool) (d : Doc) (c : Coll)
    → let (r, c') = find_one_and_update ids p d c in
      ((r ≡ replied none)
        × (c' ≡ c)
        × ((i : Text) (old : Doc) → Among i ids → c i ≡ some old → p old ≡ false))
      ⊎ ((i : Text) × (r ≡ replied (some i)) × Among i ids × Touched memory i p (λ _. d) c c')
claim-Claimed [] p d c = inl (refl, refl, λ i old named. absurd named)
claim-Claimed (x ∷ xs) p d c = elim (Bool-cases (passes p (c x))) [
  | inl hit ↦
      let (old, found, passed) = passes-found p (c x) hit in
      rw hit (
        inr (
          x,
          refl,
          inl refl,
          record { old = old; found = found; passed = passed; set_to = set_doc-IsPut x d c },
        ))
  | inr miss ↦ rw miss (elim (claim-Claimed xs p d c) [
    | inl (r, same, all) ↦ inl (
      r,
      same,
      λ i old named there. elim named [
        | inl first ↦ ground (arith, miss, there, ap c first)
        | inr later ↦ all i old later there
      ],
    )
    | inr (i, r, named, t) ↦ inr (i, r, inr named, t)
  ])
]

change-effect :
    (i : Text) (p : Doc → Bool) (f : Doc → Doc) (c : Coll) (o : Option Doc)
    → c i ≡ o
    → let (r, c') = change p f o i c in
      ((r ≡ replied false) × (c' ≡ c) × ((old : Doc) → c i ≡ some old → p old ≡ false))
      ⊎ ((r ≡ replied true) × Touched memory i p f c c')
change-effect i p f c none e = inl (refl, refl, λ old there. cc)
change-effect i p f c (some d) e = elim (Bool-cases (p d)) [
  | inl hit ↦
      rw hit
        (inr (refl, record { old = d; found = e; passed = hit; set_to = set_doc-IsPut i (f d) c }))
  | inr miss ↦ rw miss (inl (refl, refl, λ old there. ground (arith, miss, there, e)))
]

abbrev same_tree : {c c' : Coll} → c' ≡ c → Same memory c c'
same_tree e j = ap (λ (k : Coll). k j) e

memory-IsMongo : IsMongo memory
memory-IsMongo = record {
  upsert_effect = λ i d c. insert-effect i d c (c i) refl;
  upsert_there = λ i d c done. insert-there i d c (c i) refl;
  claim_effect = λ ids p d c. elim (claim-Claimed ids p d c) [
    | inl (r, same, all) ↦ inl (same_tree same)
    | inr (i, r, named, t) ↦ inr (record { slot = i; named = named; touched = t })
  ];
  claim_one = λ ids p d c i done. elim (claim-Claimed ids p d c) [
    | inl (r, same, all) ↦ absurd (ground (arith, r, done))
    | inr (j, r, named, t) ↦
        let is : j ≡ i = ground (arith, r, done) in
        (
          subst (λ k. Among k ids) is named,
          subst (λ k. Touched memory k p (λ _. d) c (find_one_and_update ids p d c).1) is t,
        )
  ];
  claim_none = λ ids p d c i old done named there. elim (claim-Claimed ids p d c) [
    | inl (r, same, all) ↦ all i old named there
    | inr (j, r, _, t) ↦ absurd (ground (arith, r, done))
  ];
  update_effect = λ i p f c. elim (change-effect i p f c (c i) refl) [
    | inl (r, same, all) ↦ inl (same_tree same)
    | inr (r, t) ↦ inr t
  ];
  update_matched = λ i p f c done. elim (change-effect i p f c (c i) refl) [
    | inl (r, same, all) ↦ absurd (ground (arith, r, done))
    | inr (r, t) ↦ t
  ];
  update_missed = λ i p f c old done there. elim (change-effect i p f c (c i) refl) [
    | inl (r, same, all) ↦ all old there
    | inr (r, t) ↦ absurd (ground (arith, r, done))
  ];
}

-- The first slot is held by runner 7 until 100; nothing else is there.
abbrev slot_0 : Text
slot_0 = codes "slot-0"

abbrev start : Coll
start i = if same_text i slot_0 then some (leased 7 100) else none

-- The clock of each turn, and a deadline at the third.
abbrev turns : Turns Coll
turns = record {
  now_ms = λ k. 50 + k;
  is_late = λ k. elim k [ zero ↦ false | suc zero ↦ false | suc (suc _) ↦ true ];
  is_cancelled = λ _. false;
  others = λ k c. c;
}

abbrev map_token : Option (Ending × Coll) → Option Ending
map_token none = none
map_token (some (e, c)) = some e

-- Runner 8 takes the second slot.
second_slot :
    map_token (acquire_slot memory turns true 2 1000 [] 8 1 start)
    ≡ some (got (record { slot_id = some (codes "slot-1"); holder = 8 }))
unfolding acquire_slot ensure_slots ensure_from acquire_from claim slot_names slot_name decimal
    is_claimable
second_slot = refl

-- With one slot it waits until the deadline, and then goes on without.
no_slot : map_token (acquire_slot memory turns true 1 1000 [] 8 3 start) ≡ some (got noop_token)
unfolding acquire_slot ensure_slots ensure_from acquire_from claim slot_names slot_name decimal
    is_claimable
no_slot = refl

abbrev after_8 : Coll
unfolding acquire_slot
after_8 = elim (acquire_slot memory turns true 2 1000 [] 8 1 start) [
  | none ↦ start
  | some (_, c) ↦ c
]

acquire_slot_holds_example :
    let token : SlotToken = record { slot_id = some (codes "slot-1"); holder = 8 } in
    (token ≡ noop_token)
    ⊎ ((i : Text) × (token ≡ record { slot_id = some i; holder = 8 })
        × IsTaken memory turns 2 [] 8 1000 0 (ensure_slots memory 2 [] start).1 i after_8)
unfolding acquire_slot ensure_slots ensure_from acquire_from claim slot_names slot_name decimal
    is_claimable
acquire_slot_holds_example =
    acquire_slot_holds memory memory-IsMongo turns true 2 1000 [] 8 1 start after_8
      (record { slot_id = some (codes "slot-1"); holder = 8 }) refl

acquire_slot_total_example :
    (out : Ending × Coll) × (acquire_slot memory turns true 1 1000 [] 8 3 start ≡ some out)
acquire_slot_total_example = acquire_slot_total memory turns true 1 1000 [] 8 2 start refl

-- Runner 8 claims one of two slots and renews it, while runner 7 holds the first.
lease_is_exclusive_example :
    let c1 = (claim memory 2 [] 8 60 1000 start).1 in
    (renew_slot memory true (record { slot_id = some slot_0; holder = 8 }) 90 1000 c1).1 slot_0
    ≡ some (leased 7 100)
lease_is_exclusive_example = lease_is_exclusive memory memory-IsMongo 7 100 slot_0 start _ refl (
    next (next here (claimed 2 [] 8 60 1000 (omega arith)))
      (renewed true (record { slot_id = some slot_0; holder = 8 }) 90 1000 (λ e. omega arith)))

-- The body leaves the slot as it was given.
abbrev idle : SlotToken → Coll → Unit {0} × Coll
idle token c = (tt, c)

download_slot_frees_example :
    (c2 : Coll) × (download_slot memory turns true 2 1000 [] 8 1 idle start ≡ some (some tt, c2))
    × ((leased 8 1050).holder ≡ some 8
        → (memory.update_one (codes "slot-1") (is_held_by 8) (λ _. free_slot) after_8).0 ≢ raised
        → c2 (codes "slot-1") ≡ some free_slot)
    × ((leased 8 1050).holder ≢ some 8 → Same memory after_8 c2)
unfolding acquire_slot ensure_slots ensure_from acquire_from claim slot_names slot_name decimal
    is_claimable
download_slot_frees_example =
    download_slot_frees memory memory-IsMongo turns 2 1000 [] 8 1 idle start after_8
      (codes "slot-1") (leased 8 1050) refl refl

acquire_slot_takes_free_example :
    (i : Text) × (acquire_slot memory turns true 2 1000 [] 8 1 start
      ≡ some (
        got (record { slot_id = some i; holder = 8 }),
        (claim memory 2 [] 8 50 1000 (ensure_slots memory 2 [] start).1).1,
      ))
unfolding ensure_slots ensure_from claim slot_names slot_name decimal is_claimable
acquire_slot_takes_free_example =
    acquire_slot_takes_free memory memory-IsMongo turns 2 1000 [] 8 0 start (codes "slot-1")
      free_slot refl (λ e. cc) (inr (inl refl)) refl refl
