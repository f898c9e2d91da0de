-- ===== src/Gate/Store.antt =====
-- The collection `osm_download_gate`: what download_gate.py uses of pymongo, and what MongoDB
-- documents of it. Each call takes effect at once or, if it raises, maybe not at all.
use fwh_osm.Prelude.{ℕ, Bool, true, false, Option, none, some, List, ◌≡◌, ◌≢◌, ◌⊎◌, Among}
use fwh_osm.Prelude.Text.{Text}

-- The document of one slot, without its `_id`; a holder is a uuid.
pub record Doc : Type 0 where
  pub holder : Option ℕ
  pub lease_expires : ℕ

-- What a call gives: an exception or a value.
pub data Reply (A : Type 0) : Type 0 where
  raised : Reply A
  replied : A → Reply A

pub record Mongo (Coll : Type 0) : Type 0 where
  pub find : Coll → Text → Option Doc
  -- `update_one({"_id": i}, {"$setOnInsert": d}, upsert=True)`
  pub upsert : Text → Doc → Coll → Reply (Unit {0}) × Coll
  -- `find_one_and_update({"_id": {"$in": ids}, …}, {"$set": d})`: the `_id` of the document
  pub find_one_and_update : List Text → (Doc → Bool) → Doc → Coll → Reply (Option Text) × Coll
  -- `update_one({"_id": i, …}, {"$set": …})`: whether a document matched
  pub update_one : Text → (Doc → Bool) → (Doc → Doc) → Coll → Reply Bool × Coll

module _ {Coll : Type 0} (m : Mongo Coll) where
  -- No document differs.
  abbrev pub Same : Coll → Coll → Type 0
  Same c c' = (j : Text) → m.find c' j ≡ m.find c j

  -- One document is `d` now, and no other differs.
  pub record IsPut (i : Text) (d : Doc) (c c' : Coll) : Type 0 where
    pub here : m.find c' i ≡ some d
    pub others : (j : Text) → j ≢ i → m.find c' j ≡ m.find c j

  -- A document that passed the filter was changed.
  pub record Touched (i : Text) (p : Doc → Bool) (f : Doc → Doc) (c c' : Coll) : Type 0 where
    pub old : Doc
    pub found : m.find c i ≡ some old
    pub passed : p old ≡ true
    pub set_to : IsPut i (f old) c c'

  -- A document was inserted where there was none.
  pub record Inserted (i : Text) (d : Doc) (c c' : Coll) : Type 0 where
    pub absent : m.find c i ≡ none
    pub inserted : IsPut i d c c'

  -- One of the documents with the given ids was changed.
  pub record Claimed (ids : List Text) (p : Doc → Bool) (d : Doc) (c c' : Coll) : Type 0 where
    pub slot : Text
    pub named : Among slot ids
    pub touched : Touched slot p (λ _. d) c c'

  pub record IsMongo : Type 0 where
    pub upsert_effect :
        (i : Text) (d : Doc) (c : Coll)
        → Same c (m.upsert i d c).1 ⊎ Inserted i d c (m.upsert i d c).1
    pub upsert_there :
        (i : Text) (d : Doc) (c : Coll)
        → (m.upsert i d c).0 ≡ replied tt
        → (old : Doc) × (m.find (m.upsert i d c).1 i ≡ some old)
    pub claim_effect :
        (ids : List Text) (p : Doc → Bool) (d : Doc) (c : Coll)
        → Same c (m.find_one_and_update ids p d c).1
          ⊎ Claimed ids p d c (m.find_one_and_update ids p d c).1
    pub claim_one :
        (ids : List Text) (p : Doc → Bool) (d : Doc) (c : Coll) (i : Text)
        → (m.find_one_and_update ids p d c).0 ≡ replied (some i)
        → Among i ids × Touched i p (λ _. d) c (m.find_one_and_update ids p d c).1
    pub claim_none :
        (ids : List Text) (p : Doc → Bool) (d : Doc) (c : Coll) (i : Text) (old : Doc)
        → (m.find_one_and_update ids p d c).0 ≡ replied none
        → Among i ids
        → m.find c i ≡ some old
        → p old ≡ false
    pub update_effect :
        (i : Text) (p : Doc → Bool) (f : Doc → Doc) (c : Coll)
        → Same c (m.update_one i p f c).1 ⊎ Touched i p f c (m.update_one i p f c).1
    pub update_matched :
        (i : Text) (p : Doc → Bool) (f : Doc → Doc) (c : Coll)
        → (m.update_one i p f c).0 ≡ replied true
        → Touched i p f c (m.update_one i p f c).1
    pub update_missed :
        (i : Text) (p : Doc → Bool) (f : Doc → Doc) (c : Coll) (old : Doc)
        → (m.update_one i p f c).0 ≡ replied false
        → m.find c i ≡ some old
        → p old ≡ false
