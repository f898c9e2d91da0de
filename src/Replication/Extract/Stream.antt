-- ===== src/Replication/Extract/Stream.antt =====
-- The life of one region's stream: anchors, publishing runs that may be interrupted, applications
-- and rewrites of the extract, in any order.
use mathlib.Core.List.{map}
use fwh_osm.Prelude.{
  ℕ, suc, ◌-◌, ◌<◌, String, true, ◌&&◌, Option, none, some, List, [], ◌∷◌, ◌≡◌, ◌≢◌, ◌⊎◌, refl, ◌∙◌,
  sym, subst, arith, All, leb, str_eq, str_eq_iff, Bool-cases, Option-cases, inl, inr, has_name, ap,
  and_parts,
}
use fwh_osm.Prelude.Text.{Text, NoBreak}
use fwh_osm.Replication.Sequence.{diff_name}
use fwh_osm.Replication.State.{format_state}
use fwh_osm.Replication.State.Trip.{parse_state-format_sequence}
use fwh_osm.Replication.Disk.{
  Disk, Region, Pbf, change_region, write_pbf, write_extract_state, region_state, extract_state,
  count_up,
}
use fwh_osm.Replication.Publish.{Env, visited, publish}
use fwh_osm.Replication.Publish.Covered.{IsCovered, IsTrusted, empty-sequence}
use fwh_osm.Replication.Publish.Safety.{publish-IsCovered}
use fwh_osm.Replication.Extract.{
  ApplyChanges, Output, written, failed, not_found, pending_diffs, updates_url, install,
  apply_between, apply_known, apply_published, anchor,
}
use fwh_osm.Replication.Extract.Anchor.{anchor-IsCovered}
use fwh_osm.Replication.Extract.Apply.{read_state-NoBreak, apply_published-diffs}

-- A rewritten extract does not change the stream.
write_pbf-IsCovered : (new : Pbf) (d : Region) → IsCovered d → IsCovered (write_pbf new d)
unfolding write_pbf region_state extract_state
write_pbf-IsCovered new d c = record {
  anchored = c.anchored;
  head = λ h x. record { at = (c.head h x).at };
}

-- With an emptied `extract.state.txt` it is not known what is pending.
emptied_extract-IsCovered : (d : Region) → IsCovered d → IsCovered (write_extract_state [] d)
unfolding write_extract_state region_state extract_state
emptied_extract-IsCovered d c = record {
  anchored = c.anchored;
  head = λ h x. record { at = λ e s y lo hi. absurd (ground (arith, empty-sequence)) };
}

-- With the extract's data at the head nothing is pending.
at_head-IsCovered :
    (h : ℕ) (ts : Text) (d : Region)
    → NoBreak ts
    → (region_state d).0 ≡ some h
    → IsCovered (write_extract_state (format_state h ts) d)
unfolding write_extract_state region_state extract_state
at_head-IsCovered h ts d nb head =
    let read = parse_state-format_sequence h ts nb in
    record {
      anchored = λ x. cc;
      head = λ h' x. record {
        at = λ e s y lo hi.
            let e_is : e ≡ h = ground (arith, read) in
            let h_is : h' ≡ h = ground arith in absurd (omega arith);
      };
    }

write_pbf-state : (new : Pbf) (d : Region) → (region_state (write_pbf new d)).0 ≡ (region_state d).0
unfolding write_pbf region_state
write_pbf-state new d = refl

change-IsCovered :
    (r q : String) (f : Region → Region) (disk : Disk)
    → IsCovered (disk q)
    → (str_eq r q ≡ true → IsCovered (f (disk q)))
    → IsCovered (change_region r f disk q)
change-IsCovered r q f disk c cf = elim (Bool-cases (str_eq r q)) [
  | inl same ↦ rw same (cf same)
  | inr other ↦ rw other c
]

module _ (osmium : ApplyChanges) (base : Text) (r q : String) where
  install-IsCovered :
      (e h : ℕ) (ts : Text) (o : Output) (disk : Disk)
      → NoBreak ts
      → (region_state (disk r)).0 ≡ some h
      → IsCovered (disk q)
      → IsCovered ((install osmium base r e h ts o disk).1 q)
  unfolding install
  install-IsCovered e h ts failed disk nb head c = c
  install-IsCovered e h ts not_found disk nb head c = c
  install-IsCovered e h ts (written bytes size) disk nb head c =
      let new : Pbf = record {
        header = record { sequence = some h; timestamp = ts; base_url = updates_url base r };
        bytes = bytes;
        size = size;
      } in
      let swapped = change_region r (write_pbf new) disk in
      change-IsCovered r q (write_extract_state (format_state h ts)) swapped
        (change-IsCovered r q (write_pbf new) disk c (λ same. write_pbf-IsCovered new (disk q) c))
        (λ same.
          let r_is_q = (str_eq_iff r q).0 same in
          let moved : swapped q ≡ write_pbf new (disk q) = rw same refl in
          rw moved (
            at_head-IsCovered h ts (write_pbf new (disk q)) nb (
              write_pbf-state new (disk q)
              ∙ ap (λ k. (region_state (disk k)).0) (sym r_is_q)
              ∙ head)))

  between-IsCovered :
      (pbf : Pbf) (e h : ℕ) (ts : Text) (disk : Disk)
      → NoBreak ts
      → (region_state (disk r)).0 ≡ some h
      → IsCovered (disk q)
      → IsCovered ((apply_between osmium base r pbf e h ts disk).1 q)
  unfolding apply_between
  between-IsCovered pbf e h ts disk nb head c = elim (Bool-cases (leb h e)) [
    | inl current ↦ rw (current, apply_between) c
    | inr behind ↦ elim (Option-cases (pending_diffs (disk r).diffs (h - e) (suc e))) [
      | inl hole ↦ rw (behind, apply_between) (rw hole c)
      | inr (diffs, all) ↦
          rw (behind, apply_between)
            (rw all (install-IsCovered e h ts (osmium pbf.bytes diffs) disk nb head c))
    ]
  ]

  known-IsCovered :
      (pbf : Pbf) (ext head : Option ℕ) (ts : Text) (disk : Disk)
      → NoBreak ts
      → (region_state (disk r)).0 ≡ head
      → IsCovered (disk q)
      → IsCovered ((apply_known osmium base r pbf ext head ts disk).1 q)
  unfolding apply_known
  known-IsCovered pbf (some e) (some h) ts disk nb head c =
      between-IsCovered pbf e h ts disk nb head c
  known-IsCovered pbf (some e) none ts disk nb head c = c
  known-IsCovered pbf none _ ts disk nb head c = c

  apply_published-IsCovered :
      (disk : Disk) → IsCovered (disk q) → IsCovered ((apply_published osmium base r disk).1 q)
  unfolding apply_published
  apply_published-IsCovered disk c = elim (Option-cases (disk r).pbf) [
    | inl gone ↦ rw (gone, apply_published) c
    | inr (pbf, there) ↦
        rw (there, apply_published)
          (known-IsCovered pbf (extract_state (disk r)).0 (region_state (disk r)).0
            (region_state (disk r)).1 disk
            (unfold region_state in read_state-NoBreak (disk r).state) refl c)
  ]

-- `tree` is one of the trees of a list.
abbrev pub Visits : Disk → List Disk → Type 0
Visits tree [] = ⊥
Visits tree (d ∷ ds) = (tree ≡ d) ⊎ Visits tree ds

All-Visits : (P : Disk → Type 0) (tree : Disk) (ds : List Disk) → All P ds → Visits tree ds → P tree
All-Visits P tree [] h v = absurd v
All-Visits P tree (d ∷ ds) (p, h) (inl e) = subst P (sym e) p
All-Visits P tree (d ∷ ds) (p, h) (inr v) = All-Visits P tree ds h v

-- One step of the tree's life, for the region `q`: a run of `publish` that names it, up to any of
-- the trees that it passes through in which `state.txt` of `q` is not emptied; an application to any
-- region; a rewrite of any extract, also one that is cut short before `extract.state.txt` is
-- written, or while it is emptied to be written; an anchor of regions with their directories.
pub data Move (q : String) (disk : Disk) : Disk → Type 0 where
  published :
      (env : Env) (names : List String) (tree : Disk)
      → has_name q names ≡ true
      → Visits tree (visited (publish env names disk).1)
      → (tree q).state ≢ some []
      → Move q disk tree
  applied :
      (osmium : ApplyChanges) (base : Text) (r : String)
      → Move q disk (apply_published osmium base r disk).1
  rewritten : (r : String) (new : Pbf) → Move q disk (change_region r (write_pbf new) disk)
  cut_short :
      (r : String) (new : Pbf)
      → Move q disk (change_region r (λ d. write_extract_state [] (write_pbf new d)) disk)
  anchored :
      (regions : List String) (seq : ℕ) (ts : Text)
      → NoBreak ts
      → Move q disk (anchor regions seq ts disk).0

pub data Reach (q : String) (disk : Disk) : Disk → Type 0 where
  here : Reach q disk disk
  next : {tree tree' : Disk} → Reach q disk tree → Move q tree tree' → Reach q disk tree'

Move-IsCovered :
    {q : String} {disk tree : Disk} → Move q disk tree → IsCovered (disk q) → IsCovered (tree q)
Move-IsCovered {q} {disk} (published env names tree named v whole) c =
    elim (Option-cases (region_state (disk q)).0) [
      | inl headless ↦ absurd (c.anchored headless)
      | inr (s, known) ↦
          let trusted =
            All-Visits (λ d. IsTrusted s (d q)) tree (visited (publish env names disk).1)
              (publish-IsCovered env names disk q s named known c).1 v in
          record { anchored = λ e. whole (trusted.emptied e); head = trusted.head }
    ]
Move-IsCovered {q} {disk} (applied osmium base r) c =
    apply_published-IsCovered osmium base r q disk c
Move-IsCovered {q} {disk} (rewritten r new) c =
    change-IsCovered r q (write_pbf new) disk c (λ same. write_pbf-IsCovered new (disk q) c)
Move-IsCovered {q} {disk} (cut_short r new) c =
    change-IsCovered r q (λ d. write_extract_state [] (write_pbf new d)) disk c
      (λ same.
        emptied_extract-IsCovered (write_pbf new (disk q)) (write_pbf-IsCovered new (disk q) c))
Move-IsCovered {q} {disk} (anchored regions seq ts nb) c =
    let facts = anchor-IsCovered regions seq ts disk q nb in
    elim (Bool-cases (has_name q regions && (disk q).is_dir)) [
      | inl both ↦
          let parts = and_parts (has_name q regions) (disk q).is_dir both in facts.0 parts.0 parts.1
      | inr spared ↦ subst IsCovered (sym (facts.1 spared)) c
    ]

Reach-IsCovered :
    {q : String} {disk tree : Disk} → Reach q disk tree → IsCovered (disk q) → IsCovered (tree q)
Reach-IsCovered here c = c
Reach-IsCovered (next r m) c = Move-IsCovered m (Reach-IsCovered r c)

-- Start from a tree where the stream of a region has no hole, as `anchor` makes it, and let runs of
-- `publish` for it follow that end or are interrupted anywhere but between the emptying and the writing of
-- the region's `state.txt`, with applications and rewrites, cut short or not, and further anchors, in
-- any order. Wherever the extract is behind the head then, `apply_published` finds every diff: it gives osmium
-- exactly the diffs behind the extract's data up to the head, in order, and never refuses a gap.
pub Reach-apply_published :
    (q : String) (disk tree : Disk) (osmium : ApplyChanges) (base : Text) (p : Pbf) (e h : ℕ)
    → IsCovered (disk q)
    → Reach q disk tree
    → (tree q).pbf ≡ some p
    → (extract_state (tree q)).0 ≡ some e
    → (region_state (tree q)).0 ≡ some h
    → e < h
    → apply_published osmium base q tree
      ≡ install osmium base q e h
          (region_state (tree q)).1
          (osmium p.bytes (map diff_name (count_up (suc e) (h - e))))
          tree
Reach-apply_published q disk tree osmium base p e h start reach there ext head behind =
    apply_published-diffs osmium base q tree p e h there ext head behind
      (Reach-IsCovered reach start)
