-- ===== src/Replication/Extract/Apply.antt =====
-- `apply_published`: which diffs osmium is given, when the call refuses, and what it leaves.
use mathlib.Core.List.{map}
use fwh_osm.Prelude.{
  ℕ, zero, suc, ◌+◌, ◌-◌, ◌≤◌, ◌<◌, String, true, false, Option, none, some, List, ◌≡◌, refl, ◌∙◌,
  arith, leb, ap, str_eq_iff,
}
use fwh_osm.Prelude.Result.{Result, ok, err, replication_error}
use fwh_osm.Prelude.Text.{Text, NoBreak}
use fwh_osm.Replication.Sequence.{diff_name}
use fwh_osm.Replication.State.{format_state}
use fwh_osm.Replication.State.Trip.{parse_state-format_sequence}
use fwh_osm.Replication.State.Clean.{parse_state-NoBreak}
use fwh_osm.Replication.Disk.{
  Disk, Region, Pbf, has_diff, write_pbf, write_extract_state, region_state, extract_state,
  read_state, count_up,
}
use fwh_osm.Replication.Publish.Covered.{IsCovered}
use fwh_osm.Replication.Extract.{
  ApplyChanges, written, pending_diffs, updates_url, install, apply_between, apply_published,
}

pending_diffs-all :
    (diffs : List (Text × ℕ)) (count seq : ℕ)
    → ((s : ℕ) → seq ≤ s → s < seq + count → has_diff diffs (diff_name s) ≡ true)
    → pending_diffs diffs count seq ≡ some (map diff_name (count_up seq count))
unfolding pending_diffs
pending_diffs-all diffs zero seq h = refl
pending_diffs-all diffs (suc count) seq h =
    rw (pending_diffs-all diffs count (suc seq) (λ s lo hi. h s (omega arith) (omega arith)))
      (rw (h seq (omega arith) (omega arith)))

pending_diffs-hole :
    (diffs : List (Text × ℕ)) (count seq s : ℕ)
    → seq ≤ s
    → s < seq + count
    → has_diff diffs (diff_name s) ≡ false
    → pending_diffs diffs count seq ≡ none
unfolding pending_diffs
pending_diffs-hole diffs zero seq s lo hi gap = absurd (omega arith)
pending_diffs-hole diffs (suc count) seq s lo hi gap =
    ground
      (arith, pending_diffs-hole diffs count (suc seq) s, ap (λ k. has_diff diffs (diff_name k)))

pub read_state-NoBreak : (o : Option Text) → NoBreak (read_state o).1
read_state-NoBreak none = tt
read_state-NoBreak (some text) = parse_state-NoBreak text

module _ (osmium : ApplyChanges) (base : Text) (region : String) where
  apply_published-known :
      (disk : Disk) (p : Pbf) (e h : ℕ)
      → (disk region).pbf ≡ some p
      → (extract_state (disk region)).0 ≡ some e
      → (region_state (disk region)).0 ≡ some h
      → apply_published osmium base region disk
        ≡ apply_between osmium base region p e h (region_state (disk region)).1 disk
  unfolding apply_published
  apply_published-known disk p e h there ext head =
      rw (there, apply_published) (rw ext (rw head refl))

  between-all :
      (disk : Disk) (p : Pbf) (e h : ℕ) (ts : Text)
      → leb h e ≡ false
      → pending_diffs (disk region).diffs (h - e) (suc e)
        ≡ some (map diff_name (count_up (suc e) (h - e)))
      → apply_between osmium base region p e h ts disk
        ≡ install osmium base region e h ts
            (osmium p.bytes (map diff_name (count_up (suc e) (h - e))))
            disk
  unfolding apply_between
  between-all disk p e h ts behind all = rw (behind, apply_between) (rw all)

  between-hole :
      (disk : Disk) (p : Pbf) (e h : ℕ) (ts : Text)
      → leb h e ≡ false
      → pending_diffs (disk region).diffs (h - e) (suc e) ≡ none
      → apply_between osmium base region p e h ts disk ≡ (err replication_error, disk)
  unfolding apply_between
  between-hole disk p e h ts behind hole = rw (behind, apply_between) (rw hole)

  -- Osmium is given the extract and, in order, exactly the diffs behind the extract's data up to
  -- the head, when the stream of the region is covered and the extract is behind.
  pub apply_published-diffs :
      (disk : Disk) (p : Pbf) (e h : ℕ)
      → (disk region).pbf ≡ some p
      → (extract_state (disk region)).0 ≡ some e
      → (region_state (disk region)).0 ≡ some h
      → e < h
      → IsCovered (disk region)
      → apply_published osmium base region disk
        ≡ install osmium base region e h
            (region_state (disk region)).1
            (osmium p.bytes (map diff_name (count_up (suc e) (h - e))))
            disk
  apply_published-diffs disk p e h there ext head behind covered =
      apply_published-known disk p e h there ext head
      ∙ between-all disk p e h _ (ground arith) (
          pending_diffs-all (disk region).diffs (h - e) (suc e)
            (λ s lo hi. (covered.head h head).at e s ext lo (omega arith)))

  -- If a diff between the extract's data and the head is missing, nothing is applied: the call
  -- raises, and the tree stays as it was.
  pub apply_published_refuses_gap :
      (disk : Disk) (p : Pbf) (e h s : ℕ)
      → (disk region).pbf ≡ some p
      → (extract_state (disk region)).0 ≡ some e
      → (region_state (disk region)).0 ≡ some h
      → e < s
      → s ≤ h
      → has_diff (disk region).diffs (diff_name s) ≡ false
      → apply_published osmium base region disk ≡ (err replication_error, disk)
  apply_published_refuses_gap disk p e h s there ext head lo hi gap =
      apply_published-known disk p e h there ext head
      ∙ between-hole disk p e h _ (ground arith)
          (pending_diffs-hole (disk region).diffs (h - e) (suc e) s lo (omega arith) gap)

  -- The region's files after a pass that wrote its output.
  abbrev installed : ℕ → Text → ℕ → ℕ → Region → Region
  installed h ts bytes size d = write_extract_state (format_state h ts) (
      write_pbf
        (record {
          header = record { sequence = some h; timestamp = ts; base_url = updates_url base region };
          bytes = bytes;
          size = size;
        })
        d)

  install-region :
      (e h : ℕ) (ts : Text) (bytes size : ℕ) (disk : Disk)
      → (install osmium base region e h ts (written bytes size) disk).1 region
        ≡ installed h ts bytes size (disk region)
  unfolding install
  install-region e h ts bytes size disk = rw ((str_eq_iff region region).1 refl)

  installed_facts :
      (h : ℕ) (ts : Text) (bytes size : ℕ) (d : Region)
      → NoBreak ts
      → (region_state d).0 ≡ some h
      → ((new : Pbf) × ((installed h ts bytes size d).pbf ≡ some new)
          × (new.header.sequence ≡ some h)
          × (new.bytes ≡ bytes))
        × ((extract_state (installed h ts bytes size d)).0 ≡ some h)
        × ((region_state (installed h ts bytes size d)).0 ≡ some h)
  unfolding write_extract_state write_pbf extract_state region_state
  installed_facts h ts bytes size d nb head =
      ((_, refl, refl, refl), parse_state-format_sequence h ts nb, head)

  -- After a pass over a covered stream that writes its output, the extract is the new one, its
  -- header and `extract.state.txt` both name the head, and the head is what it was.
  pub apply_published_advances :
      (disk : Disk) (p : Pbf) (e h bytes size : ℕ)
      → (disk region).pbf ≡ some p
      → (extract_state (disk region)).0 ≡ some e
      → (region_state (disk region)).0 ≡ some h
      → e < h
      → IsCovered (disk region)
      → osmium p.bytes (map diff_name (count_up (suc e) (h - e))) ≡ written bytes size
      → let after = apply_published osmium base region disk in
        (after.0 ≡ ok (e, h, size))
        × ((new : Pbf) × ((after.1 region).pbf ≡ some new)
            × (new.header.sequence ≡ some h)
            × (new.bytes ≡ bytes))
        × ((extract_state (after.1 region)).0 ≡ some h)
        × ((region_state (after.1 region)).0 ≡ some h)
  apply_published_advances disk p e h bytes size there ext head behind covered made =
      let ts = (region_state (disk region)).1 in
      let whole =
        apply_published-diffs disk p e h there ext head behind covered
        ∙ ap (λ o. install osmium base region e h ts o disk) made in
      let files : (apply_published osmium base region disk).1 region
          ≡ installed h ts bytes size (disk region) =
        ap (λ (r : Result (ℕ × ℕ × ℕ) × Disk). r.1 region) whole
        ∙ install-region e h ts bytes size disk in
      let facts =
        installed_facts h ts bytes size (disk region)
          (unfold region_state in read_state-NoBreak (disk region).state) head in
      (
        ap (λ (r : Result (ℕ × ℕ × ℕ) × Disk). r.0) whole ∙ (unfold install in refl),
        rw files facts.0,
        rw files facts.1,
        rw files facts.2,
      )
