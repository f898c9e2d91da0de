-- ===== src/Replication/Extract.antt =====
-- The parts of replication_publish.py that change an extract or set a baseline: `anchor`,
-- `apply_published` and `stamp_extract`. The osmium process is a parameter.
pub mod Apply
pub mod Anchor
pub mod Stream
use fwh_osm.Prelude.{
  ℕ, zero, suc, ◌+◌, ◌-◌, String, Bool, true, false, Option, none, some, List, [], ◌∷◌, ◌++◌, ◌==◌,
  leb, if◌then◌else◌, str_eq,
}
use fwh_osm.Prelude.Result.{Result, ok, err, file_not_found, replication_error}
use fwh_osm.Prelude.Text.{Text, codes, rstrip_by}
use fwh_osm.Replication.Sequence.{diff_name}
use fwh_osm.Replication.State.{format_state}
use fwh_osm.Replication.Disk.{
  Disk, Region, Pbf, Header, change_region, has_diff, write_pbf, write_state, write_extract_state,
  region_state, extract_state,
}

-- What one osmium pass ends with: the bytes and the size of its output.
pub data Output : Type 0 where
  written : ℕ → ℕ → Output
  failed : Output
  not_found : Output

-- `osmium apply-changes` on an extract's bytes and the names of the diffs, in order.
abbrev pub ApplyChanges : Type 0
ApplyChanges = ℕ → List Text → Output

-- The names of the diffs `seq`, `seq + 1`, …, as many as asked for; `none` at a hole.
unfoldable pub pending_diffs : List (Text × ℕ) → ℕ → ℕ → Option (List Text)
pending_diffs diffs zero seq = some []
pending_diffs diffs (suc count) seq =
    let rest = pending_diffs diffs count (suc seq) in
    if has_diff diffs (diff_name seq)
    then elim rest [ none ↦ none | some names ↦ some (diff_name seq ∷ names) ]
    else none

-- `base_url.rstrip('/')/region-updates`
unfoldable pub updates_url : Text → String → Text
updates_url base region =
    rstrip_by (λ c. c == 47) base ++ (codes "/" ++ (codes region ++ codes "-updates"))

module _ (osmium : ApplyChanges) (base : Text) (region : String) where
  -- The last statements: the extract is replaced, and its own sequence number is written.
  unfoldable pub install : ℕ → ℕ → Text → Output → Disk → Result (ℕ × ℕ × ℕ) × Disk
  install ext head ts failed disk = (err replication_error, disk)
  install ext head ts not_found disk = (err replication_error, disk)
  install ext head ts (written bytes size) disk =
      let new : Pbf = record {
        header = record {
          sequence = some head;
          timestamp = ts;
          base_url = updates_url base region;
        };
        bytes = bytes;
        size = size;
      } in
      (
        ok (ext, head, size),
        change_region region (write_extract_state (format_state head ts))
            (change_region region (write_pbf new) disk),
      )

  unfoldable pub apply_between : Pbf → ℕ → ℕ → Text → Disk → Result (ℕ × ℕ × ℕ) × Disk
  unfolding install
  apply_between pbf ext head ts disk =
      if leb head ext
      then (ok (ext, ext, 0), disk)
      else elim (pending_diffs (disk region).diffs (head - ext) (suc ext)) [
        | none ↦ (err replication_error, disk)
        | some diffs ↦ install ext head ts (osmium pbf.bytes diffs) disk
      ]

  unfoldable pub apply_known : Pbf → Option ℕ → Option ℕ → Text → Disk → Result (ℕ × ℕ × ℕ) × Disk
  unfolding apply_between
  apply_known pbf (some ext) (some head) ts disk = apply_between pbf ext head ts disk
  apply_known pbf _ _ ts disk = (err replication_error, disk)

  -- (from_seq, to_seq, bytes_written)
  unfoldable pub apply_published : Disk → Result (ℕ × ℕ × ℕ) × Disk
  unfolding apply_known
  apply_published disk = elim (disk region).pbf [
    | none ↦ (err replication_error, disk)
    | some pbf ↦
        let (head, ts) = region_state (disk region) in
        apply_known pbf (extract_state (disk region)).0 head ts disk
  ]

-- `osmium cat` on an extract's bytes, with the three headers to write
abbrev pub StampHeader : Type 0
StampHeader = ℕ → Header → Output

-- A missing osmium is not caught here.
unfoldable pub stamp_with : String → Header → Output → Disk → Result ℕ × Disk
stamp_with region header failed disk = (err replication_error, disk)
stamp_with region header not_found disk = (err file_not_found, disk)
stamp_with region header (written bytes size) disk = (
  ok size,
  change_region region (write_pbf (record { header = header; bytes = bytes; size = size })) disk,
)

unfoldable pub stamp_extract : StampHeader → String → ℕ → Text → Text → Disk → Result ℕ × Disk
unfolding stamp_with
stamp_extract osmium region seq ts base disk = elim (disk region).pbf [
  | none ↦ (err replication_error, disk)
  | some pbf ↦
      let header : Header = record { sequence = some seq; timestamp = ts; base_url = base } in
      stamp_with region header (osmium pbf.bytes header) disk
]

-- The head and the extract's own sequence number are set for each region that has its directory.
unfoldable pub set_anchor : ℕ → Text → Region → Region
set_anchor seq ts d =
    write_extract_state (format_state seq ts) (write_state (format_state seq ts) d)

unfoldable pub anchor : List String → ℕ → Text → Disk → Disk × List String
unfolding set_anchor
anchor [] seq ts disk = (disk, [])
anchor (r ∷ rs) seq ts disk =
    let here = (disk r).is_dir in
    let (disk', touched) =
      anchor rs seq ts (if here then change_region r (set_anchor seq ts) disk else disk) in
    (disk', if here then r ∷ touched else touched)
