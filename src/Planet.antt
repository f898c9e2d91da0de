-- ===== src/Planet.antt =====
-- src/osm_geocoder/tools/_osm_tools/planet_maintain.py: one maintenance cycle of the self-hosted
-- planet. Pyosmium, and the split of planet_bootstrap.py, are parameters.
pub mod Guard
pub mod Advance
use fwh_osm.Prelude.{
  ℕ, suc, ◌+◌, ◌*◌, String, Bool, true, false, ◌||◌, Option, none, some, List, [], ◌∷◌,
  if◌then◌else◌, ltb, leb, max, is_empty,
}
use fwh_osm.Prelude.Result.{Result, ok, err, bootstrap_error}
use fwh_osm.Prelude.Text.{Text}

-- What the replication header of a PBF says; an empty text is no url.
pub record Header : Type 0 where
  pub url : Text
  pub sequence : Option ℕ

pub record Master : Type 0 where
  pub header : Header
  pub bytes : ℕ

pub data Status : Type 0 where
  updated already_current no_header unreachable apply_failed : Status

pub record MasterUpdate : Type 0 where
  pub old_sequence : Option ℕ
  pub new_sequence : Option ℕ
  pub status : Status
  pub advanced : Bool

-- `server.get_state_info()`: an exception, `None`, or the server's sequence number.
pub data Probe : Type 0 where
  raised no_state : Probe
  at : ℕ → Probe

-- What `apply_diffs_to_file` returns: a bare number, or a pair with a timestamp.
pub data NewSequence : Type 0 where
  bare : ℕ → NewSequence
  pair : ℕ → Text → NewSequence

-- `server.apply_diffs_to_file`: an exception, nothing, or a new file.
pub data Applied : Type 0 where
  failed : Applied
  nothing : Applied
  applied : NewSequence → Master → Applied

-- the replication server: what it answers, and the diffs from a sequence number within a size
pub record Server : Type 0 where
  pub probe : Probe
  pub apply_diffs : Master → ℕ → ℕ → Applied

-- the master, and `_master_update_tmp.osm.pbf`
pub record Files : Type 0 where
  pub master : Master
  pub tmp : Option Master

abbrev pub kb_per_mb : ℕ
kb_per_mb = 1024

abbrev pub first_of_pair : NewSequence → ℕ
first_of_pair (bare n) = n
first_of_pair (pair n ts) = n

abbrev pub unchanged : Option ℕ → Status → MasterUpdate
unchanged seq why = record {
  old_sequence = seq;
  new_sequence = seq;
  status = why;
  advanced = false;
}

-- Behind the probe: the diffs are applied to a file beside the master, which then replaces it.
unfoldable pub take_diffs : ℕ → Applied → Files → MasterUpdate × Files
take_diffs seq failed files = (unchanged (some seq) apply_failed, record files { tmp = none })
take_diffs seq nothing files = (unchanged (some seq) already_current, files)
take_diffs seq (applied new file) files = (
  record {
    old_sequence = some seq;
    new_sequence = some (first_of_pair new);
    status = updated;
    advanced = true;
  },
  record { master = file; tmp = none },
)

unfoldable pub follow : Server → ℕ → ℕ → Probe → Files → MasterUpdate × Files
unfolding take_diffs
follow server max_diff_mb seq raised files = (unchanged (some seq) unreachable, files)
follow server max_diff_mb seq no_state files = (unchanged (some seq) unreachable, files)
follow server max_diff_mb seq (at latest) files =
    if leb latest seq
    then (unchanged (some seq) already_current, files)
    else take_diffs seq (server.apply_diffs files.master (suc seq) (max_diff_mb * kb_per_mb)) files

unfoldable pub from_header : Server → ℕ → Option ℕ → Files → MasterUpdate × Files
unfolding follow
from_header server max_diff_mb none files = (unchanged none no_header, files)
from_header server max_diff_mb (some seq) files = follow server max_diff_mb seq server.probe files

unfoldable pub update_master : Server → ℕ → Files → MasterUpdate × Files
unfolding from_header
update_master server max_diff_mb files =
    let h = files.master.header in
    if is_empty h.url
    then (unchanged h.sequence no_header, files)
    else from_header server max_diff_mb h.sequence files

-- One served extract: not there, unreadable, or with its header's sequence number.
pub data Served : Type 0 where
  missing unreadable : Served
  header_at : Option ℕ → Served

abbrev pub newer : Option ℕ → Option ℕ → Option ℕ
newer best none = best
newer none (some s) = some s
newer (some b) (some s) = some (max b s)

-- One round of the loop: an extract that says nothing changes nothing.
unfoldable pub see : Option ℕ → Served → Option ℕ
see best missing = best
see best unreadable = best
see best (header_at seq) = newer best seq

unfoldable pub published_from : (String → Served) → Option ℕ → List String → Option ℕ
unfolding see
published_from served best [] = best
published_from served best (r ∷ rs) = published_from served (see best (served r)) rs

unfoldable pub published_sequence : (String → Served) → List String → Option ℕ
unfolding published_from
published_sequence served regions = published_from served none regions

-- `Nothing newer is served`: the test in front of the re-extraction.
unfoldable pub may_extract : Option ℕ → Option ℕ → Bool
may_extract new none = true
may_extract none (some published) = false
may_extract (some n) (some published) = if ltb n published then false else true

-- What the split does to the served tree, whether it returns or raises.
abbrev pub Bootstrap : Type 0
Bootstrap = Master → (String → Served) → Result (Unit {0}) × (String → Served)

unfoldable pub extract_from :
    Bootstrap
    → MasterUpdate
    → Files
    → (String → Served)
    → Result MasterUpdate × Files × (String → Served)
extract_from bootstrap upd files served =
    let (result, tree) = bootstrap files.master served in
    elim result [ err e ↦ (err e, files, tree) | ok _ ↦ (ok upd, files, tree) ]

unfoldable pub maintain :
    (server : Server) (max_diff_mb : ℕ) (bootstrap : Bootstrap) (regions : List String)
    → Files
    → (String → Served)
    → Result MasterUpdate × Files × (String → Served)
unfolding published_sequence may_extract extract_from
maintain server max_diff_mb bootstrap regions files served =
    let (upd, files') = update_master server max_diff_mb files in
    if may_extract upd.new_sequence (published_sequence served regions)
    then extract_from bootstrap upd files' served
    else (err bootstrap_error, files', served)
