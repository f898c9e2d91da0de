-- ===== src/Replication/Disk/Files.antt =====
-- The files of one region and of the tree, and the writes on them.
use fwh_osm.Prelude.{
  ℕ, String, Bool, true, false, ◌||◌, Option, none, some, List, [], ◌∷◌, if◌then◌else◌, str_eq,
}
use fwh_osm.Prelude.Text.{Text, same_text}
use fwh_osm.Replication.Sequence.{diff_name}

-- The three replication headers of a PBF; a text that is not there is empty.
pub record Header : Type 0 where
  pub sequence : Option ℕ
  pub timestamp : Text
  pub base_url : Text

-- An extract: its bytes stand for themselves by a number.
pub record Pbf : Type 0 where
  pub header : Header
  pub bytes : ℕ
  pub size : ℕ

pub record Region : Type 0 where
  pub pbf : Option Pbf
  pub is_dir : Bool
  pub state : Option Text
  pub extract : Option Text
  -- `AAA/BBB/CCC` of each AAA/BBB/CCC.osc.gz, with its size.
  pub diffs : List (Text × ℕ)
  -- the same of each AAA/BBB/CCC.state.txt, with its text
  pub diff_states : List (Text × Text)

abbrev pub no_region : Region
no_region = record {
  pbf = none;
  is_dir = false;
  state = none;
  extract = none;
  diffs = [];
  diff_states = [];
}

abbrev pub Disk : Type 0
Disk = String → Region

-- One region's files are changed.
abbrev pub change_region : String → (Region → Region) → Disk → Disk
change_region r f disk q = if str_eq r q then f (disk q) else disk q

unfoldable pub has_diff : List (Text × ℕ) → Text → Bool
has_diff [] p = false
has_diff ((name, size) ∷ rest) p = same_text name p || has_diff rest p

-- `shutil.move(src, out)`, with the directories above `out`
unfoldable pub move_diff : ℕ → ℕ → Region → Region
move_diff seq size d = record d { is_dir = true; diffs = (diff_name seq, size) ∷ d.diffs }

-- `state.txt`, `extract.state.txt` and `AAA/BBB/CCC.state.txt` get a text; the empty one is what the
-- opening of the file leaves.
unfoldable pub write_state : Text → Region → Region
write_state text d = record d { state = some text }

unfoldable pub write_extract_state : Text → Region → Region
write_extract_state text d = record d { extract = some text }

unfoldable pub write_diff_state : ℕ → Text → Region → Region
write_diff_state seq text d = record d { diff_states = (diff_name seq, text) ∷ d.diff_states }

unfoldable pub write_pbf : Pbf → Region → Region
write_pbf p d = record d { pbf = some p }
