-- ===== src/Replication/Disk/Read.antt =====
-- What the program reads from one region's files.
use mathlib.Core.List.{map}
use fwh_osm.Prelude.{
  ℕ, zero, suc, ◌-◌, Bool, false, ◌||◌, not, Option, none, some, List, [], ◌∷◌, ◌==◌, keep, min,
  if◌then◌else◌,
}
use fwh_osm.Prelude.Text.{Text}
use fwh_osm.Replication.Sequence.{path_sequence}
use fwh_osm.Replication.State.{StateInfo, parse_state}
use fwh_osm.Replication.Disk.Files.{Region}

abbrev pub read_state : Option Text → StateInfo
read_state none = (none, [])
read_state (some text) = parse_state text

-- (sequence, timestamp) of the published head, and of the extract's data
unfoldable pub region_state : Region → StateInfo
region_state d = read_state d.state

unfoldable pub extract_state : Region → StateInfo
extract_state d = read_state d.extract

abbrev pub among : ℕ → List ℕ → Bool
among n [] = false
among n (x ∷ xs) = x == n || among n xs

abbrev pub least : ℕ → List ℕ → ℕ
least m [] = m
least m (x ∷ xs) = least (min m x) xs

-- `range(from, from + count)`
abbrev pub count_up : ℕ → ℕ → List ℕ
count_up start zero = []
count_up start (suc k) = start ∷ count_up (suc start) k

-- the numbers that the directory's names stand for
unfoldable pub published_sequences : Region → List ℕ
published_sequences d = map (λ (f : Text × ℕ). path_sequence f.0) d.diffs

holes : List ℕ → ℕ → List ℕ
holes [] head = []
holes (x ∷ xs) head =
    let first = least x xs in keep (λ s. not (among s (x ∷ xs))) (count_up first (suc head - first))

unfoldable pub missing_diffs : Region → List ℕ
unfolding holes region_state published_sequences
missing_diffs d = elim (region_state d).0 [
  | none ↦ []
  | some head ↦ if d.is_dir then holes (published_sequences d) head else []
]
