-- ===== src/Replication/Cut.antt =====
-- `cut_diff_multi` of replication_publish.py: one planet diff cut to many regions, in groups that
-- fit in memory, with the group size halved when a pass is killed. The osmium process is a
-- parameter: for each pass, what it ended with and the outputs that it wrote.
pub mod Passes
use fwh_osm.Prelude.{
  ℕ, zero, suc, ◌+◌, ◌*◌, ◌/◌, ◌-◌, String, Bool, true, false, ◌&&◌, ◌||◌, Option, none, some, List,
  [], ◌∷◌, ◌++◌, ◌==◌, ltb, if◌then◌else◌, length, take, drop, keep, has_name, max, min, is_empty,
}
use fwh_osm.Prelude.Int.{ℤ, pos, negsuc}
use fwh_osm.Prelude.Result.{Result, ok, err, replication_error}

-- `subprocess.run(check=True)`: a return code other than 0 raises CalledProcessError.
pub data Outcome : Type 0 where
  done : Outcome
  failed : ℤ → Outcome
  not_found : Outcome

-- The pass's number and its group ↦ how it ended, and the outputs in the staging directory.
abbrev pub Osmium : Type 0
Osmium = ℕ → List String → Outcome × List String

-- `exc.returncode in (-9, 137)`
abbrev pub is_killed : ℤ → Bool
is_killed (pos n) = n == 137
is_killed (negsuc n) = n == 8

-- 2.6 GB for each region, and seven tenths of the free memory, in whole bytes.
abbrev pub region_cut_bytes : ℕ
region_cut_bytes = 2600000000

unfoldable pub group_size : Option ℕ → ℕ → ℕ
group_size none n = n
group_size (some avail) n = max 1 (min n (avail * 7 / (10 * region_cut_bytes)))

-- `{r: staging / f"{r}.osc.gz" for r in usable if (…).exists()}`
unfoldable pub produced :
    List String → Option (Result (List String)) → Option (Result (List String))
produced usable none = none
produced usable (some (err e)) = some (err e)
produced usable (some (ok out)) = some (ok (keep (λ r. has_name r out) usable))

-- Enough for every run of the loop: see `Passes`.
abbrev pub cut_fuel : ℕ → List String → ℕ
cut_fuel size pending = size + length pending + 1

module _ (osmium : Osmium) where
  -- The `while pending` loop: the pass's number, the group size, what is left, and the names of the
  -- outputs in the staging directory. `none` is the end of the fuel.
  unfoldable pub cut_passes : ℕ → ℕ → ℕ → List String → List String → Option (Result (List String))
  cut_passes zero pass size pending staged = none
  cut_passes (suc fuel) pass size [] staged = some (ok staged)
  cut_passes (suc fuel) pass size (r ∷ rs) staged =
      let pending = r ∷ rs in
      let (outcome, wrote) = osmium pass (take size pending) in
      elim outcome [
        | done ↦ cut_passes fuel (suc pass) size (drop size pending) (wrote ++ staged)
        | failed code ↦ elim (is_killed code && ltb 1 size) [
          | true ↦ cut_passes fuel (suc pass) (max 1 (size / 2)) pending (wrote ++ staged)
          | false ↦ some (err replication_error)
        ]
        | not_found ↦ some (err replication_error)
      ]

  unfoldable pub cut_usable : Option ℕ → List String → List String → Option (Result (List String))
  unfolding cut_passes produced
  cut_usable avail [] staged = some (ok [])
  cut_usable avail (r ∷ rs) staged =
      let usable = r ∷ rs in
      let size = group_size avail (length usable) in
      produced usable (cut_passes (cut_fuel size usable) 0 size usable staged)

  -- The regions whose output is there afterwards. `polys` says which polygons exist, and `staged`
  -- what the staging directory held before.
  unfoldable pub cut_diff_multi :
      (polys : String → Bool) (avail : Option ℕ) (regions staged : List String)
      → Option (Result (List String))
  unfolding cut_usable
  cut_diff_multi polys avail regions staged = cut_usable avail (keep polys regions) staged
