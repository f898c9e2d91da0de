-- ===== src/Population/Stats/Bounds.antt =====
-- The statistics: what is counted, and that the average lies between the least and the greatest.
use fwh_osm.Prelude.{ℕ, ◌/◌, ◌≤◌, List, ◌≡◌, length, All, Among}
use fwh_osm.Population.Stats.{PopulationStats, sum}

-- The statistics of the numbers that were counted.
pub record IsStats (found : List ℕ) (r : PopulationStats) : Type 0 where
  pub total_places : r.total_places ≡ length found
  pub total_population : r.total_population ≡ sum found
  pub average : r.avg_population ≡ sum found / length found
  pub least : Among r.min_population found
  pub greatest : Among r.max_population found
  pub all_above : All (λ (n : ℕ). r.min_population ≤ n) found
  pub all_below : All (λ (n : ℕ). n ≤ r.max_population) found
  pub average_above : r.min_population ≤ r.avg_population
  pub average_below : r.avg_population ≤ r.max_population

-- All statistics are zero.
pub record IsZero (r : PopulationStats) : Type 0 where
  pub total_places : r.total_places ≡ 0
  pub total_population : r.total_population ≡ 0
  pub min_population : r.min_population ≡ 0
  pub max_population : r.max_population ≡ 0
  pub avg_population : r.avg_population ≡ 0
