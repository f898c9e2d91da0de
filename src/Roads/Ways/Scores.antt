-- ===== src/Roads/Ways/Scores.antt =====
-- The scores of roads stay within their range, and each modifier moves them one way.
use fwh_osm.Prelude.{◌≤◌, ◌≡◌, String, Bool, false, arith}
use fwh_osm.Prelude.Table.{find_or}
use fwh_osm.Roads.Ways.{fc_scores, ferry_fc, compute_fc_score}

-- Every score lies between zero and one hundred. A paved road without a restriction scores at least
-- as much as the same road unpaved, restricted or both; a bridge, a tunnel or a reference number
-- never lowers the score; and a ferry that is neither referenced, a bridge nor a tunnel scores zero.
pub compute_fc_score_bounds :
    (fc ref : String) (bridge tunnel unpaved restricted : Bool)
    → (compute_fc_score fc ref bridge tunnel unpaved restricted ≤ 100)
      × (compute_fc_score fc ref bridge tunnel unpaved restricted
          ≤ compute_fc_score fc ref bridge tunnel false false)
      × (compute_fc_score fc ref false false unpaved restricted
          ≤ compute_fc_score fc ref bridge tunnel unpaved restricted)
      × (compute_fc_score fc "" bridge tunnel unpaved restricted
          ≤ compute_fc_score fc ref bridge tunnel unpaved restricted)
      × (compute_fc_score ferry_fc "" false false unpaved restricted ≡ 0)
unfolding compute_fc_score
compute_fc_score_bounds fc ref bridge tunnel unpaved restricted =
    let base = find_or 0 fc fc_scores in
    (ground arith, ground arith, ground arith, ground arith, ground arith)
