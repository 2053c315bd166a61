-- ===== src/Perception/Bearing.antt =====
-- src/ros_mcp/perception/detection_geometry.py: the bearing of a box in an image, and the distance that
-- a scan shows at about that bearing. The two loops of `_angular_delta` are those of `normalize_angle`
-- and run on the same fuel, `turns`.
use ros2_mcp_server.Base.{ℕ, List, [], ◌∷◌, map, Option, none, some, if◌then◌else◌}
use ros2_mcp_server.Number.{Number, nat, abs}
use ros2_mcp_server.Geometry.Angle.{normalize_angle}
use ros2_mcp_server.Contracts.Results.{
  RangeReading, DistanceSource, unavailable, laser_scan_correlation,
}
use ros2_mcp_server.Perception.LaserScan.{LaserScanAnalysis}

-- The variables of the loop over the candidates.
pub record Match (R : Type 0) : Type 0 where
  pub best : Option R
  pub best_delta : R

module _ {R : Type 0} where
  abbrev pub candidates : LaserScanAnalysis R → List (Option (RangeReading R))
  candidates analysis =
      analysis.nearest ∷ analysis.farthest ∷ map (λ (_, reading). reading) analysis.sectors

  -- distance_m and distance_source.
  abbrev pub answer : Option R → Option R × DistanceSource
  answer none = (none, unavailable)
  answer (some d) = (some d, laser_scan_correlation)

  abbrev pub answer_of : Option (Match R) → Option (Option R × DistanceSource)
  answer_of none = none
  answer_of (some found) = some (answer found.best)

module _ {R : Type 0} ⦃n : Number R⦄ where
  open n use {le, minus, times, over}

  unfoldable pub estimate_bearing_rad : R → R → R → R
  estimate_bearing_rad bbox_center_x_px image_width_px horizontal_fov_rad =
      if le image_width_px (nat 0)
      then nat 0
      else times (minus (over bbox_center_x_px image_width_px) (n.ratio 1 2)) horizontal_fov_rad

  -- `none` where a loop outran its fuel.
  abbrev pub angular_delta : ℕ → R → R → Option R
  angular_delta turns a b = normalize_angle turns (minus a b)

  abbrev pub closer : RangeReading R → R → Match R → Match R
  closer reading delta found =
      if le delta found.best_delta
      then record { best = some reading.range_m; best_delta = delta }
      else found

  -- The body of the loop.
  unfoldable pub weigh : ℕ → R → Option (RangeReading R) → Match R → Option (Match R)
  weigh turns bearing_rad none found = some found
  weigh turns bearing_rad (some reading) found =
      elim (angular_delta turns reading.angle_rad bearing_rad) [
        | none ↦ none
        | some diff ↦ some (closer reading (abs diff) found)
      ]

  unfoldable pub weigh_all : ℕ → R → List (Option (RangeReading R)) → Match R → Option (Match R)
  weigh_all turns bearing_rad [] found = some found
  weigh_all turns bearing_rad (c ∷ cs) found = elim (weigh turns bearing_rad c found) [
    | none ↦ none
    | some found' ↦ weigh_all turns bearing_rad cs found'
  ]

  unfoldable pub correlate_distance :
      ℕ → LaserScanAnalysis R → R → R → Option (Option R × DistanceSource)
  correlate_distance turns analysis bearing_rad tolerance_rad = answer_of (
      weigh_all turns bearing_rad (candidates analysis)
        (record { best = none; best_delta = tolerance_rad }))
