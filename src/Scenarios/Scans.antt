-- ===== src/Scenarios/Scans.antt =====
-- A scan of four beams, of which one is too short and one beyond the range.
use ros2_mcp_server.Base.{◌≡◌, refl, [], ◌∷◌, none, some}
use ros2_mcp_server.Number.Fixed.{ℤ, pos, fixed, fixed-IsOrdered}
use ros2_mcp_server.Perception.LaserScan.{LaserScan, analyze_laser_scan}
use ros2_mcp_server.Perception.Nearest.{AllWithin, analyze-AllWithin}
use ros2_mcp_server.Scenarios.Data.{m}

abbrev pub scan : LaserScan ℤ
scan = record {
  ranges = m 3 ∷ pos 50 ∷ m 2 ∷ m 40 ∷ [];
  angle_min = m 0;
  angle_increment = pos 10;
  range_min = pos 100;
  range_max = m 30;
  stamp = none;
  frame_id = some "base_scan";
}

nearest_beam :
    (analyze_laser_scan scan).nearest
    ≡ some (record { range_m = m 2; angle_rad = pos 20; sector = "front" })
unfolding analyze_laser_scan ros2_mcp_server.Perception.LaserScan.scan_beams
    ros2_mcp_server.Perception.LaserScan.scan_beam ros2_mcp_server.Perception.LaserScan.enter
    ros2_mcp_server.Perception.LaserScan.sector_for_angle
nearest_beam = refl

one_invalid : (analyze_laser_scan scan).invalid_beam_count ≡ 1
unfolding analyze_laser_scan ros2_mcp_server.Perception.LaserScan.scan_beams
    ros2_mcp_server.Perception.LaserScan.scan_beam ros2_mcp_server.Perception.LaserScan.enter
one_invalid = refl

analyze-AllWithin_example :
    AllWithin scan 0 scan.ranges
      (analyze_laser_scan scan).nearest
      (analyze_laser_scan scan).farthest
      (analyze_laser_scan scan).sectors
analyze-AllWithin_example = analyze-AllWithin fixed-IsOrdered scan
