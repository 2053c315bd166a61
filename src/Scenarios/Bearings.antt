-- ===== src/Scenarios/Bearings.antt =====
-- The distance to a box near the middle of an image.
use ros2_mcp_server.Base.{◌≡◌, refl, some}
use ros2_mcp_server.Number.Fixed.{pos, negsuc, fixed, fixed-IsRounded}
use ros2_mcp_server.Contracts.Results.{laser_scan_correlation}
use ros2_mcp_server.Perception.LaserScan.{analyze_laser_scan}
use ros2_mcp_server.Perception.Bearing.{candidates, estimate_bearing_rad, correlate_distance}
use ros2_mcp_server.Perception.Correlated.{Correlation, correlate_distance-Correlation}
use ros2_mcp_server.Scenarios.Data.{m}
use ros2_mcp_server.Scenarios.Scans.{scan}

-- A box left of the middle has a negative bearing.
on_the_left : estimate_bearing_rad (m 200) (m 640) (m 1) ≡ negsuc 187
unfolding estimate_bearing_rad
on_the_left = refl

two_metres :
    correlate_distance 2 (analyze_laser_scan scan) (pos 18) (pos 100)
    ≡ some (some (m 2), laser_scan_correlation)
unfolding correlate_distance analyze_laser_scan ros2_mcp_server.Perception.Bearing.weigh_all
    ros2_mcp_server.Perception.Bearing.weigh ros2_mcp_server.Perception.LaserScan.scan_beams
    ros2_mcp_server.Perception.LaserScan.scan_beam ros2_mcp_server.Perception.LaserScan.enter
    ros2_mcp_server.Geometry.Angle.normalize_angle ros2_mcp_server.Geometry.Angle.subtract_turns
    ros2_mcp_server.Geometry.Angle.add_turns ros2_mcp_server.Base.put
    ros2_mcp_server.Perception.LaserScan.sector_for_angle ros2_mcp_server.Base.get
two_metres = refl

correlate_distance-Correlation_example :
    Correlation 2
      (pos 18)
      (pos 100)
      (candidates (analyze_laser_scan scan))
      (correlate_distance 2 (analyze_laser_scan scan) (pos 18) (pos 100))
correlate_distance-Correlation_example =
    correlate_distance-Correlation 2 (pos 18) fixed-IsRounded.le_trans (analyze_laser_scan scan)
      (pos 100)
