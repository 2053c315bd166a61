-- ===== src/Scenarios/Sights.antt =====
-- Two objects in an image, of which one is asked for.
use ros2_mcp_server.Base.{
  ℕ, ◌≡◌, refl, false, String, List, [], ◌∷◌, Option, none, some, Except, ok, map,
}
use ros2_mcp_server.Number.Fixed.{ℤ, pos, fixed, fixed-IsRounded}
use ros2_mcp_server.Contracts.Core.{Confidence}
use ros2_mcp_server.Contracts.Results.{DistanceSource}
use ros2_mcp_server.Perception.LaserScan.{LaserScan}
use ros2_mcp_server.Reading.{Sources}
use ros2_mcp_server.Reading.Detection.{
  Camera, DetectedObject2D, current_laser_scan_analysis, detect_each, detect_objects, selected,
}
use ros2_mcp_server.Reading.Sighted.{DetectAnswer, detect_objects-DetectAnswer}
use ros2_mcp_server.Scenarios.Data.{m}
use ros2_mcp_server.Scenarios.Reads.{sources}
use ros2_mcp_server.Scenarios.Scans.{scan}

abbrev with_camera : Sources ℤ (Unit {0}) (LaserScan ℤ)
with_camera = record sources {
  registry = record sources.registry {
    entries =
        record {
          capability_id = "visual_observation";
          confidence = Confidence.confirmed;
          backend_id = none;
          resolved_topics = ("image", "/image") ∷ [];
          limits = [];
        }
        ∷ sources.registry.entries;
  };
  pool = record sources.pool {
    cache =
        ("/image", record { value = tt; raw = scan; stamp = m 0; received_at = m 0; age_s = m 0 })
        ∷ sources.pool.cache;
  };
}

abbrev sightings : List (DetectedObject2D ℤ)
sightings =
    record { label = "chair"; confidence = m 1; bbox_px = (300, 0, 360, 10); text_content = none }
    ∷ record { label = "door"; confidence = m 1; bbox_px = (0, 0, 20, 10); text_content = none }
    ∷ []

abbrev camera : Camera ℤ (LaserScan ℤ)
camera = record {
  width_px = λ _. ok (m 640);
  detect = λ _. ok sightings;
  transforms =
      λ _. ok (record { ok = false; x = none; y = none; yaw = none; error = some "timeout" });
  horizontal_fov_rad = m 1;
  bearing_tolerance_rad = pos 100;
  base_frame = "base_link";
  plugin_id = "stub_detector";
}

chair_ahead :
    detect_each 2 camera
      (m 640)
      (current_laser_scan_analysis with_camera)
      false
      0
      (selected (some ("chair" ∷ [])) sightings)
    ≡ some (
        ok (
          record {
            label = "chair";
            confidence = m 1;
            distance_m = some (m 2);
            distance_source = DistanceSource.laser_scan_correlation;
            position = some (record { x = m 2; y = m 0; frame = "base_link" });
            position_error = none;
            bbox_px = (300, 0, 360, 10);
          }
          ∷ []))
unfolding detect_each ros2_mcp_server.Reading.Detection.detect_object ros2_mcp_server.Base.get
    ros2_mcp_server.Subscriptions.Pool.get_latest
    ros2_mcp_server.Perception.Bearing.correlate_distance
    ros2_mcp_server.Perception.Bearing.weigh_all ros2_mcp_server.Perception.Bearing.weigh
    ros2_mcp_server.Perception.LaserScan.analyze_laser_scan
    ros2_mcp_server.Perception.LaserScan.scan_beams ros2_mcp_server.Perception.LaserScan.scan_beam
    ros2_mcp_server.Perception.LaserScan.enter ros2_mcp_server.Geometry.Angle.normalize_angle
    ros2_mcp_server.Geometry.Angle.subtract_turns
    ros2_mcp_server.Perception.Bearing.estimate_bearing_rad ros2_mcp_server.Geometry.Angle.add_turns
    ros2_mcp_server.Base.put ros2_mcp_server.Perception.LaserScan.sector_for_angle
chair_ahead = refl

detect_objects-DetectAnswer_example :
    DetectAnswer 2 with_camera with_camera camera
      (some ("chair" ∷ []))
      (detect_objects 2 with_camera with_camera camera (some ("chair" ∷ [])))
detect_objects-DetectAnswer_example =
    detect_objects-DetectAnswer 2 with_camera with_camera camera (some ("chair" ∷ []))
      fixed-IsRounded.le_trans
