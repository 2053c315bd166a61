-- ===== src/Scenarios/Reads.antt =====
-- A read of the laser scan whose topic has a message, and a pose that falls back on odometry.
use ros2_mcp_server.Base.{ℕ, String, ◌≡◌, refl, Bool, true, false, [], ◌∷◌, none, some}
use ros2_mcp_server.Number.Fixed.{ℤ, pos, fixed, fixed-IsOrdered}
use ros2_mcp_server.Contracts.Core.{Confidence}
use ros2_mcp_server.Reading.{Sources, resolve_current_pose}
use ros2_mcp_server.Reading.Handlers.{handle_get_laser_scan}
use ros2_mcp_server.Reading.Answered.{ScanAnswer, handle_get_laser_scan-ScanAnswer}
use ros2_mcp_server.Perception.LaserScan.{LaserScan}
use ros2_mcp_server.Scenarios.Data.{m, stop_command}
use ros2_mcp_server.Scenarios.Scans.{scan}

abbrev pub sources : Sources ℤ (Unit {0}) (LaserScan ℤ)
sources = record {
  robot_id = "r1";
  registry = record {
    entries =
        record {
          capability_id = "range_sensing";
          confidence = Confidence.confirmed;
          backend_id = none;
          resolved_topics = ("scan", "/scan") ∷ [];
          limits = [];
        }
        ∷ record {
          capability_id = "differential_drive_motion";
          confidence = Confidence.confirmed;
          backend_id = none;
          resolved_topics = ("odom", "/scan") ∷ [];
          limits = [];
        }
        ∷ [];
    version = 1;
    callbacks = [];
  };
  pool = record {
    claimed_topics = "/scan" ∷ [];
    cache =
        ("/scan", record { value = tt; raw = scan; stamp = m 0; received_at = m 0; age_s = m 0 })
        ∷ [];
    pending_tasks = [];
    subscribed = "/scan" ∷ [];
  };
  clock = m 1;
  now = m 1;
  sensor_stale_s = pos 500;
  transform = none;
  pose_of =
      λ _. record { x = m 1; y = m 2; orientation = record { x = m 0; y = m 0; z = m 0; w = m 1 } };
  velocity_of = λ _. record { linear_x = m 0; angular_z = m 0 };
  scan_of = λ s. s;
}

-- Without localization, a pose that is asked for in the frame "map" is the odometry's, under the name
-- of that frame.
odometry_as_map :
    resolve_current_pose sources (some "map")
    ≡ some (record { x = m 1; y = m 2; yaw = m 0; frame = "map"; stamp = m 0 })
unfolding resolve_current_pose ros2_mcp_server.Base.get
    ros2_mcp_server.Subscriptions.Pool.get_latest ros2_mcp_server.Geometry.quaternion_to_yaw
odometry_as_map = refl

handle_get_laser_scan-ScanAnswer_example :
    ScanAnswer sources (handle_get_laser_scan sources (m 0) (m 1) (stop_command "c1"))
    × ((handle_get_laser_scan sources (m 0) (m 1) (stop_command "c1")).command_id ≡ "c1")
handle_get_laser_scan-ScanAnswer_example =
    handle_get_laser_scan-ScanAnswer fixed-IsOrdered sources (m 0) (m 1) (stop_command "c1")
