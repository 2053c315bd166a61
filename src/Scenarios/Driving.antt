-- ===== src/Scenarios/Driving.antt =====
-- A move of one metre forward that arrives at the fourth instant, and one that is cancelled there.
use ros2_mcp_server.Base.{
  ℕ, ◌≡◌, ◌≢◌, refl, Bool, true, false, [], ◌∷◌, none, some, All, ltb, inl, ◌*◌,
}
use ros2_mcp_server.Number.Fixed.{ℤ, pos, fixed, fixed-IsRounded}
use ros2_mcp_server.Contracts.Core.{SafetyConstraints, SemanticCommand}
use ros2_mcp_server.Contracts.Results.{ToolResult}
use ros2_mcp_server.Subscriptions.Pool.{CachedMessage, get_latest, is_fresh}
use ros2_mcp_server.Perception.LaserScan.{
  LaserScan, analyze_laser_scan, scan_beams, scan_beam, enter, sector_for_angle,
}
use ros2_mcp_server.Motion.{
  Odometry, Plugin, Instant, current_pose, obstacle_ahead, latest_scan, clamp, clamp_delta,
  pose_from_odometry,
}
use ros2_mcp_server.Motion.Plan.{spinning, ended, reached, fail, aim_at}
use ros2_mcp_server.Motion.Control.{begin, tick, drive_on, angular_command, linear_command}
use ros2_mcp_server.Geometry.{euclidean_distance}
use ros2_mcp_server.Geometry.Angle.{add_turns, subtract_turns, normalize_angle, angular_difference}
use ros2_mcp_server.Motion.Run.{move}
use ros2_mcp_server.Motion.Halted.{Stands, move-Stands}
use ros2_mcp_server.Motion.Guarded.{IsGuarded, move-AllGuarded}
use ros2_mcp_server.Motion.Limited.{IsLimited, move-AllLimited}
use ros2_mcp_server.Motion.Ready.{IsReady}
use ros2_mcp_server.Motion.Ends.{HasEnded, move-HasEnded}
use ros2_mcp_server.Motion.Exits.{Account, move-Account}
use ros2_mcp_server.Scenarios.Data.{m, move_command, forward}

-- A message serves as odometry and as a scan.
abbrev Raw : Type 0
Raw = Odometry ℤ × LaserScan ℤ

abbrev limits : SafetyConstraints ℤ
limits = record {
  max_linear_mps = pos 500;
  max_angular_rps = m 1;
  max_linear_acceleration_mps2 = m 1;
  max_angular_acceleration_rps2 = m 1;
  max_move_distance_m = m 5;
  max_navigation_distance_m = m 20;
  obstacle_stop_distance_m = pos 300;
}

abbrev drive_command : SemanticCommand ℤ
drive_command = record (move_command "c1" (m 1)) { safety_constraints = some limits }

abbrev plugin : Plugin ℤ Raw
plugin = record {
  robot_id = "r1";
  odom_topic = "/odom";
  laser_scan_topic = some "/scan";
  tick_period_s = pos 50;
  position_tolerance_m = pos 50;
  angle_tolerance_rad = pos 35;
  kp_linear = m 1;
  kp_angular = pos 1500;
  odometry = λ r. r.0;
  scan = λ r. r.1;
}

abbrev raw : ℕ → Raw
raw x = (
  record { x = pos x; y = m 0; orientation = record { x = m 0; y = m 0; z = m 0; w = m 1 } },
  record {
    ranges = m 2 ∷ [];
    angle_min = m 0;
    angle_increment = pos 10;
    range_min = pos 100;
    range_max = m 30;
    stamp = none;
    frame_id = none;
  },
)

abbrev cached : ℕ → CachedMessage ℤ (Unit {0}) Raw
cached x = record { value = tt; raw = raw x; stamp = m 0; received_at = m 0; age_s = m 0 }

abbrev instant : Bool → ℕ → ℕ → Instant ℤ (Unit {0}) Raw
instant is_cancelled t x = record {
  is_cancelled = is_cancelled;
  deadline_exceeded = false;
  monotonic = pos t;
  ended = pos t;
  clock = m 0;
  odom_stale_s = pos 500;
  pool = record {
    claimed_topics = "/odom" ∷ "/scan" ∷ [];
    cache = ("/odom", cached x) ∷ ("/scan", cached x) ∷ [];
    pending_tasks = [];
    subscribed = "/odom" ∷ "/scan" ∷ [];
  };
}

-- Each instant 320 mm further on.
abbrev arriving_at : ℕ → Instant ℤ (Unit {0}) Raw
arriving_at k = instant false (k * 50) (k * 320)

abbrev cancelled_at : ℕ → Instant ℤ (Unit {0}) Raw
cancelled_at k = instant (ltb 1 k) (k * 50) (k * 320)

abbrev arrived : ToolResult ℤ
arrived =
    reached drive_command (pos 150) (pos 960)
      (record { x = pos 960; y = m 0; yaw = m 0; frame = "odom"; stamp = m 0 })

arrives : (move 3 plugin arriving_at drive_command 3).next ≡ ended arrived
unfolding move begin current_pose get_latest ros2_mcp_server.Base.get is_fresh aim_at tick
    obstacle_ahead latest_scan analyze_laser_scan scan_beams scan_beam enter
    ros2_mcp_server.Base.put sector_for_angle drive_on euclidean_distance add_turns
    angular_difference normalize_angle subtract_turns angular_command linear_command fail reached
    clamp clamp_delta pose_from_odometry ros2_mcp_server.Geometry.quaternion_to_yaw
arrives = refl

move-Stands_example : Stands (move 3 plugin arriving_at drive_command 3).published
move-Stands_example = move-Stands 3 plugin arriving_at drive_command 3 arrives

move-AllGuarded_example :
    All
      (IsGuarded plugin arriving_at drive_command)
      (move 3 plugin arriving_at drive_command 3).published
move-AllGuarded_example = move-AllGuarded fixed-IsRounded 3 plugin arriving_at drive_command 3

move-AllLimited_example :
    All (λ s. IsLimited limits s.twist) (move 3 plugin arriving_at drive_command 3).published
move-AllLimited_example =
    move-AllLimited fixed-IsRounded 3 plugin arriving_at drive_command limits refl
      (record { linear = refl; angular = refl }) 3

move-Account_example :
    (j : ℕ) × Account 3 plugin (arriving_at 0) (arriving_at j) drive_command arrived
move-Account_example = move-Account fixed-IsRounded 3 plugin arriving_at drive_command 3 arrives

drive_command-IsReady : IsReady drive_command
drive_command-IsReady = record {
  target = forward (m 1);
  has_target = refl;
  complete = record { known = refl; distance = λ _. refl; angle = λ h. absurd (cc) };
  constraints = limits;
  has_constraints = refl;
}

not_spinning : (move 3 plugin cancelled_at drive_command 1).next ≢ spinning
unfolding move begin current_pose get_latest ros2_mcp_server.Base.get is_fresh aim_at tick
    obstacle_ahead latest_scan analyze_laser_scan scan_beams scan_beam enter
    ros2_mcp_server.Base.put sector_for_angle drive_on euclidean_distance add_turns
    angular_difference normalize_angle subtract_turns angular_command linear_command fail reached
    clamp clamp_delta pose_from_odometry ros2_mcp_server.Geometry.quaternion_to_yaw
not_spinning e = cc

move-HasEnded_example : HasEnded (move 3 plugin cancelled_at drive_command 2).next
move-HasEnded_example =
    move-HasEnded 3 plugin cancelled_at drive_command 1 drive_command-IsReady not_spinning
      (inl refl)
