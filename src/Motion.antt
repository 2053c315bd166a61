-- ===== src/Motion.antt =====
-- src/ros_mcp/adapters/motion/cmd_vel_plugin.py: `CmdVelMotionPlugin`, its readers and clamps. The
-- control loop is in Control. The messages of the ROS packages are a type M, whose attributes that
-- the code reads are fields of the plugin; the topics of a plugin carry messages that have them.
pub mod Plan
pub mod Control
pub mod Run
pub mod Steps
pub mod Planned
pub mod Invariant
pub mod Aims
pub mod Halted
pub mod Ready
pub mod Ends
pub mod Exits
pub mod Guarded
pub mod Bounded
pub mod Limited
use ros2_mcp_server.Base.{String, Bool, true, false, Option, none, some, get, if◌then◌else◌}
use ros2_mcp_server.Number.{Number, nat, min, max}
use ros2_mcp_server.Geometry.{Quaternion, quaternion_to_yaw}
use ros2_mcp_server.Contracts.Core.{Pose2D}
use ros2_mcp_server.Contracts.Results.{RangeReading}
use ros2_mcp_server.Subscriptions.Pool.{Pool, CachedMessage, get_latest, is_fresh}
use ros2_mcp_server.Perception.LaserScan.{LaserScan, analyze_laser_scan, nearest_in}

pub record Odometry (R : Type 0) : Type 0 where
  pub x : R
  pub y : R
  pub orientation : Quaternion R

pub record Twist (R : Type 0) : Type 0 where
  pub linear_x : R
  pub angular_z : R

pub record Plugin (R M : Type 0) : Type 0 where
  pub robot_id : String
  pub odom_topic : String
  pub laser_scan_topic : Option String
  pub tick_period_s : R
  pub position_tolerance_m : R
  pub angle_tolerance_rad : R
  pub kp_linear : R
  pub kp_angular : R
  pub odometry : M → Odometry R
  pub scan : M → LaserScan R

-- What the code reads between two awaits: the token, the clocks, the configuration and the cache.
pub record Instant (R V M : Type 0) : Type 0 where
  pub is_cancelled : Bool
  pub deadline_exceeded : Bool
  pub monotonic : R
  pub ended : R  -- time.monotonic() once the velocity zero is published
  pub clock : R  -- the time that ages the cached messages
  pub odom_stale_s : R
  pub pool : Pool R V M

module _ {R : Type 0} ⦃n : Number R⦄ where
  open n use {lt, le, plus, minus, neg}

  unfoldable pub pose_from_odometry : Odometry R → String → R → Pose2D R
  pose_from_odometry raw_odom frame stamp = record {
    x = raw_odom.x;
    y = raw_odom.y;
    yaw = quaternion_to_yaw raw_odom.orientation;
    frame = frame;
    stamp = stamp;
  }

  unfoldable pub clamp : R → R → R → R
  clamp value lo hi = max lo (min hi value)

  unfoldable pub clamp_delta : R → R → R → R
  clamp_delta new prev max_delta =
      if le max_delta (nat 0)
      then prev
      else let delta = minus new prev in
        if lt max_delta delta
        then plus prev max_delta
        else if lt delta (neg max_delta)
        then minus prev max_delta
        else new

  abbrev pub within : R → Option (RangeReading R) → Option R
  within distance none = none
  within distance (some reading) =
      if lt reading.range_m distance then some reading.range_m else none

module _ {R V M : Type 0} ⦃n : Number R⦄ where
  -- The pose with whether it is fresh; no pose where odometry was never received.
  unfoldable pub current_pose : Plugin R M → Instant R V M → Option (Pose2D R) × Bool
  current_pose p i = elim (get_latest p.odom_topic i.clock i.pool) [
    | none ↦ (none, false)
    | some cached ↦ (
      some (pose_from_odometry (p.odometry cached.raw) "odom" cached.stamp),
      is_fresh p.odom_topic i.odom_stale_s i.clock i.pool,
    )
  ]

  -- The scan that the obstacle check reads, whatever its age.
  unfoldable pub latest_scan : Plugin R M → Instant R V M → Option (LaserScan R)
  latest_scan p i = elim p.laser_scan_topic [
    | none ↦ none
    | some topic ↦ elim (get_latest topic i.clock i.pool) [
      | none ↦ none
      | some cached ↦ some (p.scan cached.raw)
    ]
  ]

  unfoldable pub obstacle_ahead : Plugin R M → Instant R V M → String → R → Option R
  obstacle_ahead p i sector obstacle_stop_distance_m = elim (latest_scan p i) [
    | none ↦ none
    | some scan ↦
        within obstacle_stop_distance_m (nearest_in sector (analyze_laser_scan scan).sectors)
  ]
