-- ===== src/Reading.antt =====
-- src/ros_mcp/robot_state.py and src/ros_mcp/mcp/{state_resolver,laser_scan_resolver,
-- capabilities_resolver,read_handlers}.py: the reads that answer from the registry of capabilities and
-- the cache of messages. A message is of a type M; what the code reads of it, and the answer of the TF
-- buffer where the adapter has one, are in Sources.
pub mod Handlers
pub mod Answered
pub mod Detection
pub mod Detected
pub mod Sighted
use ros2_mcp_server.Base.{
  ℕ, String, Bool, true, false, ◌||◌, List, [], ◌∷◌, Option, none, some, get, Dict, ◌==◌,
  if◌then◌else◌, or_else,
}
use ros2_mcp_server.Number.{Number, nat, abs}
use ros2_mcp_server.Json.{Json, Fields, text, lookup, null, bool, num, str}
use ros2_mcp_server.Geometry.{Quaternion, quaternion_to_yaw}
use ros2_mcp_server.Contracts.Core.{
  ErrorCode, plain_error, Pose2D, SemanticCommand, ResultType, laser_scan_result,
}
use ros2_mcp_server.Contracts.Results.{
  CommandSummary, RobotStateResult, LaserScanResult, CapabilitiesResult, Payload, Status,
  ToolResult,
}
use ros2_mcp_server.Contracts.Discovery.{CapabilityEntry}
use ros2_mcp_server.Execution.ErrorResults.{build_error_result}
use ros2_mcp_server.Capabilities.Registry.{Registry, find_entry}
use ros2_mcp_server.Subscriptions.Pool.{Pool, CachedMessage, get_latest}
use ros2_mcp_server.Perception.LaserScan.{LaserScan, analyze_laser_scan}
use ros2_mcp_server.Navigation.{TransformResult}

pub record PoseMessage (R : Type 0) : Type 0 where
  pub x : R
  pub y : R
  pub orientation : Quaternion R

pub record Velocity (R : Type 0) : Type 0 where
  pub linear_x : R
  pub angular_z : R

pub record Sources (R V M : Type 0) : Type 0 where
  pub robot_id : String
  pub registry : Registry R
  pub pool : Pool R V M
  pub clock : R  -- the time that ages the cached messages
  pub now : R
  pub sensor_stale_s : R
  pub transform : Option (TransformResult R)  -- none without a TF adapter and a base frame
  pub pose_of : M → PoseMessage R
  pub velocity_of : M → Velocity R
  pub scan_of : M → LaserScan R

-- `requested_frame or "odom"`
abbrev pub odometry_frame : Option String → String
odometry_frame none = "odom"
odometry_frame (some frame) = if frame == "" then "odom" else frame

abbrev wants_map : Option String → Bool
wants_map none = true
wants_map (some frame) = frame == "map"

module _ {R : Type 0} where
  abbrev live_pose : R → Option R → Option R → Option R → Option (Pose2D R)
  live_pose now (some x) (some y) (some yaw) =
      some (record { x = x; y = y; yaw = yaw; frame = "map"; stamp = now })
  live_pose now _ _ _ = none

  -- _pose_from_live_tf
  abbrev pub pose_from_live_tf : R → Option (TransformResult R) → Option (Pose2D R)
  pose_from_live_tf now none = none
  pose_from_live_tf now (some tf) = if tf.ok then live_pose now tf.x tf.y tf.yaw else none

  -- The live transform, or else the odometry.
  abbrev pub live_or : Option (Pose2D R) → Option (Pose2D R) → Option (Pose2D R)
  live_or none rest = rest
  live_or (some pose) rest = some pose

module _ {R : Type 0} ⦃n : Number R⦄ where
  abbrev pub scan_error : String → String → R → ErrorCode → String → ToolResult R
  scan_error robot_id command_id duration_sec code message =
      build_error_result laser_scan_result command_id robot_id duration_sec
        (plain_error code (text message ∷ []))

module _ {R V M : Type 0} ⦃n : Number R⦄ where
  open n use {lt, minus, to_float}

  -- The topic that a capability has resolved for a key, with its latest message.
  abbrev pub topic_of : String → String → Sources R V M → Option String
  topic_of capability_id key s = elim (find_entry capability_id s.registry.entries) [
    | none ↦ none
    | some entry ↦ get key entry.resolved_topics
  ]

  abbrev pub latest_on : Sources R V M → Option String → Option (CachedMessage R V M)
  latest_on s none = none
  latest_on s (some topic) = get_latest topic s.clock s.pool

  abbrev pub latest_of : String → String → Sources R V M → Option (CachedMessage R V M)
  latest_of capability_id key s = latest_on s (topic_of capability_id key s)

  -- pose_from_odometry and pose_from_pose_with_covariance_stamped
  abbrev pub message_pose : Sources R V M → String → CachedMessage R V M → Pose2D R
  message_pose s frame cached =
      let raw = s.pose_of cached.raw in
      record {
        x = raw.x;
        y = raw.y;
        yaw = quaternion_to_yaw raw.orientation;
        frame = frame;
        stamp = cached.stamp;
      }

  abbrev pub odometry_pose :
      Sources R V M → Option String → Option (CachedMessage R V M) → Option (Pose2D R)
  odometry_pose s requested_frame none = none
  odometry_pose s requested_frame (some cached) =
      some (message_pose s (odometry_frame requested_frame) cached)

  abbrev pub map_pose :
      Sources R V M → Option (CachedMessage R V M) → Option (Pose2D R) → Option (Pose2D R)
  map_pose s (some cached) rest = some (message_pose s "map" cached)
  map_pose s none rest = live_or (pose_from_live_tf s.now s.transform) rest

  unfoldable pub resolve_current_pose : Sources R V M → Option String → Option (Pose2D R)
  resolve_current_pose s requested_frame =
      let odometry =
        odometry_pose s requested_frame (latest_of "differential_drive_motion" "odom" s) in
      if wants_map requested_frame
      then map_pose s (latest_of "localization" "amcl_pose" s) odometry
      else odometry

  abbrev pub velocity : Sources R V M → Option (CachedMessage R V M) → Option R × Option R × Bool
  velocity s none = (none, none, false)
  velocity s (some cached) =
      let v = s.velocity_of cached.raw in
      let linear = to_float v.linear_x in
      let angular = to_float v.angular_z in
      let least = n.ratio 1 1000 in
      (some linear, some angular, lt least (abs linear) || lt least (abs angular))

  unfoldable pub resolve_robot_state :
      Sources R V M → String → String → R → Option String → Option CommandSummary → ToolResult R
  resolve_robot_state s robot_id command_id duration_sec requested_frame active_command =
      let v = velocity s (latest_of "differential_drive_motion" "odom" s) in
      record {
        status = Status.succeeded;
        command_id = command_id;
        robot_id = robot_id;
        duration_sec = duration_sec;
        error = none;
        payload = Payload.robot_state (record {
          pose = resolve_current_pose s requested_frame;
          linear_velocity_mps = v.0;
          angular_velocity_rps = v.1;
          is_moving = v.2;
          active_command = active_command;
        });
      }

  unfoldable pub resolve_capabilities : Sources R V M → String → String → R → ToolResult R
  resolve_capabilities s robot_id command_id duration_sec = record {
    status = Status.succeeded;
    command_id = command_id;
    robot_id = robot_id;
    duration_sec = duration_sec;
    error = none;
    payload =
        Payload.capabilities
          (record { capabilities = s.registry.entries; snapshot_version = s.registry.version });
  }

  abbrev pub scan_payload : Sources R V M → Bool → CachedMessage R V M → Payload R
  scan_payload s include_raw_ranges cached =
      let analysis = analyze_laser_scan (s.scan_of cached.raw) in
      Payload.laser_scan (record {
        stamp = some cached.stamp;
        frame = analysis.frame_id;
        nearest = analysis.nearest;
        farthest = analysis.farthest;
        sectors = analysis.sectors;
        raw_ranges = if include_raw_ranges then some analysis.raw_ranges else none;
        data_age_s = some cached.age_s;
        stale = lt s.sensor_stale_s cached.age_s;
        invalid_beam_count = analysis.invalid_beam_count;
      })

  abbrev pub scan_on :
      Sources R V M
      → String
      → String
      → R
      → Bool
      → String
      → Option (CachedMessage R V M)
      → ToolResult R
  scan_on s robot_id command_id duration_sec include_raw_ranges topic none =
      build_error_result laser_scan_result command_id robot_id duration_sec (
        plain_error ErrorCode.sensor_stale
          (text "no laser scan ever received on " ∷ text topic ∷ []))
  scan_on s robot_id command_id duration_sec include_raw_ranges topic (some cached) = record {
    status = Status.succeeded;
    command_id = command_id;
    robot_id = robot_id;
    duration_sec = duration_sec;
    error = none;
    payload = scan_payload s include_raw_ranges cached;
  }

  abbrev pub scan_at : Sources R V M → String → String → R → Bool → Option String → ToolResult R
  scan_at s robot_id command_id duration_sec include_raw_ranges none =
      scan_error robot_id command_id duration_sec ErrorCode.capability_unavailable
        "no laser scan sensor available"
  scan_at s robot_id command_id duration_sec include_raw_ranges (some topic) =
      scan_on s robot_id command_id duration_sec include_raw_ranges topic
        (get_latest topic s.clock s.pool)

  unfoldable pub resolve_laser_scan : Sources R V M → String → String → R → Bool → ToolResult R
  resolve_laser_scan s robot_id command_id duration_sec include_raw_ranges =
      scan_at s robot_id command_id duration_sec include_raw_ranges
        (topic_of "range_sensing" "scan" s)
