-- ===== src/Motion/Control.antt =====
-- src/ros_mcp/adapters/motion/cmd_vel_plugin.py: `move` up to its loop, the body of the loop, and
-- `stop`. Each stretch between two awaits is a function that lists what it publishes and says how the
-- method goes on.
use ros2_mcp_server.Base.{
  ℕ, String, Bool, true, ◌||◌, List, [], ◌∷◌, Option, none, some, if◌then◌else◌, Except, ok, raised,
  assertion_error,
}
use ros2_mcp_server.Number.{Number, nat, abs}
use ros2_mcp_server.Json.{text, fixed2, number, num, str}
use ros2_mcp_server.Geometry.Angle.{angular_difference}
use ros2_mcp_server.Contracts.Core.{
  ErrorCode, plain_error, Target, move_target, Pose2D, SafetyConstraints, MoveTarget,
  SemanticCommand,
}
use ros2_mcp_server.Contracts.Results.{StopReason, Status, Payload, ToolResult}
use ros2_mcp_server.Motion.{
  Twist, Plugin, Instant, clamp, clamp_delta, current_pose, obstacle_ahead,
}
use ros2_mcp_server.Motion.Plan.{
  Phase, turning, driving, Aim, Plan, Drive, Next, moving, raising, spinning, Ticked, zero_twist,
  halt, quiet, fail, reached, first_drive, send, turned, remaining_at, sector_of, moved_to, aim_at,
}

module _ {R M : Type 0} ⦃n : Number R⦄ where
  open n use {times, neg}

  unfoldable pub angular_command : Plugin R M → Plan R → Drive R → R → R
  angular_command p plan d error =
      clamp_delta
        (clamp (times p.kp_angular error) (neg plan.constraints.max_angular_rps)
          plan.constraints.max_angular_rps)
        d.prev_angular_cmd (times plan.constraints.max_angular_acceleration_rps2 p.tick_period_s)

  unfoldable pub linear_command : Plugin R M → Plan R → Drive R → R → R
  linear_command p plan d remaining =
      let speed = clamp (times p.kp_linear remaining) (nat 0) plan.constraints.max_linear_mps in
      clamp_delta (times plan.aim.drive_sign speed) d.prev_linear_cmd
        (times plan.constraints.max_linear_acceleration_mps2 p.tick_period_s)

  -- The end of an iteration of the phase "driving", with the heading's error.
  abbrev pub drive_by : Plugin R M → Plan R → Drive R → R → Option R → Ticked R
  drive_by p plan d remaining none = quiet spinning
  drive_by p plan d remaining (some heading_error) =
      send plan d (linear_command p plan d remaining) (angular_command p plan d heading_error)

module _ {R V M : Type 0} ⦃n : Number R⦄ where
  open n use {le, minus, plus}

  abbrev pub elapsed : R → Instant R V M → R
  elapsed start_monotonic i = minus i.ended start_monotonic

  abbrev pub set_off :
      SemanticCommand R
      → SafetyConstraints R
      → Instant R V M
      → Pose2D R
      → Except (Option (Aim R))
      → Next R
  set_off command constraints i pose (raised e) = raising e
  set_off command constraints i pose (ok none) = spinning
  set_off command constraints i pose (ok (some a)) =
      moving
        (record {
          command = command;
          constraints = constraints;
          start_monotonic = i.monotonic;
          deadline = plus i.monotonic command.timeout_s;
          aim = a;
        })
        (first_drive a.start_phase pose)

  abbrev pub no_odometry : SemanticCommand R → Instant R V M → ToolResult R
  no_odometry command i =
      fail command (elapsed i.monotonic i)
        (plain_error ErrorCode.sensor_stale
          (text "no fresh odometry available for closed-loop motion" ∷ []))
        (nat 0) none StopReason.safety_stop

  abbrev pub failed_at :
      Plan R → Instant R V M → Drive R → ErrorCode → String → StopReason → Ticked R
  failed_at plan i d code message reason = halt (
      fail plan.command (elapsed plan.start_monotonic i) (plain_error code (text message ∷ []))
        d.distance_traveled_total (some d.last_pose) reason)

  abbrev pub succeeded_at : Plan R → Instant R V M → Drive R → Pose2D R → Ticked R
  succeeded_at plan i d pose =
      halt (reached plan.command (elapsed plan.start_monotonic i) d.distance_traveled_total pose)

  abbrev pub blocked : Plan R → Instant R V M → Drive R → Pose2D R → String → R → Ticked R
  blocked plan i d pose sector obstacle_range = halt (
      fail plan.command (elapsed plan.start_monotonic i)
        (record {
          code = ErrorCode.safety_rejected;
          message =
              text "obstacle detected "
              ∷ fixed2 obstacle_range
              ∷ text "m away, within the "
              ∷ number plan.constraints.obstacle_stop_distance_m
              ∷ text "m stop distance"
              ∷ [];
          details = ("obstacle_range_m", num obstacle_range) ∷ ("sector", str sector) ∷ [];
        })
        d.distance_traveled_total (some pose) StopReason.safety_stop)

  module _ (turns : ℕ) where
    abbrev pub start :
        SemanticCommand R
        → MoveTarget R
        → SafetyConstraints R
        → Instant R V M
        → Option (Pose2D R) × Bool
        → Ticked R
    start command t constraints i (some pose, true) =
        quiet (set_off command constraints i pose (aim_at turns pose t))
    start command t constraints i _ = halt (no_odometry command i)

    abbrev pub begin_move :
        Plugin R M
        → SemanticCommand R
        → Instant R V M
        → MoveTarget R
        → Option (SafetyConstraints R)
        → Ticked R
    begin_move p command i t none = quiet (raising assertion_error)
    begin_move p command i t (some constraints) = start command t constraints i (current_pose p i)

    abbrev pub begin_at : Plugin R M → SemanticCommand R → Instant R V M → Target R → Ticked R
    begin_at p command i (move_target t) = begin_move p command i t command.safety_constraints
    begin_at p command i _ = quiet (raising assertion_error)

    -- `move` up to its loop.
    unfoldable pub begin : Plugin R M → SemanticCommand R → Instant R V M → Ticked R
    begin p command i = begin_at p command i command.target

    -- The phase "turning", once the heading's error is known.
    unfoldable pub turn : Plugin R M → Plan R → Instant R V M → Pose2D R → Drive R → R → Ticked R
    turn p plan i pose d error =
        if le (abs error) p.angle_tolerance_rad
        then if plan.aim.is_rotation
          then succeeded_at plan i d pose
          else quiet (moving plan (turned pose d))
        else send plan d (nat 0) (angular_command p plan d error)

    -- The phase "driving" where no obstacle is ahead.
    unfoldable pub drive_on : Plugin R M → Plan R → Instant R V M → Pose2D R → Drive R → Ticked R
    drive_on p plan i pose d =
        let remaining = remaining_at plan d pose in
        if le remaining p.position_tolerance_m
        then succeeded_at plan i d pose
        else drive_by p plan d remaining (angular_difference turns plan.aim.heading_target pose.yaw)

    abbrev pub turn_by :
        Plugin R M → Plan R → Instant R V M → Pose2D R → Drive R → Option R → Ticked R
    turn_by p plan i pose d none = quiet spinning
    turn_by p plan i pose d (some error) = turn p plan i pose d error

    abbrev pub avoid :
        Plugin R M → Plan R → Instant R V M → Pose2D R → Drive R → String → Option R → Ticked R
    avoid p plan i pose d sector (some obstacle_range) = blocked plan i d pose sector obstacle_range
    avoid p plan i pose d sector none = drive_on p plan i pose d

    -- One phase of the loop's body, at a fresh pose.
    abbrev pub act : Plugin R M → Plan R → Instant R V M → Pose2D R → Drive R → Phase → Ticked R
    act p plan i pose d turning =
        turn_by p plan i pose d (angular_difference turns plan.aim.heading_target pose.yaw)
    act p plan i pose d driving =
        let sector = sector_of plan.aim.drive_sign in
        avoid p plan i pose d sector
          (obstacle_ahead p i sector plan.constraints.obstacle_stop_distance_m)

    abbrev pub steer :
        Plugin R M → Plan R → Instant R V M → Drive R → Option (Pose2D R) × Bool → Ticked R
    steer p plan i d (some pose, true) = act p plan i pose (moved_to pose d) d.phase
    steer p plan i d _ =
        failed_at plan i d ErrorCode.sensor_stale "odometry became stale during motion"
          StopReason.safety_stop

    -- The body of the loop.
    unfoldable pub tick : Plugin R M → Plan R → Instant R V M → Drive R → Ticked R
    tick p plan i d =
        if i.is_cancelled
        then failed_at plan i d ErrorCode.cancelled "move cancelled" StopReason.cancelled
        else if i.deadline_exceeded || le plan.deadline i.monotonic
        then failed_at plan i d ErrorCode.action_timeout "move timed out before reaching target"
            StopReason.timeout
        else steer p plan i d (current_pose p i)

  -- `stop`, with what it publishes.
  unfoldable pub stop : Plugin R M → Instant R V M → List (Twist R) × ToolResult R
  stop p i = (
    zero_twist ∷ [],
    record {
      status = Status.succeeded;
      command_id = "";
      robot_id = p.robot_id;
      duration_sec = nat 0;
      error = none;
      payload =
          Payload.stopped
            (record { cancelled_command_id = none; final_pose = (current_pose p i).0 });
    },
  )
