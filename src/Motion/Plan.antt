-- ===== src/Motion/Plan.antt =====
-- src/ros_mcp/adapters/motion/cmd_vel_plugin.py: what `move` plans before its loop, the variables of
-- the loop and the results of `move`. `turns` is the fuel of the loops of `normalize_angle`.
use ros2_mcp_server.Base.{
  ℕ, String, Bool, true, false, ◌||◌, List, [], ◌∷◌, Option, none, some, ◌==◌, if◌then◌else◌,
  Exception, Except, ok, assert_some, ◌>>=◌,
}
use ros2_mcp_server.Number.{Number, nat}
use ros2_mcp_server.Geometry.{euclidean_distance}
use ros2_mcp_server.Geometry.Angle.{normalize_angle}
use ros2_mcp_server.Contracts.Core.{
  ToolError, Pose2D, SafetyConstraints, MoveTarget, SemanticCommand,
}
use ros2_mcp_server.Contracts.Results.{StopReason, Status, Payload, ToolResult}
use ros2_mcp_server.Motion.{Twist}

pub data Phase : Type 0 where
  turning driving : Phase

-- What `move` fixes before its loop.
pub record Aim (R : Type 0) : Type 0 where
  pub is_rotation : Bool
  pub heading_target : R
  pub start_phase : Phase
  pub drive_sign : R
  pub distance_target_m : R

pub record Plan (R : Type 0) : Type 0 where
  pub command : SemanticCommand R
  pub constraints : SafetyConstraints R
  pub start_monotonic : R
  pub deadline : R
  pub aim : Aim R

-- The variables of the loop.
pub record Drive (R : Type 0) : Type 0 where
  pub phase : Phase
  pub phase_start_pose : Pose2D R
  pub distance_traveled_total : R
  pub last_pose : Pose2D R
  pub prev_linear_cmd : R
  pub prev_angular_cmd : R

-- Where `move` is after a stretch. It is `spinning` in a loop of `normalize_angle` that outran its
-- fuel.
pub data Next (R : Type 0) : Type 0 where
  moving : Plan R → Drive R → Next R
  ended : ToolResult R → Next R
  raising : Exception → Next R
  spinning : Next R

pub record Ticked (R : Type 0) : Type 0 where
  pub twists : List (Twist R)  -- published, in order
  pub next : Next R

abbrev pub is_rotation_of : String → Bool
is_rotation_of direction = direction == "rotate_left" || direction == "rotate_right"

abbrev pub is_straight : String → Bool
is_straight direction = direction == "forward" || direction == "backward"

module _ {R : Type 0} where
  abbrev pub quiet : Next R → Ticked R
  quiet next = record { twists = []; next = next }

module _ {R : Type 0} ⦃n : Number R⦄ where
  open n use {lt, le, plus, minus, times, over, neg, pi}

  abbrev pub zero_twist : Twist R
  zero_twist = record { linear_x = nat 0; angular_z = nat 0 }

  -- `await self._publish_zero()`, then a return.
  abbrev pub halt : ToolResult R → Ticked R
  halt result = record { twists = zero_twist ∷ []; next = ended result }

  abbrev pub motion_payload : R → Option (Pose2D R) → StopReason → Payload R
  motion_payload distance final_pose reason = Payload.motion (record {
    distance_traveled_m = distance;
    final_pose = final_pose;
    stop_reason = some reason;
  })

  unfoldable pub fail :
      SemanticCommand R → R → ToolError R → R → Option (Pose2D R) → StopReason → ToolResult R
  fail command elapsed error distance_traveled final_pose stop_reason = record {
    status = Status.failed;
    command_id = command.command_id;
    robot_id = command.robot_id;
    duration_sec = elapsed;
    error = some error;
    payload = motion_payload distance_traveled final_pose stop_reason;
  }

  unfoldable pub reached : SemanticCommand R → R → R → Pose2D R → ToolResult R
  reached command elapsed distance_traveled final_pose = record {
    status = Status.succeeded;
    command_id = command.command_id;
    robot_id = command.robot_id;
    duration_sec = elapsed;
    error = none;
    payload = motion_payload distance_traveled (some final_pose) StopReason.target_reached;
  }

  -- math.radians
  abbrev pub radians : R → R
  radians a = times a (over pi (nat 180))

  abbrev pub first_drive : Phase → Pose2D R → Drive R
  first_drive phase pose = record {
    phase = phase;
    phase_start_pose = pose;
    distance_traveled_total = nat 0;
    last_pose = pose;
    prev_linear_cmd = nat 0;
    prev_angular_cmd = nat 0;
  }

  abbrev pub send : Plan R → Drive R → R → R → Ticked R
  send plan d linear_cmd angular_cmd = record {
    twists = record { linear_x = linear_cmd; angular_z = angular_cmd } ∷ [];
    next = moving plan (record d { prev_linear_cmd = linear_cmd; prev_angular_cmd = angular_cmd });
  }

  abbrev pub turned : Pose2D R → Drive R → Drive R
  turned pose d = record d { phase = driving; phase_start_pose = pose; prev_angular_cmd = nat 0 }

  abbrev pub remaining_at : Plan R → Drive R → Pose2D R → R
  remaining_at plan d pose =
      minus plan.aim.distance_target_m
        (euclidean_distance d.phase_start_pose.x d.phase_start_pose.y pose.x pose.y)

  abbrev pub sector_of : R → String
  sector_of drive_sign = if le (nat 0) drive_sign then "front" else "rear"

  abbrev pub moved_to : Pose2D R → Drive R → Drive R
  moved_to pose d = record d {
    distance_traveled_total =
        plus d.distance_traveled_total
          (euclidean_distance d.last_pose.x d.last_pose.y pose.x pose.y);
    last_pose = pose;
  }

  -- A move that turns first, to a heading that `normalize_angle` found.
  abbrev pub towards : Bool → R → R → Option R → Option (Aim R)
  towards is_rotation drive_sign distance_m none = none
  towards is_rotation drive_sign distance_m (some heading) = some (record {
    is_rotation = is_rotation;
    heading_target = heading;
    start_phase = turning;
    drive_sign = drive_sign;
    distance_target_m = distance_m;
  })

  abbrev pub straight : Pose2D R → MoveTarget R → R → Aim R
  straight pose t distance_m = record {
    is_rotation = false;
    heading_target = pose.yaw;
    start_phase = driving;
    drive_sign = if t.direction == "forward" then nat 1 else neg (nat 1);
    distance_target_m = distance_m;
  }

  module _ (turns : ℕ) where
    abbrev pub rotation : Pose2D R → MoveTarget R → R → Option (Aim R)
    rotation pose t angle_deg =
        let sign = if t.direction == "rotate_left" then nat 1 else neg (nat 1) in
        towards true (nat 0) (nat 0)
          (normalize_angle turns (plus pose.yaw (times sign (radians angle_deg))))

    abbrev pub sideways : Pose2D R → MoveTarget R → R → Option (Aim R)
    sideways pose t distance_m =
        let offset = if t.direction == "left" then over pi (nat 2) else over (neg pi) (nat 2) in
        towards false (nat 1) distance_m (normalize_angle turns (plus pose.yaw offset))

    -- `none` where `normalize_angle` outran its fuel.
    unfoldable pub aim_at : Pose2D R → MoveTarget R → Except (Option (Aim R))
    aim_at pose t =
        if is_rotation_of t.direction
        then assert_some t.angle_deg >>= (λ angle. ok (rotation pose t angle))
        else if is_straight t.direction
        then assert_some t.distance_m >>= (λ distance. ok (some (straight pose t distance)))
        else assert_some t.distance_m >>= (λ distance. ok (sideways pose t distance))
