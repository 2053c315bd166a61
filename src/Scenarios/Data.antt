-- ===== src/Scenarios/Data.antt =====
-- A robot in a geofence of 10 m by 10 m, a command of each kind, and requests of `robot.move`.
use ros2_mcp_server.Base.{ℕ, String, true, ◌*◌, none, some}
use ros2_mcp_server.Number.Fixed.{ℤ, pos, negsuc, fixed}
use ros2_mcp_server.Json.{Fields, end, field, str, num}
use ros2_mcp_server.Contracts.Core.{
  Operation, CommandClass, Priority, ExecutionState, Pose2D, MoveTarget, NavigateTarget, Target,
  move_target, navigate_target, no_target, SemanticCommand, ResultType, motion_result,
  navigate_result, stop_result,
}
use ros2_mcp_server.Contracts.Config.{SafetyConfig, TimeoutConfig, policy_based, OnTimeout}
use ros2_mcp_server.Commands.Factory.{CreateRequest}

abbrev pub m : ℕ → ℤ
m k = pos (k * 1000)

abbrev pub safety_config : SafetyConfig ℤ
safety_config = record {
  max_linear_mps = m 1;
  max_angular_rps = m 1;
  max_linear_acceleration_mps2 = m 1;
  max_angular_acceleration_rps2 = m 1;
  max_move_distance_m = m 5;
  max_navigation_distance_m = m 20;
  obstacle_stop_distance_m = pos 300;
  odom_stale_s = pos 500;
  tf_stale_s = pos 500;
  sensor_stale_s = pos 500;
  cmd_vel_watchdog_s = pos 500;
  rate_limit_rps = m 2;
  geofence = record {
    enabled = true;
    frame = "map";
    min_x = negsuc 4999;
    max_x = m 5;
    min_y = negsuc 4999;
    max_y = m 5;
  };
  approval_policy = policy_based;
  human_approval = record {
    required_above_distance_m = m 3;
    timeout_s = m 60;
    on_timeout = OnTimeout.deny;
  };
}

abbrev pub timeout_config : TimeoutConfig ℤ
timeout_config = record {
  move_default_s = m 30;
  move_max_s = m 120;
  navigate_default_s = m 60;
  navigate_max_s = m 300;
}

abbrev pub pose : Pose2D ℤ
pose = record { x = m 1; y = m 0; yaw = m 0; frame = "map"; stamp = m 0 }

abbrev pub forward : ℤ → MoveTarget ℤ
forward d = record { direction = "forward"; distance_m = some d; angle_deg = none }

abbrev pub goal : NavigateTarget ℤ
goal = record { x = m 2; y = m 1; yaw = none }

abbrev pub command : String → Operation → Target ℤ → ResultType → SemanticCommand ℤ
command id operation target expected = record {
  command_id = id;
  session_id = "s1";
  robot_id = "r1";
  operation = operation;
  command_class = CommandClass.motion;
  target = target;
  frame = none;
  timeout_s = m 30;
  priority = Priority.normal;
  safety_constraints = none;
  provenance = record { tool_name = "robot.move"; raw_arguments = end; client_session_id = "s1" };
  confidence = none;
  execution_state = ExecutionState.received;
  created_at = m 0;
  expected_result_type = expected;
}

abbrev pub move_command : String → ℤ → SemanticCommand ℤ
move_command id d = command id Operation.move (move_target (forward d)) motion_result

abbrev pub navigate_command : String → SemanticCommand ℤ
navigate_command id = command id Operation.navigate (navigate_target goal) navigate_result

abbrev pub stop_command : String → SemanticCommand ℤ
stop_command id = command id Operation.stop no_target stop_result

abbrev pub move_arguments : Fields ℤ
move_arguments = field "direction" (str "forward") (field "distance_m" (num (m 2)) end)

abbrev pub long_arguments : Fields ℤ
long_arguments =
    field "direction" (str "forward")
      (field "distance_m" (num (m 2)) (field "timeout_s" (num (m 500)) end))

abbrev pub request : Fields ℤ → CreateRequest ℤ
request arguments = record {
  tool_name = "robot.move";
  operation = Operation.move;
  command_class = CommandClass.motion;
  arguments = arguments;
  session_id = "s1";
  safety_config = safety_config;
  timeout_config = timeout_config;
  confidence = none;
  fresh_id = "c1";
  now = m 0;
}
