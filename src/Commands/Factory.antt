-- ===== src/Commands/Factory.antt =====
-- src/ros_mcp/commands/factory.py. The fresh id and the creation time are arguments. The factory
-- stores what it finds in the arguments; a value outside the annotated type of its field is
-- `ill_typed` here, where Python would store it all the same.
use ros2_mcp_server.Base.{
  String, Bool, true, false, Option, none, some, if◌then◌else◌, Except, ok, raised, key_error,
  ◌>>=◌,
}
use ros2_mcp_server.Number.{Number, nat, min}
use ros2_mcp_server.Json.{Fields, lookup, as_number, as_text, item, optional_number, optional_text}
use ros2_mcp_server.Contracts.Core.{
  Operation, CommandClass, Priority, ExecutionState, Target, move_target, navigate_target,
  no_target, SafetyConstraints, SemanticCommand, ResultType, robot_state_result,
  capabilities_result, motion_result, stop_result, navigate_result, laser_scan_result,
  camera_image_result, detect_objects_result,
}
use ros2_mcp_server.Contracts.Config.{SafetyConfig, TimeoutConfig}
use ros2_mcp_server.Safety.{resolve_constraints}

-- RESULT_TYPE_BY_OPERATION[operation]
unfoldable pub result_type_by_operation : Operation → Except ResultType
result_type_by_operation Operation.get_state = ok robot_state_result
result_type_by_operation Operation.get_capabilities = ok capabilities_result
result_type_by_operation Operation.move = ok motion_result
result_type_by_operation Operation.stop = ok stop_result
result_type_by_operation Operation.navigate = ok navigate_result
result_type_by_operation Operation.get_laser_scan = ok laser_scan_result
result_type_by_operation Operation.get_camera_image = ok camera_image_result
result_type_by_operation Operation.detect_objects = ok detect_objects_result
result_type_by_operation _ = raised (key_error "operation")

abbrev pub is_motion : Operation → Bool
is_motion Operation.move = true
is_motion Operation.stop = true
is_motion Operation.navigate = true
is_motion _ = false

abbrev priority_of : Operation → Priority
priority_of Operation.stop = Priority.safety
priority_of _ = Priority.normal

module _ {R : Type 0} where
  abbrev pub number_at : String → Fields R → Except (Option R)
  number_at key arguments = optional_number (lookup key arguments)

  required_number : String → Fields R → Except R
  required_number key arguments = do v ← item key (lookup key arguments); as_number v

  required_text : String → Fields R → Except String
  required_text key arguments = do v ← item key (lookup key arguments); as_text v

  build_move : Fields R → Except (Target R)
  unfolding required_text
  build_move arguments = do
    direction ← required_text "direction" arguments
    distance_m ← number_at "distance_m" arguments
    angle_deg ← number_at "angle_deg" arguments
    ok (
        move_target
          (record { direction = direction; distance_m = distance_m; angle_deg = angle_deg }))

  build_navigate : Fields R → Except (Target R)
  unfolding required_number
  build_navigate arguments = do
    x ← required_number "x" arguments
    y ← required_number "y" arguments
    yaw ← number_at "yaw" arguments
    ok (navigate_target (record { x = x; y = y; yaw = yaw }))

  unfoldable pub build_target : Operation → Fields R → Except (Target R)
  unfolding build_move build_navigate
  build_target Operation.move arguments = build_move arguments
  build_target Operation.navigate arguments = build_navigate arguments
  build_target _ arguments = ok no_target

  unfoldable pub frame_of : Operation → Fields R → Except (Option String)
  frame_of Operation.navigate arguments = optional_text (lookup "frame" arguments)
  frame_of _ arguments = ok none

-- What a call of `create` is given, with the id and the time that it draws.
pub record CreateRequest (R : Type 0) : Type 0 where
  pub tool_name : String
  pub operation : Operation
  pub command_class : CommandClass
  pub arguments : Fields R
  pub session_id : String
  pub safety_config : SafetyConfig R
  pub timeout_config : TimeoutConfig R
  pub confidence : Option R
  pub fresh_id : String
  pub now : R

module _ {R : Type 0} ⦃n : Number R⦄ where
  abbrev pub bounded_timeout : TimeoutConfig R → Option R → R
  bounded_timeout timeouts none = timeouts.move_default_s
  bounded_timeout timeouts (some requested) = min (n.to_float requested) timeouts.move_max_s

  unfoldable pub resolve_timeout_s : Operation → Fields R → TimeoutConfig R → Except R
  resolve_timeout_s Operation.move arguments timeouts = do
    requested ← number_at "timeout_s" arguments
    ok (bounded_timeout timeouts requested)
  resolve_timeout_s Operation.navigate arguments timeouts = ok timeouts.navigate_default_s
  resolve_timeout_s Operation.stop arguments timeouts = ok (nat 5)
  resolve_timeout_s _ arguments timeouts = ok (nat 5)

  unfoldable pub resolve_safety_constraints :
      Operation → SafetyConfig R → Option (SafetyConstraints R)
  resolve_safety_constraints operation safety =
      if is_motion operation then some (resolve_constraints safety) else none

  -- The command that `create` returns, once its four computed fields are there.
  unfoldable pub assemble :
      String → CreateRequest R → Target R → Option String → R → ResultType → SemanticCommand R
  assemble robot_id request target frame timeout_s expected = record {
    command_id = request.fresh_id;
    session_id = request.session_id;
    robot_id = robot_id;
    operation = request.operation;
    command_class = request.command_class;
    target = target;
    frame = frame;
    timeout_s = timeout_s;
    priority = priority_of request.operation;
    safety_constraints = resolve_safety_constraints request.operation request.safety_config;
    provenance = record {
      tool_name = request.tool_name;
      raw_arguments = request.arguments;
      client_session_id = request.session_id;
    };
    confidence = request.confidence;
    execution_state = ExecutionState.received;
    created_at = request.now;
    expected_result_type = expected;
  }

  unfoldable pub create : String → CreateRequest R → Except (SemanticCommand R)
  create robot_id request = do
    target ← build_target request.operation request.arguments
    frame ← frame_of request.operation request.arguments
    timeout_s ← resolve_timeout_s request.operation request.arguments request.timeout_config
    expected ← result_type_by_operation request.operation
    ok (assemble robot_id request target frame timeout_s expected)
