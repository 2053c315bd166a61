-- ===== src/Contracts/Core.antt =====
-- src/ros_mcp/contracts/core.py, errors.py and safety.py: commands, their states, errors and the
-- outcome of the safety check. A `datetime` is the number of seconds since the epoch.
use ros2_mcp_server.Base.{String, Bool, true, false, Option, List, []}
use ros2_mcp_server.Json.{Json, Fields, Message}

pub data Confidence : Type 0 where
  confirmed likely ambiguous : Confidence

pub data Operation : Type 0 where
  move stop navigate get_state get_capabilities get_laser_scan : Operation
  get_camera_image detect_objects raw_read_topic raw_publish : Operation
  raw_call_service raw_send_action_goal raw_get_parameter raw_set_parameter : Operation

-- Operation.value
unfoldable pub operation_value : Operation → String
operation_value move = "move"
operation_value stop = "stop"
operation_value navigate = "navigate"
operation_value get_state = "get_state"
operation_value get_capabilities = "get_capabilities"
operation_value get_laser_scan = "get_laser_scan"
operation_value get_camera_image = "get_camera_image"
operation_value detect_objects = "detect_objects"
operation_value raw_read_topic = "raw_read_topic"
operation_value raw_publish = "raw_publish"
operation_value raw_call_service = "raw_call_service"
operation_value raw_send_action_goal = "raw_send_action_goal"
operation_value raw_get_parameter = "raw_get_parameter"
operation_value raw_set_parameter = "raw_set_parameter"

pub data CommandClass : Type 0 where
  read low_risk motion high_risk : CommandClass

pub data Priority : Type 0 where
  normal safety : Priority

pub data ExecutionState : Type 0 where
  received validating rejected safety_check safety_rejected : ExecutionState
  awaiting_approval planning capability_unavailable executing : ExecutionState
  monitoring succeeded failed timeout safety_stop cancelled : ExecutionState

abbrev pub is_terminal : ExecutionState → Bool
is_terminal ExecutionState.rejected = true
is_terminal ExecutionState.safety_rejected = true
is_terminal ExecutionState.capability_unavailable = true
is_terminal ExecutionState.succeeded = true
is_terminal ExecutionState.failed = true
is_terminal ExecutionState.timeout = true
is_terminal ExecutionState.safety_stop = true
is_terminal ExecutionState.cancelled = true
is_terminal _ = false

pub data ErrorCode : Type 0 where
  invalid_argument invalid_frame tf_unavailable capability_unavailable : ErrorCode
  navigation_failed action_timeout safety_rejected robot_not_ready : ErrorCode
  sensor_stale permission_denied ros_interface_error cancelled internal_error : ErrorCode

pub record ToolError (R : Type 0) : Type 0 where
  pub code : ErrorCode
  pub message : Message R
  pub details : List (String × Json R)

pub record Pose2D (R : Type 0) : Type 0 where
  pub x : R
  pub y : R
  pub yaw : R
  pub frame : String
  pub stamp : R

-- `source` has one value, "mcp_tool_call".
pub record Provenance (R : Type 0) : Type 0 where
  pub tool_name : String
  pub raw_arguments : Fields R
  pub client_session_id : String

pub record SafetyConstraints (R : Type 0) : Type 0 where
  pub max_linear_mps : R
  pub max_angular_rps : R
  pub max_linear_acceleration_mps2 : R
  pub max_angular_acceleration_rps2 : R
  pub max_move_distance_m : R
  pub max_navigation_distance_m : R
  pub obstacle_stop_distance_m : R

pub record MoveTarget (R : Type 0) : Type 0 where
  pub direction : String
  pub distance_m : Option R
  pub angle_deg : Option R

pub record NavigateTarget (R : Type 0) : Type 0 where
  pub x : R
  pub y : R
  pub yaw : Option R

pub data Target (R : Type 0) : Type 0 where
  move_target : MoveTarget R → Target R
  navigate_target : NavigateTarget R → Target R
  no_target : Target R

-- The classes that `expected_result_type` names; `tool_result` is the base class.
pub data ResultType : Type 0 where
  tool_result robot_state_result capabilities_result motion_result stop_result : ResultType
  navigate_result laser_scan_result camera_image_result detect_objects_result : ResultType

pub record SemanticCommand (R : Type 0) : Type 0 where
  pub command_id : String
  pub session_id : String
  pub robot_id : String
  pub operation : Operation
  pub command_class : CommandClass
  pub target : Target R
  pub frame : Option String
  pub timeout_s : R
  pub priority : Priority
  pub safety_constraints : Option (SafetyConstraints R)
  pub provenance : Provenance R
  pub confidence : Option R
  pub execution_state : ExecutionState
  pub created_at : R
  pub expected_result_type : ResultType

pub data SafetyDecision : Type 0 where
  allow deny require_approval : SafetyDecision

pub record SafetyOutcome (R : Type 0) : Type 0 where
  pub decision : SafetyDecision
  pub error : Option (ToolError R)
  pub approval_reason : Option (Message R)
  pub resolved_constraints : SafetyConstraints R

pub record ValidationOutcome (R : Type 0) : Type 0 where
  pub passed : Bool
  pub error : Option (ToolError R)

module _ {R : Type 0} where
  -- `ToolError(code=…, message=…)` with the default `details`.
  abbrev pub plain_error : ErrorCode → Message R → ToolError R
  plain_error code message = record { code = code; message = message; details = [] }
