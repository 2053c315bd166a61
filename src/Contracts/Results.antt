-- ===== src/Contracts/Results.antt =====
-- src/ros_mcp/contracts/results.py and `ToolResult` of errors.py. A subclass of `ToolResult` is a
-- constructor of `Payload`, which holds the fields that the subclass adds.
use ros2_mcp_server.Base.{ℕ, String, Bool, Option, List}
use ros2_mcp_server.Contracts.Core.{
  Operation, ExecutionState, Pose2D, ToolError, ResultType, tool_result, robot_state_result,
  capabilities_result, motion_result, stop_result, navigate_result, laser_scan_result,
  camera_image_result, detect_objects_result,
}
use ros2_mcp_server.Contracts.Discovery.{CapabilityEntry}

pub record CommandSummary : Type 0 where
  pub command_id : String
  pub operation : Operation
  pub execution_state : ExecutionState

pub record RangeReading (R : Type 0) : Type 0 where
  pub range_m : R
  pub angle_rad : R
  pub sector : String

pub data StopReason : Type 0 where
  target_reached obstacle timeout cancelled safety_stop : StopReason

pub data FailReason : Type 0 where
  goal_rejected planner_failure controller_failure : FailReason
  obstacle_timeout cancelled localization_lost : FailReason

pub record ObjectPosition (R : Type 0) : Type 0 where
  pub x : R
  pub y : R
  pub frame : String

pub data DistanceSource : Type 0 where
  laser_scan_correlation depth_image unavailable : DistanceSource

pub record DetectedObject (R : Type 0) : Type 0 where
  pub label : String
  pub confidence : R
  pub distance_m : Option R
  pub distance_source : DistanceSource
  pub position : Option (ObjectPosition R)
  pub position_error : Option String
  pub bbox_px : ℕ × ℕ × ℕ × ℕ

pub record RobotStateResult (R : Type 0) : Type 0 where
  pub pose : Option (Pose2D R)
  pub linear_velocity_mps : Option R
  pub angular_velocity_rps : Option R
  pub is_moving : Bool
  pub active_command : Option CommandSummary

pub record CapabilitiesResult (R : Type 0) : Type 0 where
  pub capabilities : List (CapabilityEntry R)
  pub snapshot_version : ℕ

pub record MotionResult (R : Type 0) : Type 0 where
  pub distance_traveled_m : R
  pub final_pose : Option (Pose2D R)
  pub stop_reason : Option StopReason

pub record StopResult (R : Type 0) : Type 0 where
  pub cancelled_command_id : Option String
  pub final_pose : Option (Pose2D R)

pub record NavigateResult (R : Type 0) : Type 0 where
  pub final_pose : Option (Pose2D R)
  pub distance_remaining_m : Option R
  pub fail_reason : Option FailReason

pub record LaserScanResult (R : Type 0) : Type 0 where
  pub stamp : Option R
  pub frame : Option String
  pub nearest : Option (RangeReading R)
  pub farthest : Option (RangeReading R)
  pub sectors : List (String × Option (RangeReading R))
  pub raw_ranges : Option (List R)
  pub data_age_s : Option R
  pub stale : Bool
  pub invalid_beam_count : ℕ

pub record CameraImageResult (R : Type 0) : Type 0 where
  pub stamp : Option R
  pub frame : Option String
  pub data_age_s : Option R
  pub image_jpeg_bytes : List ℕ
  pub width_px : ℕ
  pub height_px : ℕ
  pub original_width_px : ℕ
  pub original_height_px : ℕ

pub record DetectObjectsResult (R : Type 0) : Type 0 where
  pub stamp : Option R
  pub objects : List (DetectedObject R)
  pub detector_plugin_id : String

pub data Payload (R : Type 0) : Type 0 where
  base : Payload R
  robot_state : RobotStateResult R → Payload R
  capabilities : CapabilitiesResult R → Payload R
  motion : MotionResult R → Payload R
  stopped : StopResult R → Payload R
  navigated : NavigateResult R → Payload R
  laser_scan : LaserScanResult R → Payload R
  camera_image : CameraImageResult R → Payload R
  detected : DetectObjectsResult R → Payload R

pub data Status : Type 0 where
  succeeded failed awaiting_approval : Status

pub record ToolResult (R : Type 0) : Type 0 where
  pub status : Status
  pub command_id : String
  pub robot_id : String
  pub duration_sec : R
  pub error : Option (ToolError R)
  pub payload : Payload R

module _ {R : Type 0} where
  -- The class of a result, `type(result)`.
  abbrev pub class_of : Payload R → ResultType
  class_of base = tool_result
  class_of (robot_state r) = robot_state_result
  class_of (capabilities r) = capabilities_result
  class_of (motion r) = motion_result
  class_of (stopped r) = stop_result
  class_of (navigated r) = navigate_result
  class_of (laser_scan r) = laser_scan_result
  class_of (camera_image r) = camera_image_result
  class_of (detected r) = detect_objects_result
