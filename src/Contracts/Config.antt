-- ===== src/Contracts/Config.antt =====
-- src/ros_mcp/contracts/config.py: the models of robot.yaml with the bounds that their fields
-- declare and the validators that they define. Reading the file is pydantic's and is not modelled.
use ros2_mcp_server.Base.{ℕ, String, Bool, ◌&&◌, if◌then◌else◌, ltb}
use ros2_mcp_server.Base.{Except, ok, raised, value_error}
use ros2_mcp_server.Number.{Number, nat}

pub record RobotConfig : Type 0 where
  pub id : String
  pub name : String

pub record DiscoveryConfig (R : Type 0) : Type 0 where
  pub poll_interval_s : R

pub record MotionCapabilityConfig : Type 0 where
  pub enabled : Bool
  pub backend : String
  pub cmd_vel_topic : String
  pub odom_topic : String

pub record NavigationCapabilityConfig : Type 0 where
  pub enabled : Bool
  pub backend : String
  pub action_name : String

pub record LidarCapabilityConfig : Type 0 where
  pub topic : String

pub record CameraCapabilityConfig : Type 0 where
  pub image_topic : String
  pub info_topic : String

pub record ObjectDetectionCapabilityConfig : Type 0 where
  pub backend : String

pub record CapabilityConfig : Type 0 where
  pub motion : MotionCapabilityConfig
  pub navigation : NavigationCapabilityConfig
  pub lidar : LidarCapabilityConfig
  pub camera : CameraCapabilityConfig
  pub object_detection : ObjectDetectionCapabilityConfig

pub record GeofenceConfig (R : Type 0) : Type 0 where
  pub enabled : Bool
  pub frame : String
  pub min_x : R
  pub max_x : R
  pub min_y : R
  pub max_y : R

pub data OnTimeout : Type 0 where
  deny allow : OnTimeout

pub record HumanApprovalConfig (R : Type 0) : Type 0 where
  pub required_above_distance_m : R
  pub timeout_s : R
  pub on_timeout : OnTimeout

pub data ApprovalPolicy : Type 0 where
  automatic policy_based always_human : ApprovalPolicy

pub record SafetyConfig (R : Type 0) : Type 0 where
  pub max_linear_mps : R
  pub max_angular_rps : R
  pub max_linear_acceleration_mps2 : R
  pub max_angular_acceleration_rps2 : R
  pub max_move_distance_m : R
  pub max_navigation_distance_m : R
  pub obstacle_stop_distance_m : R
  pub odom_stale_s : R
  pub tf_stale_s : R
  pub sensor_stale_s : R
  pub cmd_vel_watchdog_s : R
  pub rate_limit_rps : R
  pub geofence : GeofenceConfig R
  pub approval_policy : ApprovalPolicy
  pub human_approval : HumanApprovalConfig R

pub record TimeoutConfig (R : Type 0) : Type 0 where
  pub move_default_s : R
  pub move_max_s : R
  pub navigate_default_s : R
  pub navigate_max_s : R

pub record PerceptionConfig : Type 0 where
  pub max_result_bytes : ℕ
  pub camera_max_width_px_default : ℕ
  pub camera_max_width_px_cap : ℕ
  pub array_truncate_element_limit : ℕ

module _ {R : Type 0} ⦃n : Number R⦄ where
  open n use {lt, le}

  -- Field(gt=0) and Field(ge=0).
  abbrev pub gt_zero : R → Bool
  gt_zero a = lt (nat 0) a

  abbrev pub ge_zero : R → Bool
  ge_zero a = le (nat 0) a

  -- GeofenceConfig._check_bounds
  unfoldable pub check_bounds : GeofenceConfig R → Except (GeofenceConfig R)
  check_bounds g =
      if le g.max_x g.min_x
      then raised (value_error "geofence.min_x must be < geofence.max_x")
      else if le g.max_y g.min_y
      then raised (value_error "geofence.min_y must be < geofence.max_y")
      else ok g

  -- TimeoutConfig._check_defaults_within_max
  unfoldable pub check_defaults_within_max : TimeoutConfig R → Except (TimeoutConfig R)
  check_defaults_within_max t =
      if lt t.move_max_s t.move_default_s
      then raised (value_error "timeouts.move_default_s must be <= timeouts.move_max_s")
      else if lt t.navigate_max_s t.navigate_default_s
      then raised (value_error "timeouts.navigate_default_s must be <= timeouts.navigate_max_s")
      else ok t

  -- The bounds of the fields of TimeoutConfig, then its validator.
  unfoldable pub validate_timeouts : TimeoutConfig R → Except (TimeoutConfig R)
  unfolding check_defaults_within_max
  validate_timeouts t =
      if gt_zero t.move_default_s
        && gt_zero t.move_max_s
        && gt_zero t.navigate_default_s
        && gt_zero t.navigate_max_s
      then check_defaults_within_max t
      else raised (value_error "greater_than")

-- PerceptionConfig._check_camera_widths
unfoldable pub check_camera_widths : PerceptionConfig → Except PerceptionConfig
check_camera_widths p =
    if ltb p.camera_max_width_px_cap p.camera_max_width_px_default
    then raised
        (value_error "perception.camera_max_width_px_default must be <= camera_max_width_px_cap")
    else ok p
