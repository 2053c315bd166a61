-- ===== src/Scenarios/Tools.antt =====
-- Tools, calls and capabilities.
use ros2_mcp_server.Base.{String, ◌≡◌, refl, true, false, List, [], ◌∷◌, none, some, ok, All, map}
use ros2_mcp_server.Number.Fixed.{ℤ, fixed}
use ros2_mcp_server.Json.{Fields, end, field, str, num}
use ros2_mcp_server.Contracts.Core.{Confidence}
use ros2_mcp_server.Contracts.Config.{CapabilityConfig}
use ros2_mcp_server.Contracts.Discovery.{GraphSnapshot, TopicInfo, ActionInfo, CapabilityEntry}
use ros2_mcp_server.Validation.Engine.{validate}
use ros2_mcp_server.Mcp.Schemas.{McpToolSpec}
use ros2_mcp_server.Mcp.Provider.{CallContext, current_tools, handle_call}
use ros2_mcp_server.Mcp.Calls.{IsRefusal, handle_call-refused}
use ros2_mcp_server.Mcp.Offered.{Offered, current_tools-Offered}
use ros2_mcp_server.Capabilities.Inference.{infer}
use ros2_mcp_server.Capabilities.Inferred.{AllGrounded, infer-AllGrounded}
use ros2_mcp_server.Execution.Manager.Events.{init}
use ros2_mcp_server.Scenarios.Data.{m, safety_config, timeout_config}

abbrev topic : String → String → TopicInfo ℤ
topic name type_name = record {
  name = name;
  type_name = type_name;
  publishers = [];
  subscribers = [];
  qos_profiles = [];
  measured_hz = none;
  last_stamp = none;
  frame_id = none;
}

abbrev navigate_action : ActionInfo
navigate_action = record {
  name = "/navigate_to_pose";
  type_name = "nav2_msgs/action/NavigateToPose";
}

-- One motion base, two laser scanners of which none is the configured one, and Nav2.
abbrev snapshot : GraphSnapshot ℤ
snapshot = record {
  snapshot_version = 1;
  taken_at = m 0;
  nodes = [];
  topics =
      topic "/cmd_vel" "geometry_msgs/msg/Twist"
      ∷ topic "/odom" "nav_msgs/msg/Odometry"
      ∷ topic "/scan_front" "sensor_msgs/msg/LaserScan"
      ∷ topic "/scan_rear" "sensor_msgs/msg/LaserScan"
      ∷ [];
  services = [];
  actions = navigate_action ∷ [];
  tf_frames = "map" ∷ "odom" ∷ [];
}

abbrev overrides : CapabilityConfig
overrides = record {
  motion = record {
    enabled = true;
    backend = "cmd_vel";
    cmd_vel_topic = "/cmd_vel";
    odom_topic = "/odom";
  };
  navigation = record { enabled = true; backend = "nav2"; action_name = "/navigate_to_pose" };
  lidar = record { topic = "/scan" };
  camera = record { image_topic = "/image"; info_topic = "/info" };
  object_detection = record { backend = "stub" };
}

abbrev entries : List (CapabilityEntry ℤ)
entries = infer safety_config snapshot overrides

inferred_confidences :
    map {B = String × Confidence}
      (λ (e : CapabilityEntry ℤ). (e.capability_id, e.confidence))
      entries
    ≡ ("differential_drive_motion", Confidence.confirmed)
      ∷ ("autonomous_navigation", Confidence.confirmed)
      ∷ ("localization", Confidence.likely)
      ∷ ("range_sensing", Confidence.ambiguous)
      ∷ []
unfolding infer ros2_mcp_server.Capabilities.Ontology.infer_differential_drive_motion
    ros2_mcp_server.Capabilities.Ontology.infer_autonomous_navigation
    ros2_mcp_server.Capabilities.Ontology.infer_localization
    ros2_mcp_server.Capabilities.Ontology.infer_range_sensing
    ros2_mcp_server.Capabilities.Ontology.infer_visual_observation
    ros2_mcp_server.Capabilities.Ontology.infer_object_detection
inferred_confidences = refl

offered_names :
    map (λ (s : McpToolSpec ℤ). s.name) (current_tools entries)
    ≡ "robot.get_capabilities" ∷ "robot.get_state" ∷ "robot.move" ∷ "robot.stop" ∷ "robot.navigate"
      ∷ []
unfolding infer current_tools ros2_mcp_server.Base.get
    ros2_mcp_server.Capabilities.Ontology.infer_differential_drive_motion
    ros2_mcp_server.Capabilities.Ontology.infer_autonomous_navigation
    ros2_mcp_server.Capabilities.Ontology.infer_localization
    ros2_mcp_server.Capabilities.Ontology.infer_range_sensing
    ros2_mcp_server.Capabilities.Ontology.infer_visual_observation
    ros2_mcp_server.Capabilities.Ontology.infer_object_detection ros2_mcp_server.Base.put
offered_names = refl

infer-AllGrounded_example : AllGrounded snapshot (infer safety_config snapshot overrides)
infer-AllGrounded_example = infer-AllGrounded safety_config snapshot overrides

current_tools-Offered_example :
    All
      (Offered (infer safety_config snapshot overrides))
      (current_tools (infer safety_config snapshot overrides))
current_tools-Offered_example = current_tools-Offered (infer safety_config snapshot overrides)

abbrev context : CallContext ℤ
context = record {
  config_robot_id = "r1";
  factory_robot_id = "r1";
  safety_config = safety_config;
  timeout_config = timeout_config;
  fresh_id = "c1";
  now = m 0;
  start = m 0;
}

-- A translation without its distance.
abbrev incomplete : Fields ℤ
incomplete = field "direction" (str "forward") end

incomplete_refused : (validate "robot.move" incomplete).passed ≡ false
unfolding validate ros2_mcp_server.Mcp.Schemas.tool_by_name
    ros2_mcp_server.Validation.Schema.check_schema ros2_mcp_server.Validation.Schema.check_at
    ros2_mcp_server.Validation.Schema.check_type ros2_mcp_server.Validation.Schema.check_required
    ros2_mcp_server.Json.lookup ros2_mcp_server.Validation.Schema.find_property
    ros2_mcp_server.Validation.Schema.check_enum ros2_mcp_server.Validation.Schema.check_range
    ros2_mcp_server.Validation.Engine.semantic_check
incomplete_refused = refl

handle_call-refused_example :
    ((handle_call context "robot.move" incomplete "s1" init).1 ≡ init)
    × IsRefusal (handle_call context "robot.move" incomplete "s1" init).0
handle_call-refused_example =
    handle_call-refused context "robot.move" incomplete "s1" init incomplete_refused
