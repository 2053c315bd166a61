-- ===== src/Capabilities/Ontology.antt =====
-- src/ros_mcp/capabilities/ontology.py: one function per capability, on a snapshot of the ROS graph
-- and the configuration.
use ros2_mcp_server.Base.{
  String, not, ◌&&◌, List, [], ◌∷◌, Option, none, some, ◌==◌, ltb, if◌then◌else◌, Dict, length,
  keep, find, sole, contains,
}
use ros2_mcp_server.Contracts.Core.{Confidence, confirmed, likely, ambiguous}
use ros2_mcp_server.Contracts.Config.{
  CapabilityConfig, MotionCapabilityConfig, NavigationCapabilityConfig, SafetyConfig,
}
use ros2_mcp_server.Contracts.Discovery.{TopicInfo, ActionInfo, GraphSnapshot, CapabilityEntry}

abbrev pub twist_types : List String
twist_types = "geometry_msgs/msg/Twist" ∷ "geometry_msgs/msg/TwistStamped" ∷ []

abbrev pub image_types : List String
image_types = "sensor_msgs/msg/Image" ∷ "sensor_msgs/msg/CompressedImage" ∷ []

abbrev pub odom_type : String
odom_type = "nav_msgs/msg/Odometry"

abbrev pub laser_scan_type : String
laser_scan_type = "sensor_msgs/msg/LaserScan"

abbrev pub pose_with_cov_type : String
pose_with_cov_type = "geometry_msgs/msg/PoseWithCovarianceStamped"

abbrev pub navigate_to_pose_type : String
navigate_to_pose_type = "nav2_msgs/action/NavigateToPose"

-- What the search for a named interface gives: its confidence, and the name it found.
pub data Match : Type 0 where
  exactly : String → Match
  only : String → Match
  unclear : Match

abbrev pub match_confidence : Match → Confidence
match_confidence (exactly name) = confirmed
match_confidence (only name) = likely
match_confidence unclear = ambiguous

abbrev pub resolved : String → Match → Dict String
resolved key (exactly name) = (key, name) ∷ []
resolved key (only name) = (key, name) ∷ []
resolved key unclear = []

abbrev pub match_action : Option ActionInfo → Option ActionInfo → Confidence × String
match_action (some a) other = (confirmed, a.name)
match_action none (some a) = (likely, a.name)
match_action none none = (ambiguous, "")

module _ {R : Type 0} where
  abbrev pub topics_of_type : GraphSnapshot R → String → List (TopicInfo R)
  topics_of_type snapshot type_name = keep (λ t. t.type_name == type_name) snapshot.topics

  abbrev pub topics_of_types : GraphSnapshot R → List String → List (TopicInfo R)
  topics_of_types snapshot type_names = keep (λ t. contains type_names t.type_name) snapshot.topics

  abbrev pub named : String → List (TopicInfo R) → Option (TopicInfo R)
  named name = find (λ t. t.name == name)

  abbrev pub match_one : Option (TopicInfo R) → Option (TopicInfo R) → Match
  match_one (some t) other = exactly t.name
  match_one none (some t) = only t.name
  match_one none none = unclear

  unfoldable pub resolve_single_topic_capability :
      String → String → String → List (TopicInfo R) → String → Option (CapabilityEntry R)
  resolve_single_topic_capability capability_id backend_id configured_name [] resolved_key = none
  resolve_single_topic_capability capability_id backend_id configured_name (t ∷ ts) resolved_key =
      let found = match_one (named configured_name (t ∷ ts)) (sole (t ∷ ts)) in
      some (record {
        capability_id = capability_id;
        confidence = match_confidence found;
        backend_id = some backend_id;
        resolved_topics = resolved resolved_key found;
        limits = [];
      })

  -- The two names of a motion base, both configured or both without a rival.
  abbrev pub match_motion :
      Option (TopicInfo R)
      → Option (TopicInfo R)
      → Option (TopicInfo R)
      → Option (TopicInfo R)
      → Confidence × Dict String
  match_motion (some c) (some o) _ _ = (confirmed, ("cmd_vel", c.name) ∷ ("odom", o.name) ∷ [])
  match_motion _ _ (some c) (some o) = (likely, ("cmd_vel", c.name) ∷ ("odom", o.name) ∷ [])
  match_motion _ _ _ _ = (ambiguous, [])

  abbrev pub motion_entry :
      MotionCapabilityConfig
      → SafetyConfig R
      → List (TopicInfo R)
      → List (TopicInfo R)
      → Option (CapabilityEntry R)
  motion_entry cfg safety [] _ = none
  motion_entry cfg safety _ [] = none
  motion_entry cfg safety (t ∷ ts) (o ∷ os) =
      let twists = t ∷ ts in
      let odoms = o ∷ os in
      let (confidence, topics) =
        match_motion (named cfg.cmd_vel_topic twists) (named cfg.odom_topic odoms) (sole twists)
          (sole odoms) in
      some (record {
        capability_id = "differential_drive_motion";
        confidence = confidence;
        backend_id = some "cmd_vel";
        resolved_topics = topics;
        limits =
            ("max_linear_mps", safety.max_linear_mps)
            ∷ ("max_angular_rps", safety.max_angular_rps)
            ∷ ("max_move_distance_m", safety.max_move_distance_m)
            ∷ [];
      })

  unfoldable pub infer_differential_drive_motion :
      GraphSnapshot R → CapabilityConfig → SafetyConfig R → Option (CapabilityEntry R)
  infer_differential_drive_motion snapshot overrides safety =
      if not overrides.motion.enabled
      then none
      else motion_entry overrides.motion safety (topics_of_types snapshot twist_types)
          (topics_of_type snapshot odom_type)

  abbrev pub navigation_entry :
      NavigationCapabilityConfig → SafetyConfig R → List ActionInfo → Option (CapabilityEntry R)
  navigation_entry cfg safety [] = none
  navigation_entry cfg safety (a ∷ rest) =
      let matching = a ∷ rest in
      let (confidence, action_name) =
        match_action (find (λ b. b.name == cfg.action_name) matching) (sole matching) in
      some (record {
        capability_id = "autonomous_navigation";
        confidence = confidence;
        backend_id = some "nav2";
        resolved_topics =
            if action_name == "" then [] else ("navigate_to_pose_action", action_name) ∷ [];
        limits = ("max_navigation_distance_m", safety.max_navigation_distance_m) ∷ [];
      })

  unfoldable pub infer_autonomous_navigation :
      GraphSnapshot R → CapabilityConfig → SafetyConfig R → Option (CapabilityEntry R)
  infer_autonomous_navigation snapshot overrides safety =
      if not overrides.navigation.enabled
      then none
      else navigation_entry overrides.navigation safety
          (keep (λ a. a.type_name == navigate_to_pose_type) snapshot.actions)

  abbrev pub localization_entry : Confidence → String → Dict String → CapabilityEntry R
  localization_entry confidence backend_id topics = record {
    capability_id = "localization";
    confidence = confidence;
    backend_id = some backend_id;
    resolved_topics = topics;
    limits = [];
  }

  unfoldable pub infer_localization :
      GraphSnapshot R → CapabilityConfig → Option (CapabilityEntry R)
  infer_localization snapshot overrides =
      elim (named "/amcl_pose" (topics_of_type snapshot pose_with_cov_type)) [
        | some t ↦ some (localization_entry confirmed "amcl" (("amcl_pose", t.name) ∷ []))
        | none ↦
            if contains snapshot.tf_frames "map" && ltb 1 (length snapshot.tf_frames)
            then some (localization_entry likely "tf" [])
            else none
      ]

  unfoldable pub infer_range_sensing :
      GraphSnapshot R → CapabilityConfig → Option (CapabilityEntry R)
  unfolding resolve_single_topic_capability
  infer_range_sensing snapshot overrides =
      resolve_single_topic_capability "range_sensing" "laser_scan" overrides.lidar.topic
        (topics_of_type snapshot laser_scan_type) "scan"

  unfoldable pub infer_visual_observation :
      GraphSnapshot R → CapabilityConfig → Option (CapabilityEntry R)
  unfolding resolve_single_topic_capability
  infer_visual_observation snapshot overrides =
      resolve_single_topic_capability "visual_observation" "camera" overrides.camera.image_topic
        (topics_of_types snapshot image_types) "image"

  unfoldable pub infer_object_detection :
      Option (CapabilityEntry R) → CapabilityConfig → Option (CapabilityEntry R)
  infer_object_detection none overrides = none
  infer_object_detection (some visual) overrides = some (record {
    capability_id = "object_detection";
    confidence = visual.confidence;
    backend_id = some overrides.object_detection.backend;
    resolved_topics = visual.resolved_topics;
    limits = [];
  })
