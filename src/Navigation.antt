-- ===== src/Navigation.antt =====
-- src/ros_mcp/adapters/navigation/nav2_plugin.py: `Nav2NavigationPlugin`. The action server of Nav2 is
-- not part of the program: its answers, those of the TF buffer, and the two status codes of the ROS
-- package that the code compares with are arguments. The goal's way is in Goal.
pub mod Goal
pub mod Voyages
pub mod Life
pub mod Arrival
pub mod Progress
use ros2_mcp_server.Base.{
  ℕ, ltb, String, Bool, true, false, not, Option, none, some, List, ◌==◌, if◌then◌else◌, Except, ok,
  raised, assertion_error, Exception, ◌>>=◌, assert_some,
}
use ros2_mcp_server.Number.{Number, nat}
use ros2_mcp_server.Geometry.{Quaternion, quaternion_to_yaw, yaw_to_quaternion}
use ros2_mcp_server.Contracts.Core.{Confidence, Pose2D, NavigateTarget, SemanticCommand}
use ros2_mcp_server.Contracts.Discovery.{CapabilityEntry}
use ros2_mcp_server.Capabilities.Registry.{find_entry}

pub record TransformResult (R : Type 0) : Type 0 where
  pub ok : Bool
  pub x : Option R
  pub y : Option R
  pub yaw : Option R
  pub error : Option String

-- What the callback of the feedback has kept; its keys are set together.
pub record Feedback (R : Type 0) : Type 0 where
  pub distance_remaining_m : R
  pub number_of_recoveries : ℕ
  pub current_x : R
  pub current_y : R
  pub current_qz : R
  pub current_qw : R

pub record GoalMessage (R : Type 0) : Type 0 where
  pub frame_id : String
  pub x : R
  pub y : R
  pub orientation : Quaternion R

pub record Plugin : Type 0 where
  pub base_frame : String
  pub status_succeeded : ℕ
  pub status_canceled : ℕ

-- What the code reads between two awaits. `result` is the answer to the goal, once `result_task` is
-- done.
pub record Instant (R : Type 0) : Type 0 where
  pub is_cancelled : Bool
  pub deadline_exceeded : Bool
  pub monotonic : R
  pub now : R
  pub known_frames : List String
  pub entries : List (CapabilityEntry R)
  pub feedback : Option (Feedback R)
  pub result : Option (Except ℕ)

abbrev pub is_usable : {R : Type 0} → Option (CapabilityEntry R) → Bool
is_usable none = false
is_usable (some entry) = elim entry.confidence [ Confidence.ambiguous ↦ false | _ ↦ true ]

module _ {R : Type 0} where
  unfoldable pub is_available : Instant R → Bool
  is_available i = is_usable (find_entry "autonomous_navigation" i.entries)

-- `command.frame or "map"`
abbrev pub frame_of : Option String → String
frame_of none = "map"
frame_of (some frame) = if frame == "" then "map" else frame

module _ {R : Type 0} ⦃n : Number R⦄ where
  abbrev pub orientation_of : Option R → Quaternion R
  orientation_of none = record { x = nat 0; y = nat 0; z = nat 0; w = nat 1 }
  orientation_of (some yaw) = yaw_to_quaternion yaw

  unfoldable pub goal_message : String → NavigateTarget R → GoalMessage R
  goal_message frame target = record {
    frame_id = frame;
    x = target.x;
    y = target.y;
    orientation = orientation_of target.yaw;
  }

  abbrev map_pose : R → R → R → R → Pose2D R
  map_pose x y yaw stamp = record { x = x; y = y; yaw = yaw; frame = "map"; stamp = stamp }

  abbrev pose_of_feedback : R → Option (Feedback R) → Option (Pose2D R)
  pose_of_feedback now none = none
  pose_of_feedback now (some f) =
      let yaw =
        quaternion_to_yaw (record { x = nat 0; y = nat 0; z = f.current_qz; w = f.current_qw }) in
      some (map_pose f.current_x f.current_y yaw now)

  -- With the answer of the TF buffer.
  unfoldable pub resolve_final_pose : TransformResult R → Instant R → Except (Option (Pose2D R))
  resolve_final_pose tf i =
      if tf.ok
      then assert_some tf.x >>= (λ x.
        assert_some tf.y
        >>= (λ y. assert_some tf.yaw >>= (λ yaw. ok (some (map_pose x y yaw i.now)))))
      else ok (pose_of_feedback i.now i.feedback)
