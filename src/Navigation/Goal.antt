-- ===== src/Navigation/Goal.antt =====
-- src/ros_mcp/adapters/navigation/nav2_plugin.py: `navigate` and `cancel_all`. `navigate` runs from one
-- await to the next in one step, which takes the answer of what it waited for; the handle that the
-- plugin keeps in `_active_goal_handle` is passed on, as other tasks read and write it too.
use ros2_mcp_server.Base.{
  ℕ, ltb, ◌==ℕ◌, String, Bool, ◌||◌, contains, sorted, List, [], ◌∷◌, Option, none, some, or_else,
  if◌then◌else◌, Exception, Except, ok, raised,
}
use ros2_mcp_server.Number.{Number, nat}
use ros2_mcp_server.Json.{str, arr, nil, cons, Items, Message, text, index}
use ros2_mcp_server.Contracts.Core.{
  ErrorCode, ToolError, plain_error, Pose2D, NavigateTarget, SemanticCommand,
}
use ros2_mcp_server.Contracts.Results.{FailReason, Status, Payload, ToolResult}
use ros2_mcp_server.Contracts.Discovery.{CapabilityEntry}
use ros2_mcp_server.Capabilities.Registry.{find_entry}
use ros2_mcp_server.Navigation.{
  TransformResult, Feedback, GoalMessage, Plugin, Instant, frame_of, goal_message,
  resolve_final_pose,
}

pub data Outcome : Type 0 where
  cancelled timed_out : Outcome

-- What `navigate` waits for, or how it ended.
pub data Stage (R : Type 0) : Type 0 where
  waiting_for_server localizing sending : Stage R
  polling : ℕ → Stage R  -- between two polls of the goal with this handle
  cancelling : Outcome → Stage R  -- for the answer to the request to cancel
  draining : Outcome → Stage R  -- for the goal to end after that
  locating : Option Outcome → Stage R  -- for the final pose
  ended : ToolResult R → Stage R
  raising : Exception → Stage R

-- What it has asked of the action server.
pub data Request (R : Type 0) : Type 0 where
  send_goal : GoalMessage R → Request R
  cancel_goal : ℕ → Request R

pub data Answer (R : Type 0) : Type 0 where
  server_ready : Bool → Answer R
  transform : TransformResult R → Answer R
  goal_handle : Bool → ℕ → Answer R  -- whether it is accepted
  slept : Answer R
  cancel_returned : Answer R  -- or raised, which is only logged
  waited : Except (Unit {0}) → Answer R  -- done or timed out, or the goal's exception
  failed : Exception → Answer R  -- what the wait for the server, a lookup or the sending raised

-- What `navigate` fixes at its start.
pub record Voyage (R : Type 0) : Type 0 where
  pub command : SemanticCommand R
  pub target : NavigateTarget R
  pub start_monotonic : R

pub record Stepped (R : Type 0) : Type 0 where
  pub active_goal_handle : Option ℕ
  pub requests : List (Request R)
  pub stage : Stage R

module _ {R : Type 0} where
  abbrev pub voyage : SemanticCommand R → NavigateTarget R → Instant R → Voyage R
  voyage command target i = record {
    command = command;
    target = target;
    start_monotonic = i.monotonic;
  }

  abbrev pub wait : Option ℕ → Stage R → Stepped R
  wait handle stage = record { active_goal_handle = handle; requests = []; stage = stage }

  abbrev pub ask : Option ℕ → Request R → Stage R → Stepped R
  ask handle request stage = record {
    active_goal_handle = handle;
    requests = request ∷ [];
    stage = stage;
  }

  abbrev names_of : List String → Items R
  names_of [] = nil
  names_of (s ∷ ss) = cons (str s) (names_of ss)

  abbrev pub frame : Voyage R → String
  frame v = frame_of v.command.frame

  -- `cancel_all`: what it asks of the server.
  unfoldable pub cancel_all : Option ℕ → List (Request R)
  cancel_all none = []
  cancel_all (some handle) = cancel_goal handle ∷ []

module _ {R : Type 0} ⦃n : Number R⦄ where
  open n use {le, plus, minus}

  unfoldable pub fail :
      Voyage R
      → Instant R
      → ToolError R
      → Option FailReason
      → Option (Pose2D R)
      → Option R
      → ToolResult R
  fail v i error fail_reason final_pose distance_remaining_m = record {
    status = Status.failed;
    command_id = v.command.command_id;
    robot_id = v.command.robot_id;
    duration_sec = minus i.monotonic v.start_monotonic;
    error = some error;
    payload = Payload.navigated (record {
      final_pose = final_pose;
      distance_remaining_m = distance_remaining_m;
      fail_reason = fail_reason;
    });
  }

  unfoldable pub arrived : Voyage R → Instant R → Option (Pose2D R) → ToolResult R
  arrived v i final_pose = record {
    status = Status.succeeded;
    command_id = v.command.command_id;
    robot_id = v.command.robot_id;
    duration_sec = minus i.monotonic v.start_monotonic;
    error = none;
    payload = Payload.navigated (record {
      final_pose = final_pose;
      distance_remaining_m = some (nat 0);
      fail_reason = none;
    });
  }

  abbrev pub refused : Voyage R → Instant R → ErrorCode → Message R → Stage R
  refused v i code message = ended (fail v i (plain_error code message) none none none)

  abbrev pub unknown_frame : Voyage R → Instant R → Stage R
  unknown_frame v i = ended (
      fail v i
        (record {
          code = ErrorCode.invalid_frame;
          message = text "unknown frame '" ∷ text (frame v) ∷ text "'" ∷ [];
          details = ("known_frames", arr (names_of (sorted i.known_frames))) ∷ [];
        })
        none none none)

  -- `navigate` up to its first await. That the target is a NavigateTarget, which the code asserts, is
  -- the type of its argument.
  unfoldable pub begin : Voyage R → Option ℕ → Instant R → Stepped R
  begin v handle i =
      wait handle
        (if contains i.known_frames (frame v) then waiting_for_server else unknown_frame v i)

  abbrev pub on_entry : Voyage R → Instant R → Option (CapabilityEntry R) → Stage R
  on_entry v i none =
      refused v i ErrorCode.capability_unavailable
        (text "robot is not localized (no localization capability)" ∷ [])
  on_entry v i (some entry) = localizing

  unfoldable pub on_server : Voyage R → Bool → Instant R → Stage R
  on_server v ready i =
      if ready
      then on_entry v i (find_entry "localization" i.entries)
      else refused v i ErrorCode.capability_unavailable
          (text "Nav2 action server is not responding" ∷ [])

  unfoldable pub on_localization :
      Plugin → Voyage R → Option ℕ → TransformResult R → Instant R → Stepped R
  on_localization p v handle tf i =
      if tf.ok
      then ask handle (send_goal (goal_message (frame v) v.target)) sending
      else wait handle (
          refused v i ErrorCode.capability_unavailable (
            text "map->"
            ∷ text p.base_frame
            ∷ text " transform unavailable ("
            ∷ text (or_else tf.error "None")
            ∷ text ")"
            ∷ []))

  abbrev pub is_late : Voyage R → Instant R → Bool
  is_late v i = i.deadline_exceeded || le (plus v.start_monotonic v.command.timeout_s) i.monotonic

  -- One test of the loop and its body, up to the next await; the loop ends with the handle given up.
  abbrev pub poll : Voyage R → ℕ → Option (Except ℕ) → Instant R → Stepped R
  poll v handle (some result) i = wait none (locating none)
  poll v handle none i =
      if i.is_cancelled
      then ask (some handle) (cancel_goal handle) (cancelling cancelled)
      else if is_late v i
      then ask (some handle) (cancel_goal handle) (cancelling timed_out)
      else wait (some handle) (polling handle)

  unfoldable pub on_goal_handle : Voyage R → Option ℕ → Bool → ℕ → Instant R → Stepped R
  on_goal_handle v active accepted handle i =
      if accepted
      then poll v handle i.result i
      else wait active (
          ended (
            fail v i
              (plain_error ErrorCode.navigation_failed
                (text "Nav2 rejected the navigation goal" ∷ []))
              (some FailReason.goal_rejected) none none))

  abbrev pub distance_remaining : Option (Feedback R) → Option R
  distance_remaining none = none
  distance_remaining (some f) = some f.distance_remaining_m

  abbrev pub recoveries : Option (Feedback R) → ℕ
  recoveries none = 0
  recoveries (some f) = f.number_of_recoveries

  abbrev pub failed_with :
      Voyage R → Instant R → Option (Pose2D R) → ErrorCode → Message R → Option FailReason → Stage R
  failed_with v i final_pose code message reason =
      ended (fail v i (plain_error code message) reason final_pose (distance_remaining i.feedback))

  -- By the status of the goal.
  unfoldable pub by_status : Plugin → Voyage R → Option (Pose2D R) → ℕ → Instant R → Stage R
  by_status p v final_pose status i =
      if status ==ℕ p.status_succeeded
      then ended (arrived v i final_pose)
      else if status ==ℕ p.status_canceled
      then failed_with v i final_pose ErrorCode.cancelled (text "navigation was canceled" ∷ [])
          (some FailReason.cancelled)
      else failed_with v i final_pose ErrorCode.navigation_failed
          (text "Nav2 goal ended with status " ∷ index status ∷ [])
          (some (
            if ltb 0 (recoveries i.feedback)
            then FailReason.controller_failure
            else FailReason.planner_failure))

  abbrev pub by_result :
      Plugin → Voyage R → Option (Pose2D R) → Option (Except ℕ) → Instant R → Stage R
  by_result p v final_pose none i =
      failed_with v i final_pose ErrorCode.internal_error
        (text "navigation result future never completed" ∷ []) none
  by_result p v final_pose (some (raised e)) i = raising e
  by_result p v final_pose (some (ok status)) i = by_status p v final_pose status i

  -- The end of `navigate`.
  abbrev pub conclude : Plugin → Voyage R → Option Outcome → Option (Pose2D R) → Instant R → Stage R
  conclude p v (some cancelled) final_pose i =
      failed_with v i final_pose ErrorCode.cancelled (text "navigation cancelled" ∷ [])
        (some FailReason.cancelled)
  conclude p v (some timed_out) final_pose i =
      failed_with v i final_pose ErrorCode.action_timeout
        (text "navigation exceeded its timeout" ∷ []) (some FailReason.cancelled)
  conclude p v none final_pose i = by_result p v final_pose i.result i

  abbrev pub on_pose :
      Plugin → Voyage R → Option Outcome → Except (Option (Pose2D R)) → Instant R → Stage R
  on_pose p v outcome (raised e) i = raising e
  on_pose p v outcome (ok final_pose) i = conclude p v outcome final_pose i

  -- The stretch after an await. An answer to something else does not occur, and changes nothing.
  unfoldable pub step : Plugin → Voyage R → Answer R → Instant R → Option ℕ → Stage R → Stepped R
  step p v (server_ready ready) i active waiting_for_server = wait active (on_server v ready i)
  step p v (transform tf) i active localizing = on_localization p v active tf i
  step p v (goal_handle accepted handle) i active sending =
      on_goal_handle v active accepted handle i
  step p v slept i active (polling handle) = poll v handle i.result i
  step p v cancel_returned i active (cancelling outcome) = wait active (draining outcome)
  step p v (waited (ok _)) i active (draining outcome) = wait none (locating (some outcome))
  step p v (waited (raised e)) i active (draining outcome) = wait active (raising e)
  step p v (transform tf) i active (locating outcome) =
      wait active (on_pose p v outcome (resolve_final_pose tf i) i)
  step p v (failed e) i active waiting_for_server = wait active (raising e)
  step p v (failed e) i active localizing = wait active (raising e)
  step p v (failed e) i active sending = wait active (raising e)
  step p v (failed e) i active (locating outcome) = wait active (raising e)
  step p v answer i active stage = wait active stage
