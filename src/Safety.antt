-- ===== src/Safety.antt =====
-- src/ros_mcp/safety/policy_engine.py: the check that stands before every motion.
-- A method that changes `_rate_limit_history` returns the engine with its result. The clock is read
-- once, by the rate limit, and its value is the argument `now`; the configuration is read afresh on
-- each check and is the argument `safety`.
pub mod Decision
pub mod Endpoint
pub mod Permission
pub mod RateLimit
pub mod Safe
use ros2_mcp_server.Base.{
  String, Bool, true, false, not, ◌&&◌, ◌||◌, List, [], ◌∷◌, ◌++◌, Option, none, some, ◌==◌, get,
  put, if◌then◌else◌, Except, ok, raised, assertion_error, Dict, ◌>>=◌, length, keep, or_else,
}
use ros2_mcp_server.Number.{Number, nat}
use ros2_mcp_server.Json.{Json, num, str, text, number, fixed2, Message}
use ros2_mcp_server.Contracts.Core.{
  Operation, ErrorCode, ToolError, plain_error, Pose2D, SafetyConstraints, MoveTarget,
  NavigateTarget, Target, move_target, navigate_target, SemanticCommand, allow, deny,
  require_approval, SafetyOutcome,
}
use ros2_mcp_server.Contracts.Config.{
  SafetyConfig, GeofenceConfig, ApprovalPolicy, automatic, policy_based, always_human,
}
use ros2_mcp_server.Geometry.{euclidean_distance, project_translation}

-- `_rate_limit_history` is a defaultdict(list): a session that is absent has no history.
pub record SafetyEngine (R : Type 0) : Type 0 where
  pub rate_limit_history : Dict (List R)

abbrev pub is_rotation : String → Bool
is_rotation direction = direction == "rotate_left" || direction == "rotate_right"

abbrev pub is_stop : Operation → Bool
is_stop Operation.stop = true
is_stop _ = false

module _ {R : Type 0} where
  unfoldable pub resolve_constraints : SafetyConfig R → SafetyConstraints R
  resolve_constraints safety = record {
    max_linear_mps = safety.max_linear_mps;
    max_angular_rps = safety.max_angular_rps;
    max_linear_acceleration_mps2 = safety.max_linear_acceleration_mps2;
    max_angular_acceleration_rps2 = safety.max_angular_acceleration_rps2;
    max_move_distance_m = safety.max_move_distance_m;
    max_navigation_distance_m = safety.max_navigation_distance_m;
    obstacle_stop_distance_m = safety.obstacle_stop_distance_m;
  }

module _ {R : Type 0} ⦃n : Number R⦄ where
  open n use {lt, le, minus}

  unfoldable pub predicted_move_endpoint : MoveTarget R → Pose2D R → Except (R × R)
  predicted_move_endpoint target pose = elim target.distance_m [
    | none ↦ ok (pose.x, pose.y)
    | some distance_m ↦
        if is_rotation target.direction
        then ok (pose.x, pose.y)
        else project_translation target.direction distance_m pose.x pose.y pose.yaw
  ]

  unfoldable pub within_geofence : R → R → SafetyConfig R → Bool
  within_geofence x y safety =
      (le fence.min_x x && le x fence.max_x) && (le fence.min_y y && le y fence.max_y)
    where
      fence : GeofenceConfig R
      fence = safety.geofence

  -- The entries of the last second.
  abbrev pub recent : R → List R → List R
  recent now history = let window_start = minus now (nat 1) in keep (le window_start) history

  rate_error : String → R → ToolError R
  rate_error session_id rate_limit_rps = record {
    code = ErrorCode.permission_denied;
    message = text "rate limit exceeded (" ∷ number rate_limit_rps ∷ text " commands/sec)" ∷ [];
    details = ("session_id", str session_id) ∷ [];
  }

  unfoldable pub check_rate_limit :
      SafetyEngine R → R → String → R → Option (ToolError R) × SafetyEngine R
  unfolding rate_error
  check_rate_limit engine now session_id rate_limit_rps =
      let history = recent now (or_else (get session_id engine.rate_limit_history) []) in
      if le rate_limit_rps (nat (length history))
      then (
        some (rate_error session_id rate_limit_rps),
        record engine { rate_limit_history = put session_id history engine.rate_limit_history },
      )
      else (
        none,
        record engine {
          rate_limit_history = put session_id (history ++ now ∷ []) engine.rate_limit_history;
        },
      )

  policy_reason : SafetyConfig R → R → Option (Message R)
  policy_reason safety distance_m =
      let threshold = safety.human_approval.required_above_distance_m in
      if lt threshold distance_m
      then some (
          text "this command will move the robot approximately "
          ∷ fixed2 distance_m
          ∷ text "m; the configured limit for automatic approval is "
          ∷ number threshold
          ∷ text "m"
          ∷ [])
      else none

  hitl : ApprovalPolicy → SafetyConfig R → Option R → Option (Message R)
  unfolding policy_reason
  hitl automatic safety distance_m = none
  hitl always_human safety distance_m = some (
      text "human approval is required for all motion commands (approval_policy=always_human)" ∷ [])
  hitl policy_based safety none = none
  hitl policy_based safety (some distance_m) = policy_reason safety distance_m

  unfoldable pub check_hitl : SafetyConfig R → Option R → Option (Message R)
  unfolding hitl
  check_hitl safety distance_m = hitl safety.approval_policy safety distance_m

  outside : SafetyConfig R → Option (R × R) → Bool
  outside safety none = false
  outside safety (some (x, y)) = not (within_geofence x y safety)

  fence_details : Option (R × R) → List (String × Json R)
  fence_details none = []
  fence_details (some (x, y)) = ("predicted_x", num x) ∷ ("predicted_y", num y) ∷ []

  -- Steps 4 and 6 of `check`, on the distance and the predicted position that step 3 left.
  unfoldable pub check_position : SafetyConfig R → Option R → Option (R × R) → SafetyOutcome R
  unfolding outside fence_details
  check_position safety distance_m predicted_xy =
      if safety.geofence.enabled && outside safety predicted_xy
      then record {
        decision = deny;
        error = some (record {
          code = ErrorCode.safety_rejected;
          message = text "predicted position lies outside the configured geofence" ∷ [];
          details = fence_details predicted_xy;
        });
        approval_reason = none;
        resolved_constraints = resolve_constraints safety;
      }
      else elim (check_hitl safety distance_m) [
        | none ↦ record {
          decision = allow;
          error = none;
          approval_reason = none;
          resolved_constraints = resolve_constraints safety;
        }
        | some reason ↦ record {
          decision = require_approval;
          error = none;
          approval_reason = some reason;
          resolved_constraints = resolve_constraints safety;
        }
      ]

  move_distance_error : SafetyConfig R → R → ToolError R
  move_distance_error safety distance_m = record {
    code = ErrorCode.safety_rejected;
    message =
        text "requested move distance "
        ∷ number distance_m
        ∷ text "m exceeds the configured limit of "
        ∷ number safety.max_move_distance_m
        ∷ text "m"
        ∷ [];
    details =
        ("requested_distance_m", num distance_m)
        ∷ ("max_move_distance_m", num safety.max_move_distance_m)
        ∷ [];
  }

  navigation_distance_error : SafetyConfig R → R → ToolError R
  navigation_distance_error safety distance_m = record {
    code = ErrorCode.safety_rejected;
    message =
        text "requested navigation distance "
        ∷ fixed2 distance_m
        ∷ text "m exceeds the configured limit of "
        ∷ number safety.max_navigation_distance_m
        ∷ text "m"
        ∷ [];
    details =
        ("requested_distance_m", num distance_m)
        ∷ ("max_navigation_distance_m", num safety.max_navigation_distance_m)
        ∷ [];
  }

  -- `distance_m` of a move: none for a rotation.
  abbrev pub move_distance : MoveTarget R → Option R
  move_distance target = if is_rotation target.direction then none else target.distance_m

  -- 3. Distance limit.
  pub distance_limit : SafetyConfig R → Option R → Option (ToolError R)
  unfolding move_distance_error
  distance_limit safety none = none
  distance_limit safety (some distance_m) =
      if lt safety.max_move_distance_m distance_m
      then some (move_distance_error safety distance_m)
      else none

  pub predicted_xy : MoveTarget R → Option (Pose2D R) → Except (Option (R × R))
  predicted_xy target none = ok none
  predicted_xy target (some pose) = do xy ← predicted_move_endpoint target pose; ok (some xy)

  -- The branch of `check` for Operation.MOVE.
  unfoldable pub check_move :
      SafetyConfig R → MoveTarget R → Option (Pose2D R) → Except (SafetyOutcome R)
  unfolding distance_limit predicted_xy
  check_move safety target current_pose = elim (distance_limit safety (move_distance target)) [
    | some e ↦ ok (record {
      decision = deny;
      error = some (e);
      approval_reason = none;
      resolved_constraints = resolve_constraints safety;
    })
    | none ↦ predicted_xy target current_pose >>= λ xy.
        ok (check_position safety (move_distance target) xy)
  ]

  -- The branch of `check` for Operation.NAVIGATE.
  unfoldable pub check_navigate :
      SafetyConfig R → NavigateTarget R → Option (Pose2D R) → SafetyOutcome R
  unfolding navigation_distance_error
  check_navigate safety target none = record {
    decision = deny;
    error = some (
        plain_error ErrorCode.robot_not_ready
          (text "cannot validate navigation distance without a known current pose" ∷ []));
    approval_reason = none;
    resolved_constraints = resolve_constraints safety;
  }
  check_navigate safety target (some pose) =
      let distance_m = euclidean_distance pose.x pose.y target.x target.y in
      if lt safety.max_navigation_distance_m distance_m
      then record {
        decision = deny;
        error = some (navigation_distance_error safety distance_m);
        approval_reason = none;
        resolved_constraints = resolve_constraints safety;
      }
      else check_position safety (some distance_m) (some (target.x, target.y))

  -- What follows the rate limit. The two `assert isinstance` stand in the target's clauses.
  unfoldable pub check_target :
      SafetyConfig R → Operation → Target R → Option (Pose2D R) → Except (SafetyOutcome R)
  check_target safety Operation.move (move_target t) pose = check_move safety t pose
  check_target safety Operation.move _ pose = raised assertion_error
  check_target safety Operation.navigate (navigate_target t) pose =
      ok (check_navigate safety t pose)
  check_target safety Operation.navigate _ pose = raised assertion_error
  check_target safety _ _ pose = ok (check_position safety none none)

  unfoldable pub check :
      SafetyEngine R
      → SemanticCommand R
      → Option (Pose2D R)
      → SafetyConfig R
      → R
      → Except (SafetyOutcome R) × SafetyEngine R
  check engine command current_pose safety now =
      if is_stop command.operation
      then (
        ok (record {
          decision = allow;
          error = none;
          approval_reason = none;
          resolved_constraints = resolve_constraints safety;
        }),
        engine,
      )
      else let (rate_error, engine') =
          check_rate_limit engine now command.session_id safety.rate_limit_rps in
        elim rate_error [
          | some e ↦ (
            ok (record {
              decision = deny;
              error = some (e);
              approval_reason = none;
              resolved_constraints = resolve_constraints safety;
            }),
            engine',
          )
          | none ↦ (check_target safety command.operation command.target current_pose, engine')
        ]
