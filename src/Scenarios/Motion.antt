-- ===== src/Scenarios/Motion.antt =====
-- Commands through validation, the factory and the safety engine.
use ros2_mcp_server.Number.Fixed.{ℤ, fixed-IsOrdered}
use ros2_mcp_server.Contracts.Core.{Operation, SemanticCommand, motion_result, move_target}
use ros2_mcp_server.Contracts.Config.{validate_timeouts}
use ros2_mcp_server.Commands.Factory.{create, assemble}
use ros2_mcp_server.Commands.Timeout.{IsBounded, create-IsBounded}
use ros2_mcp_server.Scenarios.Data.{long_arguments, timeout_config}
use ros2_mcp_server.Base.{◌≡◌, refl, ◌↔◌, [], ◌∷◌, none, some, ok, get}
use ros2_mcp_server.Number.Fixed.{fixed}
use ros2_mcp_server.Contracts.Core.{allow}
use ros2_mcp_server.Safety.{check, check_rate_limit}
use ros2_mcp_server.Safety.Decision.{Returned, IsConsistent, check-IsConsistent}
use ros2_mcp_server.Contracts.Core.{SafetyOutcome}
use ros2_mcp_server.Safety.Safe.{MoveIsSafe, GoalIsSafe}
use ros2_mcp_server.Safety.Permission.{check-allow_iff_MoveIsSafe, check-allow_iff_GoalIsSafe}
use ros2_mcp_server.Safety.RateLimit.{fresh, log_calls, Limited, rate_limit-Limited}
use ros2_mcp_server.Scenarios.Data.{
  m, safety_config, pose, forward, goal, move_command, navigate_command, request,
}
use ros2_mcp_server.Safety.{
  resolve_constraints, check_target, check_move, check_navigate, check_position, check_hitl,
  distance_limit, predicted_xy,
}

abbrev allowed : SafetyOutcome ℤ
allowed = record {
  decision = allow;
  error = none;
  approval_reason = none;
  resolved_constraints = resolve_constraints safety_config;
}

-- A short move and a near goal are allowed; a move of 4 m needs approval, and one of 6 m is denied.
move_allowed :
    (check fresh (move_command "c1" (m 2)) (some pose) safety_config (m 10)).0 ≡ ok (allowed)
unfolding check check_rate_limit get check_target check_move
    ros2_mcp_server.Safety.predicted_move_endpoint ros2_mcp_server.Geometry.project_translation
    check_position ros2_mcp_server.Safety.within_geofence check_hitl
move_allowed = refl

goal_allowed :
    (check fresh (navigate_command "c1") (some pose) safety_config (m 10)).0 ≡ ok (allowed)
unfolding check check_rate_limit get check_target check_navigate
    ros2_mcp_server.Geometry.euclidean_distance check_position
    ros2_mcp_server.Safety.within_geofence check_hitl
goal_allowed = refl

in_rate : (check_rate_limit fresh (m 10) "s1" (m 2)).0 ≡ none
unfolding check_rate_limit get
in_rate = refl

check-IsConsistent_example :
    Returned
      (IsConsistent safety_config)
      (check fresh (move_command "c1" (m 4)) (some pose) safety_config (m 10)).0
check-IsConsistent_example =
    check-IsConsistent fresh (move_command "c1" (m 4)) (some pose) safety_config (m 10)

check-allow_iff_MoveIsSafe_example :
    ((allowed).decision ≡ allow) ↔ MoveIsSafe safety_config (forward (m 2)) (some pose)
check-allow_iff_MoveIsSafe_example =
    check-allow_iff_MoveIsSafe fresh (move_command "c1" (m 2)) (some pose) safety_config (m 10)
      in_rate move_allowed (forward (m 2)) refl refl

check-allow_iff_GoalIsSafe_example :
    ((allowed).decision ≡ allow) ↔ GoalIsSafe safety_config goal (some pose)
check-allow_iff_GoalIsSafe_example =
    check-allow_iff_GoalIsSafe fresh (navigate_command "c1") (some pose) safety_config (m 10)
      in_rate goal_allowed goal refl refl

rate_limit-Limited_example :
    Limited
      (m 2)
      (log_calls "s1"
        (m 2)
        (fresh, [])
        (("s1", m 10) ∷ ("s2", m 10) ∷ ("s1", m 10) ∷ ("s1", m 10) ∷ [])).1
rate_limit-Limited_example =
    rate_limit-Limited "s1" (m 2) (m 10)
      (("s1", m 10) ∷ ("s2", m 10) ∷ ("s1", m 10) ∷ ("s1", m 10) ∷ [])
      ((λ t h. h), ((λ t h. h), ((λ t h. h), ((λ t h. h), tt))))

abbrev built_move : SemanticCommand ℤ
built_move =
    assemble "r1" (request long_arguments) (move_target (forward (m 2))) none (m 120) motion_result

-- The caller asks for 500 seconds, and the configuration allows 120.
built : create "r1" (request long_arguments) ≡ ok built_move
unfolding create ros2_mcp_server.Commands.Factory.build_target ros2_mcp_server.Json.lookup
    ros2_mcp_server.Commands.Factory.frame_of ros2_mcp_server.Commands.Factory.resolve_timeout_s
    ros2_mcp_server.Commands.Factory.result_type_by_operation
built = refl

timeouts_accepted : validate_timeouts timeout_config ≡ ok timeout_config
unfolding validate_timeouts
timeouts_accepted = refl

create-IsBounded_example : IsBounded timeout_config Operation.move built_move.timeout_s
create-IsBounded_example =
    create-IsBounded fixed-IsOrdered "r1" (request long_arguments) timeout_config built_move
      timeouts_accepted built
