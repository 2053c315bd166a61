-- ===== src/Safety/Permission.antt =====
-- When `DefaultSafetyPolicyEngine.check` lets a move or a goal through: the description of Safety/Safe,
-- which the engine's decision meets in both directions.
use ros2_mcp_server.Base.{
  ◌≡◌, refl, ◌↔◌, false, ◌&&◌, Option, none, some, arith, Except, ok, subst, Bool-cases, inl, inr,
}
use ros2_mcp_server.Number.{Number}
use ros2_mcp_server.Contracts.Core.{
  Operation, Pose2D, MoveTarget, NavigateTarget, move_target, navigate_target, SemanticCommand,
  allow, SafetyOutcome,
}
use ros2_mcp_server.Contracts.Config.{SafetyConfig, policy_based}
use ros2_mcp_server.Geometry.{euclidean_distance}
use ros2_mcp_server.Safety.Safe.{
  Inside, NotAbove, IsUnattended, EndsAt, MoveIsSafe, GoalIsSafe, Away,
}
use ros2_mcp_server.Safety.Endpoint.{
  within_geofence-InFence, move_distance-Covers, predicted-EndsAt,
}
use ros2_mcp_server.Safety.{
  SafetyEngine, is_stop, move_distance, predicted_xy, distance_limit, outside, check_hitl,
  check_position, check_move, check_navigate, check_target, check_rate_limit, check,
}
use ros2_mcp_server.Safety.Decision.{MoveCase, too_far, predicted, unpredicted, check_move-MoveCase}

module _ {R : Type 0} ⦃n : Number R⦄ where
  open n use {lt}

  abbrev InsideIf : SafetyConfig R → Option (R × R) → Type 0
  InsideIf safety none = Unit
  InsideIf safety (some xy) = Inside safety xy

  -- The distance that the check has, if it has one.
  abbrev Is : Option R → R → Type 0
  Is o d = o ≡ some d

  IsUnattended-map :
      {safety : SafetyConfig R} {P Q : R → Type 0}
      → ((d : R) → Q d → P d)
      → IsUnattended safety P
      → IsUnattended safety Q
  IsUnattended-map f u = record { not_always = u.not_always; below = λ e d h. u.below e d (f d h) }

  IsUnattended-of_none :
      (safety : SafetyConfig R) (d : Option R)
      → check_hitl safety d ≡ none
      → IsUnattended safety (Is d)
  unfolding check_hitl
  IsUnattended-of_none safety none h = record {
    not_always = ground arith;
    below = λ e x k. absurd (cc);
  }
  IsUnattended-of_none safety (some d) h = record {
    not_always = ground arith;
    below = λ e x k. ground arith;
  }

  none_of-IsUnattended :
      (safety : SafetyConfig R) (d : Option R)
      → IsUnattended safety (Is d)
      → check_hitl safety d ≡ none
  unfolding check_hitl
  none_of-IsUnattended safety none u = ground (arith, u.not_always)
  none_of-IsUnattended safety (some d) u =
      let near : (safety.approval_policy ≡ policy_based
          → lt safety.human_approval.required_above_distance_m d ≡ false) =
        λ e. u.below e d refl in
      ground (arith, u.not_always, near)

  not_outside :
      (safety : SafetyConfig R) (xy : Option (R × R))
      → InsideIf safety xy ↔ ((safety.geofence.enabled && outside safety xy) ≡ false)
  unfolding outside
  not_outside safety none = (λ _. ground arith, λ _. tt)
  not_outside safety (some (x, y)) =
      let fence = within_geofence-InFence safety x y in
      (
        λ h. elim (Bool-cases safety.geofence.enabled) [
          | inl e ↦ ground (arith, e, fence.1 (h e))
          | inr e ↦ ground (arith, e)
        ],
        λ h e. fence.0 (ground arith),
      )

  check_position-allow_iff :
      (safety : SafetyConfig R) (d : Option R) (xy : Option (R × R))
      → ((check_position safety d xy).decision ≡ allow)
        ↔ (InsideIf safety xy × IsUnattended safety (Is d))
  unfolding check_position
  check_position-allow_iff safety d xy = (
    λ h. ((not_outside safety xy).1 (ground arith), IsUnattended-of_none safety d (ground arith)),
    λ h. ground (arith, (not_outside safety xy).0 h.0, none_of-IsUnattended safety d h.1),
  )

  distance_limit-none_iff :
      (safety : SafetyConfig R) (d : Option R)
      → (distance_limit safety d ≡ none) ↔ NotAbove safety.max_move_distance_m (Is d)
  unfolding distance_limit
  distance_limit-none_iff safety none = (λ _ x k. absurd (cc), λ _. refl)
  distance_limit-none_iff safety (some d) = (λ h x k. ground arith, λ h. ground (arith, h d refl))

  Inside-of-InsideIf :
      (safety : SafetyConfig R) (t : MoveTarget R) (pose : Option (Pose2D R)) (at : Option (R × R))
      → predicted_xy t pose ≡ ok at
      → InsideIf safety at
      → (p : Pose2D R) (xy : R × R) → pose ≡ some p
      → EndsAt t p xy
      → Inside safety xy
  unfolding predicted_xy
  Inside-of-InsideIf safety t none at e h p xy f g = cc
  Inside-of-InsideIf safety t (some q) none e h p xy f g =
      absurd (ground (arith, (predicted-EndsAt t p xy).1 g))
  Inside-of-InsideIf safety t (some q) (some at) e h p xy f g =
      subst (Inside safety) (ground (arith, (predicted-EndsAt t p xy).1 g)) h

  InsideIf-of-Inside :
      (safety : SafetyConfig R) (t : MoveTarget R) (pose : Option (Pose2D R)) (at : Option (R × R))
      → predicted_xy t pose ≡ ok at
      → ((p : Pose2D R) (xy : R × R) → pose ≡ some p → EndsAt t p xy → Inside safety xy)
      → InsideIf safety at
  unfolding predicted_xy
  InsideIf-of-Inside safety t pose none e h = tt
  InsideIf-of-Inside safety t none (some at) e h = cc
  InsideIf-of-Inside safety t (some q) (some at) e h =
      h q at refl ((predicted-EndsAt t q at).0 (ground arith))

  near_of :
      {safety : SafetyConfig R} {t : MoveTarget R} {pose : Option (Pose2D R)}
      → MoveIsSafe safety t pose
      → NotAbove safety.max_move_distance_m (Is (move_distance t))
  near_of {safety} {t} v d h = v.near d ((move_distance-Covers t d).0 h)

  judge-allow_iff :
      {safety : SafetyConfig R} {t : MoveTarget R} {pose : Option (Pose2D R)}
      {r : Except (SafetyOutcome R)} {o : SafetyOutcome R}
      → MoveCase safety t pose r
      → r ≡ ok o
      → (o.decision ≡ allow) ↔ MoveIsSafe safety t pose
  judge-allow_iff {safety} {t} (too_far e p) q = (
    λ h. absurd (ground arith),
    λ v. absurd (ground (arith, (distance_limit-none_iff safety (move_distance t)).1 (near_of v))),
  )
  judge-allow_iff {safety} {t} {pose} {o} (predicted xy p r) q =
      let position = check_position-allow_iff safety (move_distance t) xy in
      let same : check_position safety (move_distance t) xy ≡ o = ground arith in
      (
        λ h.
            let both = position.0 (rw same h) in
            record {
              near = λ d c.
                  (distance_limit-none_iff safety (move_distance t)).0 p d
                    ((move_distance-Covers t d).1 c);
              inside = Inside-of-InsideIf safety t pose xy r both.0;
              unattended = IsUnattended-map (λ d. (move_distance-Covers t d).1) both.1;
            },
        λ v.
            let calm = IsUnattended-map (λ d. (move_distance-Covers t d).0) v.unattended in
            rw (← same) (position.1 (InsideIf-of-Inside safety t pose xy r v.inside, calm)),
      )
  judge-allow_iff (unpredicted e q) r = absurd (ground arith)

  check_navigate-allow_iff :
      (safety : SafetyConfig R) (t : NavigateTarget R) (pose : Option (Pose2D R))
      → ((check_navigate safety t pose).decision ≡ allow) ↔ GoalIsSafe safety t pose
  unfolding check_navigate euclidean_distance
  check_navigate-allow_iff safety t none = (λ h. absurd (ground arith), λ v. absurd (cc (v.known)))
  check_navigate-allow_iff safety t (some p) =
      let d = euclidean_distance p.x p.y t.x t.y in
      let position = check_position-allow_iff safety (some d) (some (t.x, t.y)) in
      (
        λ h.
            let allowed_there : (check_position safety (some d) (some (t.x, t.y))).decision
                ≡ allow =
              ground arith in
            let both = position.0 allowed_there in
            record {
              at = p;
              known = refl;
              near = λ x e. ground arith;
              inside = both.0;
              unattended = IsUnattended-map (λ x e. cc) both.1;
            },
        λ v.
            let same : v.at ≡ p = cc in
            let calm : IsUnattended safety (Is (some d)) =
              IsUnattended-map (λ x e. cc)
                (subst (λ (q : Pose2D R). IsUnattended safety (Away q t)) same v.unattended) in
            let close : lt safety.max_navigation_distance_m d ≡ false =
              subst (λ (q : Pose2D R). NotAbove safety.max_navigation_distance_m (Away q t)) same
                v.near d refl in
            rw close (position.1 (v.inside, calm)),
      )

  module _ (engine : SafetyEngine R) (command : SemanticCommand R) (pose : Option (Pose2D R))
      (safety : SafetyConfig R) (now : R) {o : SafetyOutcome R}
      (in_rate : (check_rate_limit engine now command.session_id safety.rate_limit_rps).0 ≡ none)
      (returned : (check engine command pose safety now).0 ≡ ok o) where
    check_after_rate :
        is_stop command.operation ≡ false
        → check_target safety command.operation command.target pose ≡ ok o
    unfolding check
    check_after_rate e = ground arith

    -- Within the rate limit, a move on which `check` returns an outcome is allowed exactly when it is
    -- safe, as described apart from the code: the distance that it covers within the limit, the end of
    -- the move inside an enabled geofence if the pose is known, and no human approval required.
    pub check-allow_iff_MoveIsSafe :
        (t : MoveTarget R)
        → command.operation ≡ Operation.move
        → command.target ≡ move_target t
        → (o.decision ≡ allow) ↔ MoveIsSafe safety t pose
    unfolding check_target
    check-allow_iff_MoveIsSafe t p q =
        let checked : check_move safety t pose ≡ ok o = (rw (p, q) at (check_after_rate (rw p))) in
        judge-allow_iff (check_move-MoveCase safety t pose) checked

    -- Within the rate limit, a goal on which `check` returns an outcome is allowed exactly when it is
    -- safe, as described apart from the code: the robot's pose is known, the distance to the goal
    -- within the limit, the goal inside an enabled geofence, and no human approval required.
    pub check-allow_iff_GoalIsSafe :
        (t : NavigateTarget R)
        → command.operation ≡ Operation.navigate
        → command.target ≡ navigate_target t
        → (o.decision ≡ allow) ↔ GoalIsSafe safety t pose
    unfolding check_target
    check-allow_iff_GoalIsSafe t p q =
        let checked : ok (check_navigate safety t pose) ≡ ok o =
          (rw (p, q) at (check_after_rate (rw p))) in
        let same : check_navigate safety t pose ≡ o = cc in
        rw (← same) (check_navigate-allow_iff safety t pose)
