-- ===== src/Safety/Decision.antt =====
-- What every outcome of `DefaultSafetyPolicyEngine.check` carries, and the ways through the check of a
-- move.
use ros2_mcp_server.Base.{
  ◌≡◌, refl, inl, inr, Bool, true, false, Option, none, some, arith, Except, ok, raised,
  Option-cases, is_some, Exception, Except-cases,
}
use ros2_mcp_server.Number.{Number}
use ros2_mcp_server.Contracts.Core.{
  Operation, ToolError, Pose2D, MoveTarget, NavigateTarget, Target, move_target, navigate_target,
  no_target, SemanticCommand, SafetyConstraints, SafetyDecision, deny, require_approval,
  SafetyOutcome,
}
use ros2_mcp_server.Contracts.Config.{SafetyConfig}
use ros2_mcp_server.Geometry.{euclidean_distance}
use ros2_mcp_server.Safety.{
  SafetyEngine, move_distance, check_position, distance_limit, predicted_xy, check_move,
  check_navigate, check_target, check, resolve_constraints,
}

abbrev Explains : SafetyDecision → Bool → Type 0
Explains require_approval true = Unit
Explains require_approval false = ⊥
Explains _ true = ⊥
Explains _ false = Unit

module _ {R : Type 0} where
  abbrev Carries : SafetyDecision → Option (ToolError R) → Type 0
  Carries deny none = ⊥
  Carries deny (some e) = Unit
  Carries _ none = Unit
  Carries _ (some e) = ⊥

  -- The outcome of a denial.
  abbrev pub denied : SafetyConfig R → ToolError R → SafetyOutcome R
  denied safety e = record {
    decision = deny;
    error = some e;
    approval_reason = none;
    resolved_constraints = resolve_constraints safety;
  }

  -- The limits are those of the configuration, each under its own name.
  pub record AreLimits (safety : SafetyConfig R) (c : SafetyConstraints R) : Type 0 where
    pub linear : c.max_linear_mps ≡ safety.max_linear_mps
    pub angular : c.max_angular_rps ≡ safety.max_angular_rps
    pub linear_acceleration : c.max_linear_acceleration_mps2 ≡ safety.max_linear_acceleration_mps2
    pub angular_acceleration :
        c.max_angular_acceleration_rps2 ≡ safety.max_angular_acceleration_rps2
    pub move_distance : c.max_move_distance_m ≡ safety.max_move_distance_m
    pub navigation_distance : c.max_navigation_distance_m ≡ safety.max_navigation_distance_m
    pub obstacle : c.obstacle_stop_distance_m ≡ safety.obstacle_stop_distance_m

  pub resolve-AreLimits : (safety : SafetyConfig R) → AreLimits safety (resolve_constraints safety)
  unfolding resolve_constraints
  resolve-AreLimits safety = record {
    linear = refl;
    angular = refl;
    linear_acceleration = refl;
    angular_acceleration = refl;
    move_distance = refl;
    navigation_distance = refl;
    obstacle = refl;
  }

  -- An outcome carries what its decision promises: an error exactly when it denies, a reason exactly
  -- when it asks for approval, and always the limits of the configuration.
  pub record IsConsistent (safety : SafetyConfig R) (o : SafetyOutcome R) : Type 0 where
    pub carries : Carries o.decision o.error
    pub explains : Explains o.decision (is_some o.approval_reason)
    pub constraints : AreLimits safety o.resolved_constraints

  abbrev pub Returned {ℓ} : (SafetyOutcome R → Type ℓ) → Except (SafetyOutcome R) → Type ℓ
  Returned P (ok o) = P o
  Returned P (raised e) = Unit

module _ {R : Type 0} ⦃n : Number R⦄ where
  open n use {lt}

  check_position-IsConsistent :
      (safety : SafetyConfig R) (d : Option R) (xy : Option (R × R))
      → IsConsistent safety (check_position safety d xy)
  unfolding check_position
  check_position-IsConsistent safety d xy = ground (arith, resolve-AreLimits safety)

  check_navigate-IsConsistent :
      (safety : SafetyConfig R) (t : NavigateTarget R) (pose : Option (Pose2D R))
      → IsConsistent safety (check_navigate safety t pose)
  unfolding check_navigate
  check_navigate-IsConsistent safety t none = ground (arith, resolve-AreLimits safety)
  check_navigate-IsConsistent safety t (some p) =
      let d = euclidean_distance p.x p.y t.x t.y in
      ground (
        arith,
        resolve-AreLimits safety,
        check_position-IsConsistent safety (some d) (some (t.x, t.y)),
      )

  -- A move is denied for its distance, or judged by its position, or its prediction raises.
  pub data MoveCase (safety : SafetyConfig R) (t : MoveTarget R) (pose : Option (Pose2D R))
      : Except (SafetyOutcome R) → Type 0 where
    too_far :
        (e : ToolError R)
        → distance_limit safety (move_distance t) ≡ some e
        → MoveCase safety t pose (ok (denied safety e))
    predicted :
        (xy : Option (R × R))
        → distance_limit safety (move_distance t) ≡ none
        → predicted_xy t pose ≡ ok xy
        → MoveCase safety t pose (ok (check_position safety (move_distance t) xy))
    unpredicted :
        (e : Exception) → predicted_xy t pose ≡ raised e → MoveCase safety t pose (raised e)

  pub check_move-MoveCase :
      (safety : SafetyConfig R) (t : MoveTarget R) (pose : Option (Pose2D R))
      → MoveCase safety t pose (check_move safety t pose)
  unfolding check_move
  check_move-MoveCase safety t pose =
      elim (Option-cases (distance_limit safety (move_distance t))) [
        | inr (e, p) ↦ rw (p, check_move) (too_far e p)
        | inl p ↦
            rw (p, check_move)
              (elim (Except-cases (predicted_xy t pose)) [
                | inl (xy, q) ↦ rw q (predicted xy p q)
                | inr (e, q) ↦ rw q (unpredicted e q)
              ])
      ]

  MoveCase-IsConsistent :
      {safety : SafetyConfig R} {t : MoveTarget R} {pose : Option (Pose2D R)}
      {r : Except (SafetyOutcome R)}
      → MoveCase safety t pose r
      → Returned (IsConsistent safety) r
  MoveCase-IsConsistent {safety} (too_far e p) = ground (arith, resolve-AreLimits safety)
  MoveCase-IsConsistent {safety} {t} (predicted xy p q) =
      check_position-IsConsistent safety (move_distance t) xy
  MoveCase-IsConsistent (unpredicted e q) = tt

  check_target-IsConsistent :
      (safety : SafetyConfig R) (op : Operation) (t : Target R) (pose : Option (Pose2D R))
      → Returned (IsConsistent safety) (check_target safety op t pose)
  unfolding check_target
  check_target-IsConsistent safety Operation.move (move_target t) pose =
      MoveCase-IsConsistent (check_move-MoveCase safety t pose)
  check_target-IsConsistent safety Operation.move (navigate_target t) pose = tt
  check_target-IsConsistent safety Operation.move no_target pose = tt
  check_target-IsConsistent safety Operation.navigate (navigate_target t) pose =
      check_navigate-IsConsistent safety t pose
  check_target-IsConsistent safety Operation.navigate (move_target t) pose = tt
  check_target-IsConsistent safety Operation.navigate no_target pose = tt
  check_target-IsConsistent safety _ t pose = check_position-IsConsistent safety none none

  -- Every outcome that `check` returns, for any command, state and configuration, has an error
  -- exactly when it denies and a reason exactly when it asks for approval, and carries the seven
  -- limits of the configuration that was read, each under its own name.
  pub check-IsConsistent :
      (engine : SafetyEngine R) (command : SemanticCommand R) (pose : Option (Pose2D R))
      (safety : SafetyConfig R) (now : R)
      → Returned (IsConsistent safety) (check engine command pose safety now).0
  unfolding check
  check-IsConsistent engine command pose safety now = ground (
    arith,
    resolve-AreLimits safety,
    check_target-IsConsistent safety command.operation command.target pose,
  )
